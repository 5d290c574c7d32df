-- ===== src/FileIo/Write/Laws.antt =====
-- What `__write_dblock` leaves in memory, byte for byte.
use test_vsfs.Prelude.{
  ℕ, zero, suc, ◌+◌, ◌-◌, ◌*◌, ◌/◌, ◌%◌, ◌≤◌, ◌<◌, ◌≡◌, ◌≢◌, refl, arith, inl, inr, ◌⊎◌, ◌∙◌,
  zero-or-pos, ap,
}
use test_vsfs.Memory.{Memory}
use test_vsfs.Memory.Laws.{memcpy-inside, memcpy-outside}
use test_vsfs.Layout.{Inode}
use test_vsfs.Blocks.Map.{IsMapped}
use test_vsfs.FileIo.{Copy, chunk_length, start, IsNarrow, byte_addr}
use test_vsfs.FileIo.Flat.{IsAt, IsAt-chunk, flat, flat_stop, flat_step}
use test_vsfs.FileIo.Write.{write_chunk, write_dblock}
use test_vsfs.FileIo.Write.Levels.{write_chunk-IsChunk}
use test_vsfs.FileIo.Write.Whole.{IsAt-start, write_dblock-flat}

-- No two of the first `n` blocks are the same.
abbrev pub IsDistinct : (map : ℕ → ℕ) → ℕ → Type 0
IsDistinct map n = (i j : ℕ) → i < n → j < n → i ≢ j → map i ≢ map j

-- All that was left of `s` is written in `d`, at the file's bytes from `s.pos` on, and nothing
-- else.
pub record IsWritten (buf : ℕ → ℕ) (map : ℕ → ℕ) (s d : Copy) : Type 0 where
  pub left : d.left ≡ 0
  pub copied : d.copied ≡ s.copied + s.left
  pub pos : d.pos ≡ s.pos + s.left
  pub inside : (t : ℕ) → t < s.left → d.mem (byte_addr map (s.pos + t)) ≡ buf (s.copied + t)
  pub outside : (a : ℕ) → ((t : ℕ) → t < s.left → a ≢ byte_addr map (s.pos + t)) → d.mem a ≡ s.mem a

module _ (buf : ℕ → ℕ) (map : ℕ → ℕ) (n : ℕ) (distinct : IsDistinct map n) where
  IsWritten-refl : (s : Copy) → s.left ≡ 0 → IsWritten buf map s s
  IsWritten-refl s none = record {
    left = none;
    copied = omega arith;
    pos = omega arith;
    inside = λ t h. absurd (omega arith);
    outside = λ a h. refl;
  }

  -- One chunk and then the rest.
  module _ (k : ℕ) (s d : Copy) (at : IsAt n k s) (more : 0 < s.left)
      (rest : IsWritten buf map (write_chunk buf (map k) s) d) where
    abbrev len : ℕ
    len = chunk_length s

    within_block : (s.offset + len ≤ 4096) × (len ≤ s.left) × (0 < len)
    within_block = (ground (arith, at.inside), ground arith, ground (arith, at.inside))

    to_the_end : len < s.left → s.offset + len ≡ 4096
    to_the_end h = ground (arith, at.inside)

    addr_here : (t : ℕ) → t < len → byte_addr map (s.pos + t) ≡ map k * 4096 + s.offset + t
    addr_here t h =
        let e : (s.pos + t) / 4096 ≡ k = omega (arith, at.place, within_block) in
        let f : (s.pos + t) % 4096 ≡ s.offset + t = omega (arith, at.place, within_block) in
        omega (arith, ap map e, f)

    -- An address of this chunk is none of the addresses of the rest.
    apart :
        (t u : ℕ)
        → t < len
        → u < s.left - len
        → byte_addr map (s.pos + t) ≢ byte_addr map (s.pos + len + u)
    apart t u h l e =
        let full = to_the_end (omega arith) in
        let q = (s.pos + len + u) / 4096 in
        let low : q < n = omega (arith, at.place, at.fits) in
        let here : k < n = omega (arith, at.fits) in
        let other : k ≢ q = omega (arith, at.place) in
        distinct k q here low other (omega (arith, addr_here t h, within_block))

    next_pos : (write_chunk buf (map k) s).pos ≡ s.pos + len
    unfolding write_chunk
    next_pos = omega (arith, at.place, at.fits, at.bound, within_block)

    next_mem :
        (t : ℕ)
        → t < len
        → (write_chunk buf (map k) s).mem (byte_addr map (s.pos + t)) ≡ buf (s.copied + t)
    unfolding write_chunk
    next_mem t h =
        let dst = map k * 4096 + s.offset in
        let e : dst + t - dst ≡ t = omega arith in
        rw (addr_here t h) (
          memcpy-inside s.mem dst (λ i. buf (s.copied + i)) len (dst + t) (omega arith)
            (omega arith)
          ∙ ap (λ (i : ℕ). buf (s.copied + i)) e)

    next_outside :
        (a : ℕ)
        → ((t : ℕ) → t < len → a ≢ byte_addr map (s.pos + t))
        → (write_chunk buf (map k) s).mem a ≡ s.mem a
    unfolding write_chunk
    next_outside a far =
        memcpy-outside s.mem dst (λ i. buf (s.copied + i)) len a
          (elim (three a) [
            | inl side ↦ side
            | inr (lo, hi) ↦
                absurd
                  (far (a - dst) (omega arith) (omega (arith, addr_here (a - dst) (omega arith))))
          ])
      where
        dst : ℕ
        dst = map k * 4096 + s.offset

        three : (b : ℕ) → ((b < dst) ⊎ (dst + len ≤ b)) ⊎ ((dst ≤ b) × (b < dst + len))
        three b = omega arith

    IsWritten-step : IsWritten buf map s d
    unfolding write_chunk
    IsWritten-step = record {
      left = rest.left;
      copied = omega (arith, rest.copied, within_block);
      pos = omega (arith, rest.pos, next_pos, within_block);
      inside = λ t h. elim (split t) [
        | inl l ↦
            rest.outside (byte_addr map (s.pos + t)) (λ u lu e. apart t u l lu (rw next_pos at e))
            ∙ next_mem t l
        | inr g ↦
            let e : s.pos + len + (t - len) ≡ s.pos + t = omega arith in
            let f : s.copied + len + (t - len) ≡ s.copied + t = omega arith in
            rw (e, f) at (rw next_pos at (rest.inside (t - len) (omega arith)))
      ];
      outside = λ a far.
          rest.outside a (λ u lu e.
            let f : s.pos + len + u ≡ s.pos + (len + u) = omega arith in
            far (len + u) (omega arith) (rw f at (rw next_pos at e)))
          ∙ next_outside a (λ t h. far t (omega (arith, within_block)));
    }
      where
        split : (t : ℕ) → (t < len) ⊎ (len ≤ t)
        split t = omega arith

  pub flat-IsWritten :
      (rounds k : ℕ) (s : Copy)
      → (0 < s.left → IsAt n k s)
      → n ≤ k + rounds
      → IsWritten buf map s (flat (write_chunk buf) map rounds k s)
  flat-IsWritten zero k s at h =
      let none : s.left ≡ 0 = elim (zero-or-pos s.left) [
        | inl z ↦ z
        | inr more ↦ absurd (omega (arith, at more))
      ] in
      rw (flat_stop (write_chunk buf) map 0 k s none) (IsWritten-refl s none)
  flat-IsWritten (suc rounds) k s at h = elim (zero-or-pos s.left) [
    | inl none ↦ rw (flat_stop (write_chunk buf) map (suc rounds) k s none) (IsWritten-refl s none)
    | inr more ↦ rw (flat_step (write_chunk buf) map rounds k s more) (
        IsWritten-step k s _ (at more) more (
          flat-IsWritten rounds (k + 1) (write_chunk buf (map k) s)
            (λ more'.
              IsAt-chunk (write_chunk buf) (write_chunk-IsChunk buf) n k (map k) s (at more) more')
            (omega arith)))
  ]

-- For a range within the file's blocks, no two of them the same, and a block number that does not
-- wrap into level 1, `__write_dblock` writes all `nbyte` bytes of the buffer at the file's bytes
-- from `offset` on, changes no other byte of the memory, moves the offset behind them and leaves
-- nothing.
pub write_dblock_lem :
    (buf : ℕ → ℕ) (inode : Inode) (map : ℕ → ℕ) (n : ℕ) (mem : Memory) (offset nbyte : ℕ)
    → IsMapped inode map n mem
    → IsDistinct map n
    → offset + nbyte ≤ n * 4096
    → IsNarrow offset
    → IsWritten buf map (start mem offset nbyte) (write_dblock buf inode mem offset nbyte)
write_dblock_lem buf inode map n mem offset nbyte mapped distinct fits narrow =
    let at = IsAt-start buf inode map n mem offset nbyte mapped fits in
    rw (write_dblock-flat buf inode map n mem offset nbyte mapped fits narrow) (
      flat-IsWritten buf map n distinct (1053745 - offset / 4096) (offset / 4096)
        (start mem offset nbyte) (λ _. at) (omega (arith, mapped.within)))
