-- ===== src/FileIo/Read/Laws.antt =====
-- What `__read_dblock` puts into the buffer, byte for byte, and how it ends at the end of the file.
use test_vsfs.Prelude.{
  ℕ, zero, suc, ◌+◌, ◌-◌, ◌*◌, ◌/◌, ◌%◌, ◌^◌, ◌≤◌, ◌<◌, ◌≡◌, refl, arith, leb, ◌==◌, if◌then◌else◌,
  inl, inr, ◌⊎◌, sym, ◌∙◌, zero-or-pos, ap, false, leb→le, leb→lt, Bool-cases,
}
use test_vsfs.Word.{to_int, u64, sub64}
use test_vsfs.Memory.{Memory, memset}
use test_vsfs.Memory.Laws.{memcpy-inside, memcpy-outside}
use test_vsfs.Layout.{Inode}
use test_vsfs.Blocks.{file_block}
use test_vsfs.FileIo.{Copy, chunk_length, start, IsNarrow, byte_addr}
use test_vsfs.FileIo.Flat.{IsAt, IsAt-chunk, flat, flat_stop, flat_step}
use test_vsfs.FileIo.Read.{Readed, read_chunk, read_blocks, read_dblock, file_size}
use test_vsfs.FileIo.Read.Levels.{read_chunk-IsChunk}
use test_vsfs.FileIo.Read.Whole.{IsAt-start, read_blocks-flat}

-- All that was left of `s` is read in `d`: the file's bytes from `s.pos` on.
pub record IsRead (disk : Memory) (map : ℕ → ℕ) (s d : Copy) : Type 0 where
  pub left : d.left ≡ 0
  pub copied : d.copied ≡ s.copied + s.left
  pub pos : d.pos ≡ s.pos + s.left
  pub inside : (t : ℕ) → t < s.left → d.mem (s.copied + t) ≡ disk (byte_addr map (s.pos + t))
  pub outside : (a : ℕ) → (a < s.copied) ⊎ (s.copied + s.left ≤ a) → d.mem a ≡ s.mem a

module _ (disk : Memory) (map : ℕ → ℕ) (n : ℕ) where
  IsRead-refl : (s : Copy) → s.left ≡ 0 → IsRead disk map s s
  IsRead-refl s none = record {
    left = none;
    copied = omega arith;
    pos = omega arith;
    inside = λ t h. absurd (omega arith);
    outside = λ a h. refl;
  }

  -- One chunk and then the rest.
  module _ (k : ℕ) (s d : Copy) (at : IsAt n k s) (more : 0 < s.left)
      (rest : IsRead disk map (read_chunk disk (map k) s) d) where
    abbrev len : ℕ
    len = chunk_length s

    within_block : (s.offset + len ≤ 4096) × (len ≤ s.left) × (0 < len)
    within_block = (ground (arith, at.inside), ground arith, ground (arith, at.inside))

    addr_here : (t : ℕ) → t < len → byte_addr map (s.pos + t) ≡ map k * 4096 + s.offset + t
    addr_here t h =
        let e : (s.pos + t) / 4096 ≡ k = omega (arith, at.place, within_block) in
        let f : (s.pos + t) % 4096 ≡ s.offset + t = omega (arith, at.place, within_block) in
        omega (arith, ap map e, f)

    next_pos : (read_chunk disk (map k) s).pos ≡ s.pos + len
    unfolding read_chunk
    next_pos = omega (arith, at.place, at.fits, at.bound, within_block)

    next_mem :
        (t : ℕ)
        → t < len
        → (read_chunk disk (map k) s).mem (s.copied + t) ≡ disk (byte_addr map (s.pos + t))
    unfolding read_chunk
    next_mem t h =
        let e : s.copied + t - s.copied ≡ t = omega arith in
        memcpy-inside s.mem s.copied (λ i. disk (map k * 4096 + s.offset + i)) len (s.copied + t)
          (omega arith) (omega arith)
        ∙ ap (λ (i : ℕ). disk (map k * 4096 + s.offset + i)) e
        ∙ sym (ap disk (addr_here t h))

    next_outside :
        (a : ℕ)
        → (a < s.copied) ⊎ (s.copied + len ≤ a)
        → (read_chunk disk (map k) s).mem a ≡ s.mem a
    unfolding read_chunk
    next_outside a far =
        memcpy-outside s.mem s.copied (λ i. disk (map k * 4096 + s.offset + i)) len a far

    IsRead-step : IsRead disk map s d
    unfolding read_chunk
    IsRead-step = record {
      left = rest.left;
      copied = omega (arith, rest.copied, within_block);
      pos = omega (arith, rest.pos, next_pos, within_block);
      inside = λ t h. elim (split t) [
        | inl l ↦ rest.outside (s.copied + t) (inl (omega arith)) ∙ next_mem t l
        | inr g ↦
            let e : s.pos + len + (t - len) ≡ s.pos + t = omega arith in
            let f : s.copied + len + (t - len) ≡ s.copied + t = omega arith in
            rw (e, f) at (rw next_pos at (rest.inside (t - len) (omega arith)))
      ];
      outside = λ a far.
          rest.outside a (omega (arith, within_block))
          ∙ next_outside a (omega (arith, within_block));
    }
      where
        split : (t : ℕ) → (t < len) ⊎ (len ≤ t)
        split t = omega arith

  pub flat-IsRead :
      (rounds k : ℕ) (s : Copy)
      → (0 < s.left → IsAt n k s)
      → n ≤ k + rounds
      → IsRead disk map s (flat (read_chunk disk) map rounds k s)
  flat-IsRead zero k s at h =
      let none : s.left ≡ 0 = elim (zero-or-pos s.left) [
        | inl z ↦ z
        | inr more ↦ absurd (omega (arith, at more))
      ] in
      rw (flat_stop (read_chunk disk) map 0 k s none) (IsRead-refl s none)
  flat-IsRead (suc rounds) k s at h = elim (zero-or-pos s.left) [
    | inl none ↦ rw (flat_stop (read_chunk disk) map (suc rounds) k s none) (IsRead-refl s none)
    | inr more ↦ rw (flat_step (read_chunk disk) map rounds k s more) (
        IsRead-step k s _ (at more) more (
          flat-IsRead rounds (k + 1) (read_chunk disk (map k) s)
            (λ more'.
              IsAt-chunk (read_chunk disk) (read_chunk-IsChunk disk) n k (map k) s (at more) more')
            (omega arith)))
  ]

pub read_blocks-IsRead :
    (disk : Memory) (inode : Inode) (n : ℕ) (buf : Memory) (offset left : ℕ)
    → n ≤ 1053745
    → offset + left ≤ n * 4096
    → IsNarrow offset
    → IsRead disk
        (file_block inode disk)
        (start buf offset left)
        (read_blocks disk inode buf offset left)
read_blocks-IsRead disk inode n buf offset left small fits narrow =
    let at = IsAt-start disk inode n small buf offset left fits in
    rw (read_blocks-flat disk inode n small buf offset left fits narrow) (
      flat-IsRead disk (file_block inode disk) n (1053745 - offset / 4096) (offset / 4096)
        (start buf offset left) (λ _. at) (omega arith))

-- What a read of `nbyte` bytes gives: `there` bytes of the file and zeros behind them.
pub record IsPadded (disk : Memory) (map : ℕ → ℕ) (from nbyte there : ℕ) (buf : Memory) (r : Readed)
    : Type 0 where
  pub result : r.result ≡ to_int nbyte
  pub offset : r.offset ≡ from + there
  pub bytes : (t : ℕ) → t < there → r.buf t ≡ disk (byte_addr map (from + t))
  pub zeros : (t : ℕ) → there ≤ t → t < nbyte → r.buf t ≡ 0
  pub rest : (t : ℕ) → nbyte ≤ t → r.buf t ≡ buf t

-- `there` bytes are copied, and the buffer is filled up with zeros.
abbrev filled : (disk : Memory) (inode : Inode) (offset nbyte there : ℕ) (buf : Memory) → Readed
filled disk inode offset nbyte there buf =
    let copy = read_blocks disk inode buf offset there in
    record {
      offset = copy.pos;
      buf = memset copy.mem copy.copied 0 (nbyte - there);
      result = to_int nbyte;
    }

filled-IsPadded :
    (disk : Memory) (inode : Inode) (offset nbyte there : ℕ) (buf : Memory)
    → there ≤ nbyte
    → offset + there ≤ 2 ^ 32
    → IsNarrow offset
    → IsPadded disk
        (file_block inode disk)
        offset
        nbyte
        there
        buf
        (filled disk inode offset nbyte there buf)
unfolding memset
filled-IsPadded disk inode offset nbyte there buf le fits narrow =
    let copy = read_blocks disk inode buf offset there in
    let is =
      read_blocks-IsRead disk inode 1053745 buf offset there (omega arith) (omega arith) narrow in
    let count : copy.copied ≡ there = omega (arith, is.copied) in
    let z : (t : ℕ) → 0 + t ≡ t = λ t. omega arith in
    record {
      result = refl;
      offset = is.pos;
      bytes = λ t h.
          memcpy-outside copy.mem copy.copied (λ _. 0) (nbyte - there) t
            (inl (omega (arith, count)))
          ∙ rw (z t) at (is.inside t h);
      zeros = λ t h l.
          memcpy-inside copy.mem copy.copied (λ _. 0) (nbyte - there) t (omega (arith, count))
            (omega (arith, count));
      rest = λ t h.
          memcpy-outside copy.mem copy.copied (λ _. 0) (nbyte - there) t
            (inr (omega (arith, count)))
          ∙ is.outside t (inr (omega arith));
    }

module _ (inode : Inode) (disk : Memory) (offset nbyte : ℕ) (buf : Memory)
    (size_fits : file_size inode ≤ 2 ^ 32) (narrow : IsNarrow offset)
    (count_fits : nbyte < 2 ^ 63) where
  -- Within a file of at most 4 GiB, at a block number that does not wrap into level 1,
  -- `__read_dblock` of less than 2 ^ 63 bytes fills the buffer with the file's bytes from the
  -- offset on; where the file ends first, the rest of the buffer is zero. It returns the number of
  -- bytes that were asked for, and the offset moves by the file's bytes alone.
  pub read_dblock-IsPadded :
      offset < file_size inode
      → IsPadded disk
          (file_block inode disk)
          offset
          nbyte
          (if leb (offset + nbyte) (file_size inode) then nbyte else file_size inode - offset)
          buf
          (read_dblock inode disk offset nbyte buf)
  unfolding read_dblock
  read_dblock-IsPadded within = elim (Bool-cases (leb (offset + nbyte) (file_size inode))) [
    | inl whole ↦
        let e : u64 (offset + nbyte) ≡ offset + nbyte = omega arith in
        let z : nbyte - nbyte ≡ 0 = omega arith in
        let w = leb→le _ _ whole in
        rw (e, whole)
          (rw z at
            (filled-IsPadded disk inode offset nbyte nbyte buf (omega arith) (omega arith) narrow))
    | inr short ↦
        let e : u64 (offset + nbyte) ≡ offset + nbyte = omega arith in
        let l = leb→lt _ _ short in
        let there = file_size inode - offset in
        let f : sub64 (file_size inode) offset ≡ there = omega arith in
        let g : sub64 nbyte there ≡ nbyte - there = omega arith in
        let other : (file_size inode == offset) ≡ false = ground arith in
        rw (e, short, other, f, g)
          (filled-IsPadded disk inode offset nbyte there buf (omega arith) (omega arith) narrow)
  ]
