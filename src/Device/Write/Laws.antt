-- ===== src/Device/Write/Laws.antt =====
-- `__write_dblock` on a device is the loop over the blocks of a file in memory.
use test_vsfs.Prelude.{
  ℕ, zero, suc, ◌+◌, ◌-◌, ◌*◌, ◌/◌, ◌%◌, ◌^◌, ◌≤◌, ◌<◌, ◌≡◌, refl, arith, ◌∙◌, sym, ap, ◌==◌, ltb,
  le→ltb, lt→ltb, ==→eq, ==→ne, Bool-cases, inl, inr, zero-or-pos, true, false,
}
use test_vsfs.Word.{u32}
use test_vsfs.Memory.{Memory, memcpy}
use test_vsfs.Memory.Laws.{memcpy-inside, memcpy-outside, memcpy_shift, memcpy_ap}
use test_vsfs.FileIo.{Copy, chunk_length, start}
use test_vsfs.FileIo.Flat.{flat, flat_step, flat_stop, IsAt, IsAt-chunk}
use test_vsfs.FileIo.Write.{write_chunk}
use test_vsfs.FileIo.Write.Levels.{write_chunk-IsChunk}
use test_vsfs.Spdk.{Nvme, IsReliable}
use test_vsfs.Device.{region}
use test_vsfs.Device.Region.{read_block-region, region-write_block}
use test_vsfs.Device.Write.{
  Transfer, write_length, begin, patched, source, write_round, write_rounds, write_dblock,
}

module _ (nvme : Nvme) (reliable : IsReliable nvme) (ofs : ℕ) (small : ofs < 2 ^ 32)
    (buf : ℕ → ℕ) where
  -- The device holds the memory, and the loops are at the same place.
  pub record IsSame (s : Transfer nvme.Ns) (c : Copy) : Type 0 where
    pub mem : (a : ℕ) → region nvme ofs s.ns a ≡ c.mem a
    pub place : s.pos ≡ c.pos
    pub within : s.offset ≡ c.offset
    pub rest : s.left ≡ c.left
    pub count : s.written ≡ c.copied

  -- The bytes that a round writes into its block.
  source_byte :
      (b : ℕ) (s : Transfer nvme.Ns) (i : ℕ)
      → b < 2 ^ 32
      → i < 4096
      → s.offset < 4096
      → source nvme ofs buf b s i
        ≡ memcpy
            (region nvme ofs s.ns)
            (b * 4096 + s.offset)
            (λ k. buf (s.written + k))
            (write_length s)
            (b * 4096 + i)
  unfolding source patched
  source_byte b s i hb hi ho = elim (Bool-cases (write_length s == 4096)) [
    | inl whole ↦
        let full : s.offset ≡ 0 =
          unfold write_length in ground (arith, ==→eq (write_length s) 4096 whole) in
        let e : b * 4096 + i - (b * 4096 + s.offset) ≡ i = omega arith in
        rw whole (
          sym (
            memcpy-inside _ (b * 4096 + s.offset) (λ k. buf (s.written + k)) (write_length s)
              (b * 4096 + i) (omega arith) (omega (arith, ==→eq (write_length s) 4096 whole))
            ∙ ap (λ (k : ℕ). buf (s.written + k)) e))
    | inr part ↦ rw part (
        memcpy_shift (b * 4096) _ _ s.offset (λ k. buf (s.written + k)) (write_length s) i
          (read_block-region nvme reliable ofs s.ns s.dma_buf b i (omega arith) hi))
  ]

  mem_round :
      (b : ℕ) (s : Transfer nvme.Ns) (a : ℕ)
      → b < 2 ^ 32
      → s.offset < 4096
      → region nvme ofs (write_round nvme ofs buf b s).ns a
        ≡ memcpy
            (region nvme ofs s.ns)
            (b * 4096 + s.offset)
            (λ i. buf (s.written + i))
            (write_length s)
            a
  unfolding write_round
  mem_round b s a hb ho =
      region-write_block nvme reliable ofs s.ns (source nvme ofs buf b s) b a (omega arith)
      ∙ elim (Bool-cases (a / 4096 == b)) [
        | inl here ↦
            let z = ==→eq (a / 4096) b here in
            let e : b * 4096 + a % 4096 ≡ a = omega arith in
            rw here (rw e at (source_byte b s (a % 4096) hb (omega arith) ho))
        | inr there ↦
            let z = ==→ne (a / 4096) b there in
            let short : s.offset + write_length s ≤ 4096 = unfold write_length in ground arith in
            rw there (
              sym (
                memcpy-outside _ (b * 4096 + s.offset) (λ i. buf (s.written + i)) (write_length s) a
                  (omega arith)))
      ]

  IsSame-round :
      (b : ℕ) (s : Transfer nvme.Ns) (c : Copy)
      → IsSame s c
      → b < 2 ^ 32
      → c.offset < 4096
      → IsSame (write_round nvme ofs buf b s) (write_chunk buf b c)
  unfolding write_chunk
  IsSame-round b s c same hb ho = record {
    mem = λ a.
        mem_round b s a hb (omega (arith, same.within))
        ∙ memcpy_ap (region nvme ofs s.ns) c.mem (b * 4096 + s.offset) (λ i. buf (s.written + i))
            (write_length s) a (same.mem a)
        ∙ rw (len, same.within, same.count) refl;
    place = unfold write_round in rw (len, same.place) refl;
    within = unfold write_round in refl;
    rest = unfold write_round in rw (len, same.rest) refl;
    count = unfold write_round in rw (len, same.count) refl;
  }
    where
      len : write_length s ≡ chunk_length c
      len = unfold write_length in rw (same.within, same.rest) refl

  module _ (block : ℕ → ℕ) (n : ℕ) (word : (k : ℕ) → k < n → block k < 2 ^ 32) where
    IsSame-rounds :
        (rounds k : ℕ) (s : Transfer nvme.Ns) (c : Copy)
        → IsSame s c
        → (0 < c.left → IsAt n k c)
        → IsSame
            (write_rounds nvme ofs buf block rounds k s)
            (flat (write_chunk buf) block rounds k c)
    unfolding write_rounds
    IsSame-rounds zero k s c same at = unfold flat in same
    IsSame-rounds (suc rounds) k s c same at = elim (zero-or-pos c.left) [
      | inl none ↦
          let e : ltb 0 s.left ≡ false = le→ltb 0 s.left (omega (arith, same.rest)) in
          rw (e, flat_stop (write_chunk buf) block (suc rounds) k c none) same
      | inr more ↦
          let here = at more in
          let e : ltb 0 s.left ≡ true = lt→ltb 0 s.left (omega (arith, same.rest)) in
          let f : u32 (k + 1) ≡ k + 1 = omega (arith, here.fits, here.bound) in
          let low : k < n = omega (arith, here.fits) in
          rw (e, f, flat_step (write_chunk buf) block rounds k c more)
            (IsSame-rounds rounds (k + 1) _ _
              (IsSame-round (block k) s c same (word k low) here.inside)
              (λ more'.
                IsAt-chunk (write_chunk buf) (write_chunk-IsChunk buf) n k (block k) c here more'))
    ]

    module _ (ns : nvme.Ns) (dma_buf : Memory) (offset nbyte : ℕ) (bound : n ≤ 2 ^ 21)
        (fits : offset + nbyte ≤ n * 4096) where
      pub begin_at : IsAt n (offset / 4096) (start (region nvme ofs ns) offset nbyte)
      begin_at = record {
        inside = omega arith;
        place = omega arith;
        fits = omega arith;
        bound = bound;
      }

      IsSame-begin :
          IsSame (begin ns dma_buf offset nbyte) (start (region nvme ofs ns) offset nbyte)
      IsSame-begin = record {
        mem = λ a. refl;
        place = refl;
        within = refl;
        rest = refl;
        count = refl;
      }

      pub write_dblock-flat : IsSame (write_dblock nvme ofs buf block ns dma_buf offset nbyte) (
          flat
            (write_chunk buf)
            block
            (nbyte / 4096 + 2)
            (offset / 4096)
            (start (region nvme ofs ns) offset nbyte))
      unfolding write_dblock
      write_dblock-flat =
          let e : u32 (offset / 4096) ≡ offset / 4096 = omega arith in
          rw e (IsSame-rounds (nbyte / 4096 + 2) (offset / 4096) _ _ IsSame-begin (λ _. begin_at))
