-- ===== src/Device/Read/Laws.antt =====
-- What `__read_dblock` of src/inc/vsfsio_spdk.h leaves in the caller's buffer.
use test_vsfs.Prelude.{
  ℕ, zero, suc, ◌+◌, ◌-◌, ◌*◌, ◌/◌, ◌^◌, ◌≤◌, ◌<◌, ◌≡◌, refl, arith, ◌∙◌, ltb, inl, inr, ◌⊎◌,
  lt→ltb, le→ltb, Bool-cases,
}
use test_vsfs.Word.{u32}
use test_vsfs.Spdk.{Nvme, IsReliable}
use test_vsfs.Device.{File, region}
use test_vsfs.Device.Region.{read_block-region, read_block-past}
use test_vsfs.Device.Read.{Fetch, read_length, read_round, read_rounds}

module _ (nvme : Nvme) (reliable : IsReliable nvme) (ofs : ℕ) (small : ofs < 2 ^ 32) (ns : nvme.Ns)
    (file : File) (word : (k : ℕ) → k < file.blocks → file.block k < 2 ^ 32)
    (few : file.blocks ≤ 2 ^ 21) where
  -- The loop stands at block `k`, and what is left ends within the file's blocks.
  pub record IsHere (k : ℕ) (s : Fetch) : Type 0 where
    pub inside : s.offset < 4096
    pub place : s.pos ≡ k * 4096 + s.offset
    pub fits : k * 4096 + s.offset + s.left ≤ file.blocks * 4096

  -- Nothing is left of `s`, and the buffer holds the block `last` alone.
  pub record IsFetched (last : ℕ) (s d : Fetch) : Type 0 where
    pub finished : d.left ≡ 0
    pub total : d.readed ≡ s.readed + s.left
    pub place : d.pos ≡ s.pos + s.left
    pub held : (t : ℕ) → t < 4096 → d.buf t ≡ region nvme ofs ns (file.block last * 4096 + t)
    pub past : (t : ℕ) → 4096 ≤ t → d.buf t ≡ s.buf t

  abbrev round : ℕ → Fetch → Fetch
  round k s = read_round nvme ofs ns (file.block k) s

  IsFetched-last :
      (k : ℕ) (s : Fetch)
      → k < file.blocks
      → IsHere k s
      → s.left ≤ 4096 - s.offset
      → IsFetched k s (round k s)
  unfolding read_round read_length
  IsFetched-last k s low here one = record {
    finished = ground (arith, here.inside);
    total = ground (arith, here.inside);
    place = ground (arith, here.inside, here.place, here.fits);
    held = λ t h.
        read_block-region nvme reliable ofs ns s.buf (file.block k) t (omega (arith, word k low)) h;
    past = λ t h. read_block-past nvme reliable ofs ns s.buf (file.block k) t h;
  }

  -- A whole block, and then the rest.
  IsFetched-step :
      (last k : ℕ) (s d : Fetch)
      → IsHere k s
      → 4096 - s.offset < s.left
      → IsFetched last (round k s) d
      → IsFetched last s d
  unfolding read_round read_length
  IsFetched-step last k s d here more rest = record {
    finished = rest.finished;
    total = ground (arith, rest.total);
    place = ground (arith, rest.place, here.inside, here.place, here.fits);
    held = rest.held;
    past = λ t h. rest.past t h ∙ read_block-past nvme reliable ofs ns s.buf (file.block k) t h;
  }

  IsHere-round :
      (k : ℕ) (s : Fetch)
      → IsHere k s
      → 4096 - s.offset < s.left
      → IsHere (k + 1) (round k s) × (s.left ≡ (round k s).left + (4096 - s.offset))
  unfolding read_round read_length
  IsHere-round k s here more = (
    record {
      inside = omega arith;
      place = ground (arith, here.inside, here.place, here.fits);
      fits = ground (arith, here.inside, here.fits);
    },
    ground (arith, here.inside),
  )

  read_rounds_stop :
      (rounds i : ℕ) (s : Fetch) → s.left ≡ 0 → read_rounds nvme ofs ns file rounds i s ≡ s
  unfolding read_rounds
  read_rounds_stop zero i s e = refl
  read_rounds_stop (suc rounds) i s e = elim (Bool-cases (ltb i file.blocks)) [
    | inl low ↦ rw (low, le→ltb 0 s.left (omega arith)) refl
    | inr high ↦ rw high refl
  ]

  read_rounds_step :
      (rounds k : ℕ) (s : Fetch)
      → k < file.blocks
      → 0 < s.left
      → read_rounds nvme ofs ns file (suc rounds) k s
        ≡ read_rounds nvme ofs ns file rounds (k + 1) (round k s)
  unfolding read_rounds
  read_rounds_step rounds k s low more =
      let f : u32 (k + 1) ≡ k + 1 = omega (arith, few) in
      rw (lt→ltb k file.blocks low, lt→ltb 0 s.left more, f) refl

  pub read_rounds_lem :
      (rounds k : ℕ) (s : Fetch)
      → IsHere k s
      → 0 < s.left
      → file.blocks ≤ k + rounds
      → IsFetched
          ((k * 4096 + s.offset + s.left - 1) / 4096)
          s
          (read_rounds nvme ofs ns file rounds k s)
  read_rounds_lem zero k s here more h = absurd (omega (arith, here.fits))
  read_rounds_lem (suc rounds) k s here more h =
      let low : k < file.blocks = omega (arith, here.fits) in
      rw (read_rounds_step rounds k s low more) (elim (side s.left (4096 - s.offset)) [
        | inl one ↦
            let done = IsFetched-last k s low here one in
            let e : (k * 4096 + s.offset + s.left - 1) / 4096 ≡ k = omega (arith, here.inside) in
            rw (read_rounds_stop rounds (k + 1) (round k s) done.finished, e) done
        | inr over ↦
            let (here', sum) = IsHere-round k s here over in
            let more' : 0 < (round k s).left = omega arith in
            let zero_offset : (round k s).offset ≡ 0 = unfold read_round in refl in
            let e : ((k + 1) * 4096 + (round k s).offset + (round k s).left - 1) / 4096
                ≡ (k * 4096 + s.offset + s.left - 1) / 4096 =
              omega (arith, here.inside) in
            IsFetched-step _ k s _ here over
              (rw e at (read_rounds_lem rounds (k + 1) (round k s) here' more' (omega arith)))
      ])
    where
      side : (a b : ℕ) → (a ≤ b) ⊎ (b < a)
      side a b = omega arith
