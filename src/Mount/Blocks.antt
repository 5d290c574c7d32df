-- ===== src/Mount/Blocks.antt =====
-- `read_spdk` and `write_spdk` of several blocks, on a device as bytes.
use test_vsfs.Prelude.{
  ℕ, ◌+◌, ◌-◌, ◌*◌, ◌/◌, ◌%◌, ◌^◌, ◌≤◌, ◌<◌, ◌≡◌, refl, arith, ◌∙◌, ap, sym, ltb, leb, ◌&&◌, le→leb,
  lt→ltb, ◌⊎◌, inl, inr, if◌then◌else◌,
}
use test_vsfs.Memory.{Memory, memcpy}
use test_vsfs.Memory.Laws.{memcpy-inside, memcpy-outside}
use test_vsfs.Spdk.{Nvme, IsReliable, read_spdk, write_spdk, dev_lba, dev_count}
use test_vsfs.Device.{region}

module _ (nvme : Nvme) (reliable : IsReliable nvme) (ns : nvme.Ns) (buf : Memory) (lba num : ℕ)
    (low : lba < 2 ^ 52) (some_blocks : 0 < num) (few : num < 2 ^ 20) where
  at_lba : dev_lba lba ≡ lba * 8
  at_lba = omega arith

  of_num : dev_count num ≡ num * 8
  of_num = omega arith

  pub read_spdk-code : (read_spdk nvme ns buf lba num).0 ≡ 0
  unfolding read_spdk
  read_spdk-code = rw (at_lba, of_num, reliable.reads ns (lba * 8) (num * 8) (omega arith)) refl

  pub read_spdk-region :
      (i : ℕ)
      → i < num * 4096
      → (read_spdk nvme ns buf lba num).1 i ≡ region nvme 0 ns (lba * 4096 + i)
  unfolding read_spdk region
  read_spdk-region i h =
      let q : 0 * 8 + (lba * 4096 + i) / 512 ≡ lba * 8 + i / 512 = omega arith in
      let r : (lba * 4096 + i) % 512 ≡ i % 512 = omega arith in
      let z : i - 0 ≡ i = omega arith in
      rw (at_lba, of_num, reliable.reads ns (lba * 8) (num * 8) (omega arith), region, q, r)
        (memcpy-inside buf 0 (nvme.cmd_read ns (lba * 8) (num * 8)).1 (num * 8 * 512) i
            (omega arith) (omega arith)
          ∙ ap (nvme.cmd_read ns (lba * 8) (num * 8)).1 z
          ∙ reliable.sectors ns (lba * 8) (num * 8) i (omega arith))

  pub write_spdk-code : (write_spdk nvme ns buf lba num).0 ≡ 0
  unfolding write_spdk
  write_spdk-code =
      rw (at_lba, of_num, reliable.writes ns buf (lba * 8) (num * 8) (omega arith)) refl

  -- A write of blocks copies the buffer to their place.
  pub region-write_spdk :
      (a : ℕ)
      → region nvme 0 (write_spdk nvme ns buf lba num).1 a
        ≡ memcpy (region nvme 0 ns) (lba * 4096) buf (num * 4096) a
  unfolding write_spdk region memcpy
  region-write_spdk a =
      rw (at_lba, of_num, reliable.writes ns buf (lba * 8) (num * 8) (omega arith), region)
        (reliable.written ns buf (lba * 8) (num * 8) (0 * 8 + a / 512) (a % 512) (omega arith)
            (omega arith)
          ∙ elim (side a) [
            | inl (lo, hi) ↦
                let e : (0 * 8 + a / 512 - lba * 8) * 512 + a % 512 ≡ a - lba * 4096 =
                  omega arith in
                rw
                  (
                    le→leb (lba * 8) (0 * 8 + a / 512) lo,
                    lt→ltb (0 * 8 + a / 512) (lba * 8 + num * 8) hi,
                    e,
                  )
                  (sym (
                    memcpy-inside (region nvme 0 ns) (lba * 4096) buf (num * 4096) a (omega arith)
                      (omega arith)))
            | inr out ↦
                outside a out
                ∙ sym (
                    memcpy-outside (region nvme 0 ns) (lba * 4096) buf (num * 4096) a (omega arith))
          ])
    where
      side :
          (k : ℕ)
          → ((lba * 8 ≤ 0 * 8 + k / 512) × (0 * 8 + k / 512 < lba * 8 + num * 8))
            ⊎ ((0 * 8 + k / 512 < lba * 8) ⊎ (lba * 8 + num * 8 ≤ 0 * 8 + k / 512))
      side k = omega arith

      outside :
          (k : ℕ)
          → (0 * 8 + k / 512 < lba * 8) ⊎ (lba * 8 + num * 8 ≤ 0 * 8 + k / 512)
          → (if leb (lba * 8) (0 * 8 + k / 512) && ltb (0 * 8 + k / 512) (lba * 8 + num * 8)
              then buf ((0 * 8 + k / 512 - lba * 8) * 512 + k % 512)
              else (nvme.cmd_read ns (0 * 8 + k / 512) 1).1 (k % 512))
            ≡ region nvme 0 ns k
      outside k h = ground arith
