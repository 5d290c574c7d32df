-- ===== src/Device/Region.antt =====
-- The data region of a device that keeps what is written to it: single blocks through `read_spdk`
-- and `write_spdk` of src/spdkapi/spdk.c.
use test_vsfs.Prelude.{
  ℕ, ◌+◌, ◌-◌, ◌*◌, ◌/◌, ◌%◌, ◌^◌, ◌≤◌, ◌<◌, ◌≡◌, refl, arith, ◌∙◌, ap, ◌==◌, ==→eq, ==→ne, le→leb,
  lt→ltb, if◌then◌else◌, Bool-cases, inl, inr,
}
use test_vsfs.Memory.{Memory, memcpy, load32}
use test_vsfs.Memory.Laws.{memcpy-inside}
use test_vsfs.Layout.{pointer_addr}
use test_vsfs.Spdk.{Nvme, IsReliable, read_spdk, write_spdk, dev_lba}
use test_vsfs.Device.{read_block, write_block, region}

module _ (nvme : Nvme) (reliable : IsReliable nvme) (ofs : ℕ) where
  -- A block that is read is its part of the region.
  pub read_block-region :
      (ns : nvme.Ns) (buf : Memory) (b i : ℕ)
      → ofs + b < 2 ^ 52
      → i < 4096
      → read_block nvme ofs ns buf b i ≡ region nvme ofs ns (b * 4096 + i)
  unfolding read_block region read_spdk
  read_block-region ns buf b i h l =
      let e : dev_lba (ofs + b) ≡ ofs * 8 + b * 8 = omega arith in
      let q : ofs * 8 + (b * 4096 + i) / 512 ≡ ofs * 8 + b * 8 + i / 512 = omega arith in
      let r : (b * 4096 + i) % 512 ≡ i % 512 = omega arith in
      let zero_off : i - 0 ≡ i = omega arith in
      rw
        (
          read_block,
          read_spdk,
          reliable.reads ns (dev_lba (ofs + b)) 8 (omega arith),
          e,
          region,
          q,
          r,
        )
        (memcpy-inside buf 0 (nvme.cmd_read ns (ofs * 8 + b * 8) 8).1 4096 i (omega arith)
            (omega arith)
          ∙ ap (nvme.cmd_read ns (ofs * 8 + b * 8) 8).1 zero_off
          ∙ reliable.sectors ns (ofs * 8 + b * 8) 8 i (omega arith))

  -- What lies past the block in the buffer stays.
  pub read_block-past :
      (ns : nvme.Ns) (buf : Memory) (b i : ℕ) → 4096 ≤ i → read_block nvme ofs ns buf b i ≡ buf i
  unfolding read_block read_spdk memcpy
  read_block-past ns buf b i h =
      rw (read_block, read_spdk, reliable.reads ns (dev_lba (ofs + b)) 8 (omega arith))
        (ground arith)

  -- A block that is written replaces its part of the region, and no other.
  pub region-write_block :
      (ns : nvme.Ns) (buf : Memory) (b a : ℕ)
      → ofs + b < 2 ^ 52
      → region nvme ofs (write_block nvme ofs ns buf b) a
        ≡ (if a / 4096 == b then buf (a % 4096) else region nvme ofs ns a)
  unfolding write_block region write_spdk
  region-write_block ns buf b a h =
      let e : dev_lba (ofs + b) ≡ ofs * 8 + b * 8 = omega arith in
      rw
        (
          write_block,
          write_spdk,
          reliable.writes ns buf (dev_lba (ofs + b)) 8 (omega arith),
          region,
          e,
        )
        (reliable.written ns buf (ofs * 8 + b * 8) 8 (ofs * 8 + a / 512) (a % 512) (omega arith)
            (omega arith)
          ∙ elim (Bool-cases (a / 4096 == b)) [
            | inl here ↦
                let z = ==→eq (a / 4096) b here in
                let f : (ofs * 8 + a / 512 - (ofs * 8 + b * 8)) * 512 + a % 512 ≡ a % 4096 =
                  omega arith in
                rw
                  (
                    here,
                    le→leb (ofs * 8 + b * 8) (ofs * 8 + a / 512) (omega arith),
                    lt→ltb (ofs * 8 + a / 512) (ofs * 8 + b * 8 + 8) (omega arith),
                    f,
                  )
                  refl
            | inr there ↦ let z = ==→ne (a / 4096) b there in ground (arith, z)
          ])

  -- A pointer of a block that is read.
  pub load32-read_block :
      (ns : nvme.Ns) (buf : Memory) (b j : ℕ)
      → ofs + b < 2 ^ 52
      → j < 1024
      → load32 (read_block nvme ofs ns buf b) (j * 4)
        ≡ load32 (region nvme ofs ns) (pointer_addr b j)
  unfolding load32
  load32-read_block ns buf b j h l =
      rw (at0, at 1 (omega arith), at 2 (omega arith), at 3 (omega arith)) refl
    where
      at :
          (k : ℕ)
          → k < 4
          → read_block nvme ofs ns buf b (j * 4 + k) ≡ region nvme ofs ns (b * 4096 + j * 4 + k)
      at k hk =
          let e : b * 4096 + (j * 4 + k) ≡ b * 4096 + j * 4 + k = omega arith in
          read_block-region ns buf b (j * 4 + k) h (omega arith) ∙ ap (region nvme ofs ns) e

      at0 : read_block nvme ofs ns buf b (j * 4) ≡ region nvme ofs ns (b * 4096 + j * 4)
      at0 = read_block-region ns buf b (j * 4) h (omega arith)
