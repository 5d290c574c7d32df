-- ===== src/Mount/Init/Chain.antt =====
-- The writes of `init_vsfs` of src/ufs/vsfs_init.c, one after the other, on a device that keeps what
-- is written to it.
use test_vsfs.Prelude.{
  ℕ, zero, suc, ◌+◌, ◌-◌, ◌*◌, ◌^◌, ◌≤◌, ◌<◌, ◌≡◌, refl, arith, ◌∙◌, ap, true, ◌==◌, if◌then◌else◌,
  ◌⊎◌,
}
use test_vsfs.Word.{u32, u64, sub32}
use test_vsfs.Memory.{Memory, memcpy, memset, store32}
use test_vsfs.Memory.Laws.{memcpy-inside, memcpy-outside}
use test_vsfs.Layout.{SbInfo, vsfs_magic}
use test_vsfs.Spdk.{Nvme, IsReliable, write_spdk}
use test_vsfs.Device.{region}
use test_vsfs.Mount.{sb_bytes}
use test_vsfs.Mount.Blocks.{write_spdk-code, region-write_spdk}
use test_vsfs.Mount.Init.{
  written, ◌>>=◌, zeroed, root_bytes, first_bytes, directory_bytes, Buffers, write_next, tested,
  untested, put_superblock, write_inode_bitmap, write_inode_region, write_data_bitmap,
  write_data_region, write_regions,
}

-- The byte of a free map whose first number is taken.
abbrev pub first_taken : ℕ → ℕ
first_taken i = if i == 0 then 0xfe else 0xff

pub first_bytes-first_taken : (i : ℕ) → i < 4096 → first_bytes i ≡ first_taken i
unfolding first_bytes memset memcpy store32
first_bytes-first_taken zero h = refl
first_bytes-first_taken (suc zero) h = refl
first_bytes-first_taken (suc (suc zero)) h = refl
first_bytes-first_taken (suc (suc (suc zero))) h = refl
first_bytes-first_taken (suc (suc (suc (suc zero)))) h = refl
first_bytes-first_taken (suc (suc (suc (suc (suc zero))))) h = refl
first_bytes-first_taken (suc (suc (suc (suc (suc (suc zero)))))) h = refl
first_bytes-first_taken (suc (suc (suc (suc (suc (suc (suc zero))))))) h = refl
first_bytes-first_taken (suc (suc (suc (suc (suc (suc (suc (suc i)))))))) h = ground arith

-- The regions follow each other, and the free map of the data blocks has more than one block.
pub record IsGeometry (info : SbInfo) : Type 0 where
  pub magic : info.magic ≡ vsfs_magic
  pub ofs_ibitmap : info.ofs_ibitmap ≡ 1
  pub ofs_iregion : info.ofs_iregion ≡ 2
  pub ofs_dbitmap : info.ofs_dbitmap ≡ 2050
  pub ofs_dregion : info.ofs_dregion ≡ 2050 + info.nr_dbitmap_blocks
  pub nr_ibitmap_blocks : info.nr_ibitmap_blocks ≡ 1
  pub nr_iregion_blocks : info.nr_iregion_blocks ≡ 2048
  pub more : 1 < info.nr_dbitmap_blocks
  pub few : info.nr_dbitmap_blocks < 2 ^ 18

-- Every buffer is given.
pub record HasBuffers (b : Buffers) : Type 0 where
  pub superblock : b.superblock ≡ true
  pub inode_bitmap : b.inode_bitmap ≡ true
  pub root : b.root ≡ true
  pub inodes : b.inodes ≡ true
  pub data_bitmap : b.data_bitmap ≡ true
  pub more_bitmap : b.more_bitmap ≡ true
  pub directory : b.directory ≡ true

module _ (nvme : Nvme) (reliable : IsReliable nvme) where
  write_next-written :
      (buf : Memory) (num lba : ℕ) (ns : nvme.Ns)
      → lba < 2 ^ 52
      → 0 < num
      → num < 2 ^ 20
      → write_next nvme buf num (ns, lba) ≡ written (write_spdk nvme ns buf lba num).1 (lba + num)
  unfolding write_next
  write_next-written buf num lba ns low some_blocks few =
      let e : u64 (lba + num) ≡ lba + num = omega arith in
      rw (write_spdk-code nvme reliable ns buf lba num low some_blocks few, e) refl

  -- The device after each of the seven writes.
  unfoldable pub after : (info : SbInfo) → nvme.Ns → ℕ → nvme.Ns
  after info ns zero = ns
  after info ns (suc k) =
      let before = after info ns k in
      let more = info.nr_dbitmap_blocks - 1 in
      (if k == 0
        then write_spdk nvme before (sb_bytes info) 0 1
        else if k == 1
        then write_spdk nvme before first_bytes 1 1
        else if k == 2
        then write_spdk nvme before root_bytes 2 1
        else if k == 3
        then write_spdk nvme before (memset zeroed 0 0 (2047 * 4096)) 3 2047
        else if k == 4
        then write_spdk nvme before first_bytes 2050 1
        else if k == 5
        then write_spdk nvme before (memset zeroed 0 0xff (more * 4096)) 2051 more
        else write_spdk nvme before directory_bytes (2051 + more) 1).1

  pub write_regions-after :
      (b : Buffers) (info : SbInfo) (ns : nvme.Ns)
      → HasBuffers b
      → IsGeometry info
      → write_regions nvme b info ns ≡ written (after info ns 7) (2051 + info.nr_dbitmap_blocks)
  unfolding write_regions put_superblock write_inode_bitmap write_inode_region write_data_bitmap
      write_data_region tested untested after
  write_regions-after b info ns h g =
      let e : sub32 info.nr_iregion_blocks 1 ≡ 2047 = omega (arith, g.nr_iregion_blocks) in
      let f : sub32 info.nr_dbitmap_blocks 1 ≡ info.nr_dbitmap_blocks - 1 =
        omega (arith, g.few, g.more) in
      let k : u32 ((info.nr_dbitmap_blocks - 1) * 4096) ≡ (info.nr_dbitmap_blocks - 1) * 4096 =
        omega (arith, g.few) in
      let more = info.nr_dbitmap_blocks - 1 in
      simp
        (
          h.superblock, h.inode_bitmap, h.root, h.inodes, h.data_bitmap, h.more_bitmap, h.directory,
          e, f, k,
        )
        (rw
          (
            write_next-written (sb_bytes info) 1 0 ns (omega arith) (omega arith) (omega arith),
            write_next-written first_bytes 1 1 (after info ns 1) (omega arith) (omega arith)
                (omega arith),
            write_next-written root_bytes 1 2 (after info ns 2) (omega arith) (omega arith)
                (omega arith),
            write_next-written (memset zeroed 0 0 (2047 * 4096)) 2047 3 (after info ns 3)
                (omega arith) (omega arith) (omega arith),
            write_next-written first_bytes 1 2050 (after info ns 4) (omega arith) (omega arith)
                (omega arith),
            write_next-written (memset zeroed 0 0xff (more * 4096)) more 2051 (after info ns 5)
                (omega arith) (omega (arith, g.more)) (omega (arith, g.few)),
            write_next-written directory_bytes 1 (2051 + more) (after info ns 6)
                (omega (arith, g.few)) (omega arith) (omega arith),
            put_superblock,
            ◌>>=◌,
          )
          (ap (written (after info ns 7)) (omega (arith, g.more))))

  -- A byte that a write gives, and one that it leaves.
  module _ (ns : nvme.Ns) (buf : Memory) (lba num : ℕ) (low : lba < 2 ^ 52) (some_blocks : 0 < num)
      (few : num < 2 ^ 20) where
    pub here :
        (i : ℕ)
        → i < num * 4096
        → region nvme 0 (write_spdk nvme ns buf lba num).1 (lba * 4096 + i) ≡ buf i
    here i h =
        let e : lba * 4096 + i - lba * 4096 ≡ i = omega arith in
        region-write_spdk nvme reliable ns buf lba num low some_blocks few (lba * 4096 + i)
        ∙ memcpy-inside _ (lba * 4096) buf (num * 4096) (lba * 4096 + i) (omega arith) (omega arith)
        ∙ ap buf e

    pub past :
        (a : ℕ)
        → (a < lba * 4096) ⊎ (lba * 4096 + num * 4096 ≤ a)
        → region nvme 0 (write_spdk nvme ns buf lba num).1 a ≡ region nvme 0 ns a
    past a out =
        region-write_spdk nvme reliable ns buf lba num low some_blocks few a
        ∙ memcpy-outside _ (lba * 4096) buf (num * 4096) a out
