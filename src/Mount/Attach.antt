-- ===== src/Mount/Attach.antt =====
-- `mount_vsfs` and `unmount_vsfs` of src/ufs/vsfs_init.c: the shared copy of the superblock, the
-- free maps and the inodes.
pub mod Filled
pub mod Laws
pub mod Kept
use test_vsfs.Prelude.{
  ℕ, ◌+◌, ◌*◌, ◌/◌, ◌-◌, ◌^◌, Bool, true, Option, none, some, ltb, ◌==◌, if◌then◌else◌, not, ◌&&◌,
}
use test_vsfs.Word.{ℤ, pos, negsuc, minus_one, u32, u64, sub32}
use test_vsfs.Memory.{Memory, memcpy, load32}
use test_vsfs.Layout.{SbInfo, block_size, vsfs_magic}
use test_vsfs.State.{OpEntry, Run, done, fault}
use test_vsfs.Spdk.{Nvme, read_spdk, write_spdk}
use test_vsfs.Mount.{load_sbi, sizeof_sb_info, Object, resize}
use test_vsfs.Mount.Init.{zeroed}

-- What the system answers: the buffers, the name, `shm_open`, `ftruncate` and `mmap` of the copy,
-- and the same for the open file table.
pub record Answers : Type 0 where
  pub block : Bool
  pub buffers : Bool
  pub name : Bool
  pub opens : Bool
  pub sizes : Bool
  pub maps : Bool
  pub optab_opens : Bool
  pub optab_sizes : Bool
  pub optab_alloc : Bool
  pub count_written : Bool
  pub entries_written : Bool

-- The sizes of the regions, and where the shared object has them.
abbrev pub ibitmap_size : SbInfo → ℕ
ibitmap_size info = u32 (info.nr_ibitmap_blocks * block_size)

abbrev pub iregion_size : SbInfo → ℕ
iregion_size info = u32 (info.nr_iregion_blocks * block_size)

abbrev pub dbitmap_size : SbInfo → ℕ
dbitmap_size info = u32 (info.nr_dbitmap_blocks * block_size)

abbrev pub cached_ibitmap : ℕ
cached_ibitmap = sizeof_sb_info

abbrev pub cached_iregion : SbInfo → ℕ
cached_iregion info = sizeof_sb_info + ibitmap_size info

abbrev pub cached_dbitmap : SbInfo → ℕ
cached_dbitmap info = sizeof_sb_info + ibitmap_size info + iregion_size info

abbrev pub total_size : SbInfo → ℕ
total_size info =
    u32
      (u32 (info.nr_ibitmap_blocks + info.nr_dbitmap_blocks + info.nr_iregion_blocks) * block_size)

-- The open file table that `creat_open_file_table` writes.
pub record OpTable : Type 0 where
  pub op_counter : ℕ
  pub op_ftable : ℕ → OpEntry

pub creat_open_file_table : Answers → Run (Option OpTable)
creat_open_file_table env =
    if not (env.optab_opens && env.optab_sizes)
    then done none
    else if not env.optab_alloc
    then fault
    else if env.count_written && env.entries_written
    then done (
        some (record {
          op_counter = 0;
          op_ftable = λ _. record { offset = 0; inode_nr = 0; ptr_counter = 0; lock = 0 };
        }))
    else done none

-- The copies of `make_shm_cached` into the mapping, in their order.
pub fill_cached : SbInfo → (sb ibitmap inode_reg dbitmap : Memory) → Memory → Memory
fill_cached info sb ibitmap inode_reg dbitmap m =
    memcpy
      (memcpy (memcpy (memcpy m 0 sb sizeof_sb_info) cached_ibitmap ibitmap (ibitmap_size info))
        (cached_iregion info) inode_reg (iregion_size info))
      (cached_dbitmap info) dbitmap (dbitmap_size info)

-- From `shm_open` on: the object then, and the result.
pub open_cached : Answers → SbInfo → (sb ibitmap inode_reg dbitmap : Memory) → Object → Object × ℤ
unfolding fill_cached
open_cached env info sb ibitmap inode_reg dbitmap o =
    if not (env.name && env.opens && env.sizes)
    then (o, pos 1)
    else (let sized = resize o (sizeof_sb_info + total_size info) in
        if env.maps
        then (
          record sized { bytes = fill_cached info sb ibitmap inode_reg dbitmap sized.bytes },
          pos 0,
        )
        else (sized, pos 1))

module _ (nvme : Nvme) where
  -- `ptr` is the superblock. Each read that fails ends it.
  pub make_shm_cached : Answers → (ptr : Memory) → nvme.Ns → Object → Object × ℤ
  unfolding open_cached
  make_shm_cached env ptr ns o =
      let info = load_sbi ptr 0 in
      let (rc0, ibitmap) = read_spdk nvme ns zeroed info.ofs_ibitmap info.nr_ibitmap_blocks in
      let (rc1, dbitmap) = read_spdk nvme ns zeroed info.ofs_dbitmap info.nr_dbitmap_blocks in
      let (rc2, inode_reg) = read_spdk nvme ns zeroed info.ofs_iregion info.nr_iregion_blocks in
      if not env.buffers
      then (o, minus_one)
      else if (rc0 == 0) && (rc1 == 0) && (rc2 == 0)
      then open_cached env info ptr ibitmap inode_reg dbitmap o
      else (o, pos 1)

  -- `mount_vsfs`. The first block is read with no test of the buffer or of the result.
  pub mount_vsfs : Answers → nvme.Ns → Object → Run (Object × Option OpTable × ℤ)
  unfolding make_shm_cached creat_open_file_table
  mount_vsfs env ns o =
      let ptr = (read_spdk nvme ns zeroed 0 1).1 in
      let (o', ret) = make_shm_cached env ptr ns o in
      if not env.block
      then fault
      else if not (load32 ptr 0 == vsfs_magic)
      then done (o, none, pos 1)
      else elim ret [
        | pos n ↦
            if n == 0
            then elim (creat_open_file_table env) [
              | fault ↦ fault
              | done optab ↦ done (o', optab, pos 0)
            ]
            else done (o', none, pos n)
        | negsuc n ↦ done (o', none, negsuc n)
      ]

  -- `write_sb_cached_to_SSD`: the free maps and the inodes, and not the superblock. The object is as
  -- long as its superblock says.
  pub write_sb_cached_to_ssd : Answers → Object → nvme.Ns → Run (nvme.Ns × ℤ)
  write_sb_cached_to_ssd env o ns =
      let info = load_sbi o.bytes 0 in
      let ibitmap = memcpy zeroed 0 (λ i. o.bytes (cached_ibitmap + i)) (ibitmap_size info) in
      let inode_reg =
        memcpy zeroed 0 (λ i. o.bytes (cached_iregion info + i)) (iregion_size info) in
      let dbitmap = memcpy zeroed 0 (λ i. o.bytes (cached_dbitmap info + i)) (dbitmap_size info) in
      let (rc0, ns0) = write_spdk nvme ns ibitmap info.ofs_ibitmap info.nr_ibitmap_blocks in
      let (rc1, ns1) = write_spdk nvme ns0 dbitmap info.ofs_dbitmap info.nr_dbitmap_blocks in
      let (rc2, ns2) = write_spdk nvme ns1 inode_reg info.ofs_iregion info.nr_iregion_blocks in
      if not env.name
      then done (ns, pos 1)
      else if not (env.opens && env.maps)
      then fault
      else if not env.buffers
      then done (ns, pos 0)
      else if not (rc0 == 0)
      then done (ns0, pos 1)
      else if not (rc1 == 0)
      then done (ns1, pos 1)
      else if not (rc2 == 0)
      then done (ns2, pos 1)
      else done (ns2, pos 0)

  -- `unmount_vsfs`
  pub unmount_vsfs : Answers → Object → nvme.Ns → Run (nvme.Ns × ℤ)
  unfolding write_sb_cached_to_ssd
  unmount_vsfs env o ns = write_sb_cached_to_ssd env o ns
