-- ===== src/Mount/Shared.antt =====
-- src/shm/shm_mount.c: the shared copy of the superblock and the free maps of an image in shared
-- memory. `Answers` is what the system answers; `block` is `fstat` of the image.
pub mod Short
use test_vsfs.Prelude.{
  ℕ, ◌+◌, ◌*◌, ◌/◌, ◌%◌, ◌^◌, Option, none, some, Bool, true, false, ◌&&◌, not, ◌==◌, if◌then◌else◌,
}
use test_vsfs.Word.{ℤ, pos, negsuc, u32}
use test_vsfs.Memory.{Memory, memcpy, load32}
use test_vsfs.Layout.{SbInfo, block_size, nr_inodes, sizeof_inode, vsfs_magic}
use test_vsfs.State.{Run, done, fault}
use test_vsfs.Mount.{load_sbi, sizeof_sb_info, Object, resize}
use test_vsfs.Mount.Attach.{Answers, ibitmap_size, dbitmap_size, OpTable, creat_open_file_table}

-- Where `struct vsfs_cached_data` of src/inc/vsfs_bitmap.h has its last two members.
abbrev pub struct_inode_reg : ℕ
struct_inode_reg = sizeof_sb_info + nr_inodes / 32 * 4

abbrev pub struct_dbitmap : ℕ
struct_dbitmap = struct_inode_reg + nr_inodes * sizeof_inode

-- The copies into the mapping, in their order. `ptr` is the image.
pub fill_cached : SbInfo → (ptr : Memory) → Memory → Memory
fill_cached info ptr m =
    memcpy
      (memcpy (memcpy m 0 ptr sizeof_sb_info) sizeof_sb_info
        (λ i. ptr (u32 (info.ofs_ibitmap * block_size) + i)) (ibitmap_size info))
      (sizeof_sb_info + ibitmap_size info) (λ i. ptr (u32 (info.ofs_dbitmap * block_size) + i))
      (dbitmap_size info)

abbrev pub bitmap_total_size : SbInfo → ℕ
bitmap_total_size info = u32 (u32 (info.nr_ibitmap_blocks + info.nr_dbitmap_blocks) * block_size)

-- The object then, and whether it was filled.
pub make_shm_cached : Answers → (ptr : Memory) → Object → Object × Bool
unfolding fill_cached
make_shm_cached env ptr o =
    let info = load_sbi ptr 0 in
    let sized = resize o (sizeof_sb_info + bitmap_total_size info) in
    if not (env.name && env.opens && env.sizes)
    then (o, false)
    else if env.maps
    then (record sized { bytes = fill_cached info ptr sized.bytes }, true)
    else (sized, false)

-- `main`. Where the copy fails the result is that of `fstat`, which is 0.
pub mount : Answers → (ptr : Memory) → Object → Run (Object × Option OpTable × ℤ)
unfolding make_shm_cached
mount env ptr o =
    let (o', made) = make_shm_cached env ptr o in
    if not env.block
    then done (o, none, pos 1)
    else if not (load32 ptr 0 == vsfs_magic)
    then done (o, none, pos 1)
    else if not made
    then done (o', none, pos 0)
    else elim (creat_open_file_table env) [ fault ↦ fault | done optab ↦ done (o', optab, pos 0) ]
