-- ===== src/Mount.antt =====
-- Formatting and mounting a device, src/ufs/vsfs_init.c, and mounting shared memory,
-- src/shm/shm_mount.c: the bytes of the structs on the device and in the shared object.
pub mod Blocks
pub mod Init
pub mod Attach
pub mod Fresh
pub mod Shared
pub mod View
use test_vsfs.Prelude.{ℕ, ◌+◌, ◌*◌, ◌/◌, ◌%◌, ◌^◌, ltb, ◌==◌, Bool, if◌then◌else◌}
use test_vsfs.Word.{u32}
use test_vsfs.Memory.{Memory, byte_of, load32}
use test_vsfs.Layout.{SbInfo, block_size}

-- The members of `struct vsfs_sb_info` in their order, each of 4 bytes.
unfoldable pub sb_word : SbInfo → ℕ → ℕ
sb_word info k =
    if k == 0
    then info.magic
    else if k == 1
    then info.nr_blocks
    else if k == 2
    then info.ofs_ibitmap
    else if k == 3
    then info.ofs_iregion
    else if k == 4
    then info.ofs_dbitmap
    else if k == 5
    then info.ofs_dregion
    else if k == 6
    then info.nr_ibitmap_blocks
    else if k == 7
    then info.nr_iregion_blocks
    else if k == 8
    then info.nr_dbitmap_blocks
    else if k == 9
    then info.nr_dregion_blocks
    else if k == 10
    then info.nr_free_inodes
    else info.nr_free_dblock

abbrev pub sizeof_sb_info : ℕ
sizeof_sb_info = 48

-- `struct superblock`, little-endian, with zeros for its padding.
unfoldable pub sb_bytes : SbInfo → Memory
sb_bytes info a = if ltb a sizeof_sb_info then byte_of (sb_word info (a / 4)) (a % 4) else 0

-- What the struct at `a` says.
unfoldable pub load_sbi : Memory → (a : ℕ) → SbInfo
load_sbi m a = record {
  magic = load32 m a;
  nr_blocks = load32 m (a + 4);
  ofs_ibitmap = load32 m (a + 8);
  ofs_iregion = load32 m (a + 12);
  ofs_dbitmap = load32 m (a + 16);
  ofs_dregion = load32 m (a + 20);
  nr_ibitmap_blocks = load32 m (a + 24);
  nr_iregion_blocks = load32 m (a + 28);
  nr_dbitmap_blocks = load32 m (a + 32);
  nr_dregion_blocks = load32 m (a + 36);
  nr_free_inodes = load32 m (a + 40);
  nr_free_dblock = load32 m (a + 44);
}

-- A shared object: its size, and what `mmap` of it shows.
pub record Object : Type 0 where
  pub size : ℕ
  pub bytes : Memory

-- `shm_open` with `O_CREAT` and then `ftruncate`: bytes past the old end are zero.
abbrev pub resize : Object → (size : ℕ) → Object
resize o size = record { size = size; bytes = λ a. if ltb a o.size then o.bytes a else 0 }
