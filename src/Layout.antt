-- ===== src/Layout.antt =====
-- The constants and the structs of src/inc/vsfs.h, and the cached copy of src/inc/vsfs_bitmap.h.
use test_vsfs.Prelude.{ℕ, ◌+◌, ◌*◌, ◌/◌, ◌^◌, ◌==◌, if◌then◌else◌}
use test_vsfs.Memory.{Memory}

abbrev pub vsfs_magic : ℕ
vsfs_magic = 0xf0000000

abbrev pub block_size : ℕ
block_size = 4096

-- `sizeof(struct vsfs_inode)` and `sizeof(struct vsfs_file_entry)` are both 256.
abbrev pub sizeof_inode : ℕ
sizeof_inode = 256

abbrev pub sizeof_file_entry : ℕ
sizeof_file_entry = 256

abbrev pub nr_inodes : ℕ
nr_inodes = 2 ^ 11 * (block_size / sizeof_inode)

abbrev pub filename_len : ℕ
filename_len = 254

abbrev pub pointer_per_block : ℕ
pointer_per_block = block_size / 4

abbrev pub level1_limit : ℕ
level1_limit = 49

-- `VSFS_LEVEL1_PTR + VSFS_LEVEL2_PTR`, for the uses where the macro stands alone
abbrev pub level2_limit : ℕ
level2_limit = 49 + 5 * pointer_per_block

-- `VSFS_LEVEL3_LIMIT * VSFS_BLOCK_SIZE` as the preprocessor expands it: the macro has no
-- parentheses, so only its last product is multiplied by the block size.
abbrev pub write_limit : ℕ
write_limit = 49 + 5 * pointer_per_block + pointer_per_block * pointer_per_block * block_size

pub record SbInfo : Type 0 where
  pub magic : ℕ
  pub nr_blocks : ℕ
  pub ofs_ibitmap : ℕ
  pub ofs_iregion : ℕ
  pub ofs_dbitmap : ℕ
  pub ofs_dregion : ℕ
  pub nr_ibitmap_blocks : ℕ
  pub nr_iregion_blocks : ℕ
  pub nr_dbitmap_blocks : ℕ
  pub nr_dregion_blocks : ℕ
  pub nr_free_inodes : ℕ
  pub nr_free_dblock : ℕ

-- `size` and `entry` share their place in a union: `size` stands for both.
pub record Inode : Type 0 where
  pub mode : ℕ
  pub blocks : ℕ
  pub size : ℕ
  pub l1 : ℕ → ℕ
  pub l2 : ℕ → ℕ
  pub l3 : ℕ → ℕ
  pub atime : ℕ
  pub ctime : ℕ
  pub mtime : ℕ

-- The mapping of the disk: `data_reg` starts at address 0 of the memory.
pub record Disk : Type 0 where
  pub inode_reg : ℕ → Inode
  pub data_reg : Memory

-- The copy that is shared by the processes. The bitmaps are arrays of 32-bit words.
pub record Cached : Type 0 where
  pub sbi : SbInfo
  pub ibitmap : ℕ → ℕ
  pub inode_reg : ℕ → Inode
  pub dbitmap : ℕ → ℕ

-- The address of block `b` of the data region, and of the `i`th pointer in it.
abbrev pub block_addr : ℕ → ℕ
block_addr b = b * block_size

abbrev pub pointer_addr : ℕ → ℕ → ℕ
pointer_addr b i = b * block_size + i * 4

-- Array update.
module _ {ℓ} {A : Type ℓ} where
  abbrev pub put : (ℕ → A) → ℕ → A → ℕ → A
  put f i v j = if j == i then v else f j
