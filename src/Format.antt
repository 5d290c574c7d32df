-- ===== src/Format.antt =====
-- The image that src/shm/shm_mkfs.c writes, block after block.
pub mod Regions
use test_vsfs.Prelude.{
  ℕ, zero, suc, ◌+◌, ◌-◌, ◌*◌, ◌/◌, ◌%◌, ◌^◌, List, [], ◌∷◌, ◌++◌, ◌==◌, if◌then◌else◌, Option,
  none, some, ltb,
}
use test_vsfs.Word.{u32, sub32}
use test_vsfs.Memory.{Memory, store16, strcpy}
use test_vsfs.Layout.{
  SbInfo, Inode, Disk, Cached, vsfs_magic, block_size, sizeof_inode, nr_inodes, put,
}

-- ceil(a / b)
unfoldable pub idiv_ceil : ℕ → ℕ → ℕ
idiv_ceil a b = u32 (a / b + (if a % b == 0 then 0 else 1))

-- The superblock of a device of `st_size` bytes.
unfoldable pub write_superblock : (st_size : ℕ) → SbInfo
unfolding idiv_ceil
write_superblock st_size =
    let nr_blocks = u32 (st_size / block_size) in
    let nr_ibitmap_blocks : ℕ = 1 in
    let nr_iregion_blocks = nr_inodes / (block_size / sizeof_inode) in
    let remain = sub32 (sub32 (sub32 nr_blocks nr_ibitmap_blocks) nr_iregion_blocks) 1 in
    let mod_blocks = idiv_ceil remain (4096 * 2 ^ 3) in
    record {
      magic = vsfs_magic;
      nr_blocks = nr_blocks;
      ofs_ibitmap = 1;
      ofs_iregion = 2;
      ofs_dbitmap = u32 (2 + nr_iregion_blocks);
      ofs_dregion = u32 (2 + nr_iregion_blocks + mod_blocks);
      nr_ibitmap_blocks = nr_ibitmap_blocks;
      nr_iregion_blocks = nr_iregion_blocks;
      nr_dbitmap_blocks = mod_blocks;
      nr_dregion_blocks = sub32 remain mod_blocks;
      nr_free_inodes = nr_inodes - 1;
      nr_free_dblock = sub32 (sub32 remain mod_blocks) 1;
    }

-- One block of the image. Bitmaps are read by their 32-bit words, 1024 to a block.
pub data Block : Type 0 where
  superblock : SbInfo → Block
  inodes : (ℕ → Inode) → Block
  bitmap : (ℕ → ℕ) → Block
  directory : Memory → Block

abbrev pub zero_inode : Inode
zero_inode = record {
  mode = 0;
  blocks = 0;
  size = 0;
  l1 = λ _. 0;
  l2 = λ _. 0;
  l3 = λ _. 0;
  atime = 0;
  ctime = 0;
  mtime = 0;
}

-- The root: drwx, one block, the entries `.` and `..`.
abbrev pub root_inode : Inode
root_inode = record zero_inode { mode = 0x0f; blocks = 1; size = 2 }

pub repeat : ℕ → Block → List Block
repeat zero b = []
repeat (suc n) b = b ∷ repeat n b

-- The root's block, then 2047 blocks of zeros.
pub write_inode_region : List Block
write_inode_region =
    inodes (put (λ _. zero_inode) 0 root_inode) ∷ repeat 2047 (inodes (λ _. zero_inode))

abbrev pub all_ones : ℕ
all_ones = 0xffffffff

-- All bits are set but the first: the 64-bit word 0xfffffffffffffffe, little-endian.
abbrev pub first_words : ℕ → ℕ
first_words c = if c == 0 then 0xfffffffe else all_ones

pub write_inode_bitmap : List Block
write_inode_bitmap = bitmap first_words ∷ []

pub write_data_bitmap : SbInfo → List Block
write_data_bitmap info =
    bitmap first_words ∷ repeat (info.nr_dbitmap_blocks - 1) (bitmap (λ _. all_ones))

-- The entries `.` and `..` of inode 0, over what `malloc` left in the block.
pub write_data_region : (left_over : Memory) → List Block
write_data_region left_over =
    directory
      (strcpy (store16 (strcpy (store16 left_over 0 0) 2 (b'.' ∷ [])) 256 0) 258 (b'.' ∷ b'.' ∷ []))
    ∷ []

-- `main`, where every `write` succeeds.
pub mkfs : (st_size : ℕ) → (left_over : Memory) → List Block
unfolding write_superblock write_inode_region write_inode_bitmap write_data_bitmap write_data_region
mkfs st_size left_over =
    let info = write_superblock st_size in
    superblock info
    ∷ (write_inode_bitmap
        ++ (write_inode_region ++ (write_data_bitmap info ++ write_data_region left_over)))
