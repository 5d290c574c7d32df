-- ===== src/Mount/View.antt =====
-- A shared object as the operations see it: `struct vsfs_cached_data` of src/inc/vsfs_bitmap.h.
pub mod Words
pub mod Empty
use test_vsfs.Prelude.{ℕ, ◌+◌, ◌*◌, ◌/◌, ◌^◌, ltb, if◌then◌else◌}
use test_vsfs.Memory.{Memory, load32}
use test_vsfs.Layout.{Inode, Cached, sizeof_inode}
use test_vsfs.Mount.{load_sbi, sizeof_sb_info, Object}
use test_vsfs.Mount.Shared.{struct_inode_reg, struct_dbitmap}

abbrev pub load64 : Memory → ℕ → ℕ
load64 m a = load32 m a + 2 ^ 32 * load32 m (a + 4)

-- `struct vsfs_inode` at `a`, 256 bytes.
pub load_inode : Memory → (a : ℕ) → Inode
load_inode m a = record {
  mode = load32 m a;
  blocks = load32 m (a + 4);
  size = load32 m (a + 8);
  l1 = λ i. load32 m (a + 12 + i * 4);
  l2 = λ i. load32 m (a + 208 + i * 4);
  l3 = λ i. load32 m (a + 228 + i * 4);
  atime = load64 m (a + 232);
  ctime = load64 m (a + 240);
  mtime = load64 m (a + 248);
}

-- The free map of the blocks goes to the end of the object; behind it, words are 0.
pub cached_data : Object → Cached
unfolding load_inode
cached_data o = record {
  sbi = load_sbi o.bytes 0;
  ibitmap = λ i. load32 o.bytes (sizeof_sb_info + i * 4);
  inode_reg = λ i. load_inode o.bytes (struct_inode_reg + i * sizeof_inode);
  dbitmap = λ i.
      if ltb (struct_dbitmap + i * 4) o.size then load32 o.bytes (struct_dbitmap + i * 4) else 0;
}
