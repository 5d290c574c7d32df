-- ===== src/Device.antt =====
-- The variant of the file system on a device, src/inc/vsfsio_spdk.h. The inodes are in the shared
-- copy, the data blocks are moved by `read_spdk` and `write_spdk`, and an open file has its block
-- numbers in an array.
pub mod Region
pub mod State
pub mod Files
pub mod Directory
pub mod Session
pub mod Stat
pub mod Info
pub mod Write
pub mod Read
pub mod RoundTrip
pub mod Alloc
use test_vsfs.Prelude.{ℕ, ◌+◌, ◌*◌, ◌/◌, ◌%◌, Bool, List, Option}
use test_vsfs.Word.{u32}
use test_vsfs.Memory.{Memory}
use test_vsfs.Layout.{Cached}
use test_vsfs.Spdk.{Nvme, read_spdk, write_spdk}

-- `file_t`, without `l2_block` and `l3_block`, which nothing reads.
pub record File : Type 0 where
  pub size : ℕ
  pub mode : ℕ
  pub blocks : ℕ
  pub block : ℕ → ℕ
  pub inode : ℕ
  pub atime : ℕ
  pub ctime : ℕ
  pub mtime : ℕ

module _ (nvme : Nvme) (ofs_dregion : ℕ) where
  -- A block of the data region, by itself.
  unfoldable pub read_block : nvme.Ns → (buf : Memory) → (block : ℕ) → Memory
  unfolding read_spdk
  read_block ns buf block = (read_spdk nvme ns buf (ofs_dregion + block) 1).1

  unfoldable pub write_block : nvme.Ns → (buf : Memory) → (block : ℕ) → nvme.Ns
  unfolding write_spdk
  write_block ns buf block = (write_spdk nvme ns buf (ofs_dregion + block) 1).1

  -- The data region as bytes: what reading its sectors gives.
  unfoldable pub region : nvme.Ns → Memory
  region ns a = (nvme.cmd_read ns (ofs_dregion * 8 + a / 512) 1).1 (a % 512)
