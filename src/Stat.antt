-- ===== src/Stat.antt =====
-- `vsfs_stat` of src/inc/vsfsio.h.
use test_vsfs.Prelude.{ℕ, List, Option, none, some, ◌==◌, if◌then◌else◌, ◌&&◌, not}
use test_vsfs.Layout.{Inode}
use test_vsfs.Bitmap.{bit}
use test_vsfs.Directory.{find_entry}
use test_vsfs.State.{Vsfs, Env}

-- `mode[0]` to `mode[3]` are the first four fields. The times are kept as
-- numbers: their text is what `ctime` of the C library makes of them.
pub record FileStat : Type 0 where
  pub is_dir : ℕ
  pub readable : ℕ
  pub writable : ℕ
  pub executable : ℕ
  pub blocks : ℕ
  pub size : ℕ
  pub atime : ℕ
  pub ctime : ℕ
  pub mtime : ℕ

abbrev pub mode_char : (mode n letter : ℕ) → ℕ
mode_char mode n letter = if bit mode n == 1 then letter else b'-'

pub stat_inode : Inode → FileStat
unfolding bit
stat_inode inode = record {
  is_dir = mode_char inode.mode 3 b'd';
  readable = mode_char inode.mode 2 b'r';
  writable = mode_char inode.mode 1 b'w';
  executable = mode_char inode.mode 0 b'x';
  blocks = inode.blocks;
  size = if (inode.size == 0) && (inode.blocks == 1048576) then 0x100000000 else inode.size;
  atime = inode.atime;
  ctime = inode.ctime;
  mtime = inode.mtime;
}

-- `none` is the result -1.
pub vsfs_stat : Env → (pathname : List ℕ) → Vsfs → Option FileStat
unfolding stat_inode
vsfs_stat env pathname s =
    let root = s.disk.inode_reg 0 in
    if not env.sb_opens then none else elim (find_entry root s.disk.data_reg pathname root.size 0) [
      | none ↦ none
      | some target_inode ↦ some (stat_inode (s.disk.inode_reg target_inode))
    ]
