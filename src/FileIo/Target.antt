-- ===== src/FileIo/Target.antt =====
-- A descriptor that is open, and its file: what `vsfs_write`, `vsfs_read` and `vsfs_lseek` find.
use test_vsfs.Prelude.{ℕ, some, true, ◌≡◌}
use test_vsfs.Layout.{Inode}
use test_vsfs.State.{FdEntry, Vsfs, done}
use test_vsfs.Session.{find_target}

-- The mappings are there and the descriptor names this entry of the open file table.
pub record IsOpen (fd : ℕ) (e : FdEntry) (s : Vsfs) : Type 0 where
  pub optab : s.optab_mapped ≡ true
  pub sb : s.sb_mapped ≡ true
  pub found : find_target fd s.fd_table ≡ done (some e)

-- The file of a descriptor.
abbrev pub file_of : FdEntry → Vsfs → Inode
file_of e s = s.disk.inode_reg (s.op_ftable e.ptr).inode_nr
