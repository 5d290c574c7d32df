-- ===== src/FileIo/Read/Opened.antt =====
-- `vsfs_read` through a descriptor that is open.
use test_vsfs.Prelude.{ℕ, ◌≡◌, ◌≢◌, refl, ne→==}
use test_vsfs.Memory.{Memory}
use test_vsfs.Layout.{put}
use test_vsfs.State.{FdEntry, Vsfs, done}
use test_vsfs.Session.{o_wronly}
use test_vsfs.FileIo.Target.{IsOpen, file_of}
use test_vsfs.FileIo.Read.{Readed, read_dblock, read_file, vsfs_read}

-- The state after `got` was read through entry `p`.
abbrev pub after_read : (now p : ℕ) → Readed → Vsfs → Vsfs
after_read now p got s =
    let op = s.op_ftable p in
    let disk = s.disk in
    let inode = disk.inode_reg op.inode_nr in
    record s {
      disk = record disk {
        inode_reg = put disk.inode_reg op.inode_nr (record inode { atime = now });
      };
      op_ftable = put s.op_ftable p (record op { offset = got.offset });
    }

-- Through a descriptor that is open and not write-only `vsfs_read` is `__read_dblock`: beyond the
-- buffer it changes the access time of the file and the offset of the descriptor.
pub vsfs_read-open :
    (now fd nbyte : ℕ) (buf : Memory) (e : FdEntry) (s : Vsfs)
    → IsOpen fd e s
    → e.flags ≢ o_wronly
    → let inode = file_of e s in
      let got =
        read_dblock
          (record inode { atime = now })
          s.disk.data_reg
          (s.op_ftable e.ptr).offset
          nbyte
          buf in
      vsfs_read now fd nbyte buf s ≡ done (after_read now e.ptr got s, got.result, got.buf)
unfolding vsfs_read read_file
vsfs_read-open now fd nbyte buf e s is readable =
    rw (is.found, vsfs_read) (simp (is.sb, is.optab, ne→== _ _ readable) refl)
