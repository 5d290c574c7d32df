-- ===== src/Machine.antt =====
-- The processes that share one mounted file system: the calls of src/inc/vsfsio.h that return, one
-- at a time and in any order.
pub mod Safe
pub mod Files
pub mod Sessions
pub mod Closing
pub mod Reached
use test_vsfs.Prelude.{ℕ, ◌≡◌, Bool, List}
use test_vsfs.Word.{ℤ}
use test_vsfs.Memory.{Memory}
use test_vsfs.Layout.{Disk, Cached, put}
use test_vsfs.State.{OpEntry, FdTable, Vsfs, done, Env}
use test_vsfs.Directory.{vsfs_creat}
use test_vsfs.Session.Open.{vsfs_open}
use test_vsfs.Session.Close.{vsfs_close}
use test_vsfs.FileIo.Write.{vsfs_write}
use test_vsfs.FileIo.Read.{vsfs_read}
use test_vsfs.FileIo.Seek.{vsfs_lseek}

-- The static variables of a process.
pub record Process : Type 0 where
  pub fd_table : FdTable
  pub sb_mapped : Bool
  pub cached_mapped : Bool
  pub optab_mapped : Bool

-- The shared objects, and the processes by their number.
pub record System : Type 0 where
  pub disk : Disk
  pub cached : Cached
  pub op_counter : ℕ
  pub op_ftable : ℕ → OpEntry
  pub process : ℕ → Process

-- What process `p` works on, and what its work leaves.
abbrev pub enter : System → (p : ℕ) → Vsfs
enter sys p =
    let own = sys.process p in
    record {
      disk = sys.disk;
      cached = sys.cached;
      op_counter = sys.op_counter;
      op_ftable = sys.op_ftable;
      fd_table = own.fd_table;
      sb_mapped = own.sb_mapped;
      cached_mapped = own.cached_mapped;
      optab_mapped = own.optab_mapped;
    }

abbrev pub leave : System → (p : ℕ) → Vsfs → System
leave sys p s = record {
  disk = s.disk;
  cached = s.cached;
  op_counter = s.op_counter;
  op_ftable = s.op_ftable;
  process = put sys.process p (record {
    fd_table = s.fd_table;
    sb_mapped = s.sb_mapped;
    cached_mapped = s.cached_mapped;
    optab_mapped = s.optab_mapped;
  });
}

-- A call that returns, with its result.
pub data Call (s s' : Vsfs) : Type 0 where
  creates :
      (env : Env) (name : List ℕ) (n : ℕ) (r : ℤ) → vsfs_creat env name n s ≡ (s', r) → Call s s'
  opens :
      (env : Env) (path : List ℕ) (flags : ℕ) (r : ℤ)
      → vsfs_open env path flags s ≡ done (s', r)
      → Call s s'
  closes : (fd : ℕ) (r : ℤ) → vsfs_close fd s ≡ done (s', r) → Call s s'
  writes :
      (now fd : ℕ) (buf : ℕ → ℕ) (n : ℕ) (r : ℤ)
      → vsfs_write now fd buf n s ≡ done (s', r)
      → Call s s'
  reads :
      (now fd n : ℕ) (buf out : Memory) (r : ℤ)
      → vsfs_read now fd n buf s ≡ done (s', r, out)
      → Call s s'
  seeks : (fd offset whence r : ℕ) → vsfs_lseek fd offset whence s ≡ done (s', r) → Call s s'

-- The systems that calls lead to.
pub data Reach (start : System) : System → Type 0 where
  here : Reach start start
  next :
      {sys : System}
      → Reach start sys
      → (p : ℕ) (s : Vsfs) → Call (enter sys p) s
      → Reach start (leave sys p s)
