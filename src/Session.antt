-- ===== src/Session.antt =====
-- The descriptors of a process and the open file table of src/inc/vsfsio.h. `vsfs_open` and
-- `vsfs_close` are in the modules below.
pub mod Open
pub mod Close
pub mod Undo
pub mod Stale
use test_vsfs.Prelude.{ℕ, Option, none, some, List, [], ◌∷◌, ◌==◌, if◌then◌else◌}
use test_vsfs.State.{FdEntry, FdTable, null, freed, table, Run, done, fault}

-- `OP_LIMIT`: 2 * 4096 / sizeof(op_ftable_t)
abbrev pub op_limit : ℕ
op_limit = 341

abbrev pub o_rdonly : ℕ
o_rdonly = 0

abbrev pub o_wronly : ℕ
o_wronly = 1

abbrev pub o_rdwr : ℕ
o_rdwr = 2

-- `_find_target_in_fdtable`: the last entry with the index.
unfoldable pub find_fd : (fildes : ℕ) → List FdEntry → Option FdEntry
find_fd fildes [] = none
find_fd fildes (e ∷ es) = elim (find_fd fildes es) [
  | some f ↦ some f
  | none ↦ if e.index == fildes then some e else none
]

unfoldable pub find_target : (fildes : ℕ) → FdTable → Run (Option FdEntry)
unfolding find_fd
find_target fildes null = done none
find_target fildes freed = fault
find_target fildes (table es tail) = done (find_fd fildes es)
