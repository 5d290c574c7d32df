-- ===== src/State.antt =====
-- What the operations of src/inc/vsfsio.h work on: the mappings that the processes share, and the
-- descriptors of one process.
use test_vsfs.Prelude.{ℕ, Bool, List}
use test_vsfs.Word.{ℤ}
use test_vsfs.Layout.{Disk, Cached}

-- `op_ftable_t`. Its `file_ptr` is set by the device variant alone.
pub record OpEntry : Type 0 where
  pub offset : ℕ
  pub inode_nr : ℕ
  pub ptr_counter : ℕ
  pub lock : ℕ

-- `fd_table_t`: `ptr` is a place of the open file table, `path` the inodes from `p_head` on.
pub record FdEntry : Type 0 where
  pub index : ℕ
  pub ptr : ℕ
  pub path : List ℕ
  pub flags : ℕ

-- Where `fd_table->tail` points: to the last entry of the list, to an entry that was freed, or to
-- one that was taken off the list and not freed.
pub data Tail : Type 0 where
  at_end : Tail
  dangling : Tail
  orphan : FdEntry → Tail

-- The pointer `fd_table`: null, left over from `free(fd_table)`, or a list and its tail.
pub data FdTable : Type 0 where
  null : FdTable
  freed : FdTable
  table : List FdEntry → Tail → FdTable

-- A pointer is null or maps its object: `sb_mapped` is `sb != NULL`, and so on.
pub record Vsfs : Type 0 where
  pub disk : Disk
  pub cached : Cached
  pub op_counter : ℕ
  pub op_ftable : ℕ → OpEntry
  pub fd_table : FdTable
  pub sb_mapped : Bool
  pub cached_mapped : Bool
  pub optab_mapped : Bool

-- `fault` is a use of a null or freed pointer.
pub data Run {ℓ} (A : Type ℓ) : Type ℓ where
  done : A → Run A
  fault : Run A

infixl 5 ◌>>=◌
abbrev pub ◌>>=◌ {ℓ κ} : {A : Type ℓ} {B : Type κ} → Run A → (A → Run B) → Run B
done a >>= f = f a
fault >>= f = fault

-- The new state and the result of an operation.
abbrev pub Outcome : Type 0
Outcome = Run (Vsfs × ℤ)

-- What the environment answers: whether the shared objects open, whether each `malloc` succeeds,
-- what a fresh entry has for flags, and the time.
pub record Env : Type 0 where
  pub sb_opens : Bool
  pub cached_opens : Bool
  pub optab_opens : Bool
  pub table_alloc : Bool
  pub entry_alloc : Bool
  pub path_alloc : Bool
  pub step_alloc : Bool
  pub stale_flags : ℕ
  pub now : ℕ
