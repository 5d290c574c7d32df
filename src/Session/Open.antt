-- ===== src/Session/Open.antt =====
-- `vsfs_open` of src/inc/vsfsio.h, with its cleanup.
pub mod Laws
use test_vsfs.Prelude.{
  ℕ, zero, suc, ◌+◌, ◌-◌, Bool, true, false, Option, none, some, List, [], ◌∷◌, ◌++◌, ltb, leb,
  ◌==◌, if◌then◌else◌, ◌||◌, length, not,
}
use test_vsfs.Word.{ℤ, pos, minus_one, u16}
use test_vsfs.Layout.{Inode, Disk, filename_len, put}
use test_vsfs.Directory.{find_entry}
use test_vsfs.State.{
  OpEntry, FdEntry, Tail, at_end, dangling, orphan, FdTable, null, freed, table, Vsfs, Run, done,
  fault, ◌>>=◌, Outcome, Env,
}
use test_vsfs.Session.{op_limit, o_rdonly, o_wronly, o_rdwr}

-- The labels `free_sb_ca` and `sb_exit`: both mappings are closed.
unfoldable pub close_maps : Vsfs → Vsfs
close_maps s = record s { sb_mapped = false; optab_mapped = false }

-- The labels `free_fd_path` and `free_fd`: every entry and the table are freed, and `fd_table`
-- keeps its value.
unfoldable pub discard_table : Vsfs → Vsfs
unfolding close_maps
discard_table s = record (close_maps s) { fd_table = freed }

-- The last entry of a list that is not empty.
unfoldable pub last_entry : FdEntry → List FdEntry → FdEntry
last_entry e [] = e
last_entry e (f ∷ es) = last_entry f es

-- A new entry: behind the tail, or as the only one. With it comes `ret`, an `int`, of which its
-- index has the low 16 bits.
pub data Added : Type 0 where
  -- `malloc` failed, and `ret` is returned after the table was discarded
  given_up : ℤ → Added
  added : FdEntry → (ret : ℕ) → Added

abbrev pub fresh_entry : Env → (index : ℕ) → FdEntry
fresh_entry env index = record {
  index = u16 index;
  ptr = 0;
  path = 0 ∷ [];
  flags = env.stale_flags;
}

-- The entry behind the tail. A failing `malloc` of its path leaves its `next` unset, and the
-- cleanup then runs past it, where it is on the list.
unfoldable pub add_behind : Env → (listed : Bool) → (last : FdEntry) → Run Added
add_behind env listed last =
    if env.entry_alloc
    then if env.path_alloc
      then done (added (fresh_entry env (last.index + 1)) (last.index + 1))
      else if listed
      then fault
      else done (given_up (pos (last.index + 1)))
    else done (given_up minus_one)

unfoldable pub add_fd : Env → List FdEntry → Tail → Run Added
unfolding add_behind last_entry
add_fd env [] tail =
    if env.entry_alloc
    then if env.path_alloc then done (added (fresh_entry env 1) 1) else done (given_up (pos 1))
    else done (given_up minus_one)
add_fd env (e ∷ es) at_end = add_behind env true (last_entry e es)
add_fd env (e ∷ es) dangling = fault
add_fd env (e ∷ es) (orphan last) = add_behind env false last

-- Where the finished entry stands: on the list, or behind an entry that is no longer on it.
unfoldable pub place_fd : List FdEntry → Tail → FdEntry → FdTable
place_fd [] tail e = table (e ∷ []) at_end
place_fd (f ∷ fs) (orphan last) e = table (f ∷ fs) (orphan e)
place_fd (f ∷ fs) tail e = table ((f ∷ fs) ++ e ∷ []) tail

pub touch_atime : ℕ → (ℕ → Inode) → ℕ → ℕ → Inode
touch_atime now inodes i = let inode = inodes i in put inodes i (record inode { atime = now })

pub touch_both : ℕ → (ℕ → Inode) → ℕ → ℕ → Inode
touch_both now inodes i =
    let inode = inodes i in put inodes i (record inode { atime = now; mtime = now })

-- The times of the root and of the file, by the flags.
pub touch_path : (now flags target : ℕ) → (ℕ → Inode) → ℕ → Inode
unfolding touch_atime touch_both
touch_path now flags target inodes =
    if flags == o_rdonly
    then touch_atime now (touch_atime now inodes 0) target
    else if (flags == o_wronly) || (flags == o_rdwr)
    then touch_both now (touch_both now inodes 0) target
    else inodes

-- The end of `vsfs_open`, for a file that was found: an entry of the open file table.
unfoldable pub finish_open :
    Env → (flags target : ℕ) → List FdEntry → Tail → FdEntry → (ret : ℕ) → Vsfs → Vsfs × ℤ
unfolding discard_table place_fd touch_path
finish_open env flags target head tail e ret s =
    if leb op_limit s.op_counter
    then (discard_table s, minus_one)
    else (let disk = s.disk in
        let opened : FdEntry = record e {
          ptr = s.op_counter;
          path = 0 ∷ target ∷ [];
          flags = if leb flags o_rdwr then flags else e.flags;
        } in
        (
          record s {
            disk = record disk { inode_reg = touch_path env.now flags target disk.inode_reg };
            op_ftable =
                put s.op_ftable s.op_counter
                  (record { offset = 0; inode_nr = target; ptr_counter = 1; lock = 0 });
            op_counter = u16 (s.op_counter + 1);
            fd_table = place_fd head tail opened;
          },
          pos ret,
        ))

-- The search for the path, once the new entry is there.
unfoldable pub open_entry :
    Env → List ℕ → (flags : ℕ) → List FdEntry → Tail → Added → Vsfs → Vsfs × ℤ
unfolding finish_open
open_entry env pathname flags head tail (given_up ret) s = (discard_table s, ret)
open_entry env pathname flags head tail (added e ret) s =
    let root = s.disk.inode_reg 0 in
    elim (find_entry root s.disk.data_reg pathname root.size 0) [
      | none ↦ (discard_table s, minus_one)
      | some target ↦
          if env.step_alloc
          then finish_open env flags target head tail e ret s
          else (discard_table s, pos ret)
    ]

unfoldable pub open_table : Env → List ℕ → (flags : ℕ) → FdTable → Vsfs → Outcome
unfolding open_entry add_fd
open_table env pathname flags null s =
    if env.table_alloc
    then (do e ← add_fd env [] at_end; done (open_entry env pathname flags [] at_end e s))
    else done (close_maps s, minus_one)
open_table env pathname flags freed s = fault
open_table env pathname flags (table head tail) s = do
  e ← add_fd env head tail
  done (open_entry env pathname flags head tail e s)

-- `vsfs_open`: each object that is not mapped yet is opened first.
unfoldable pub vsfs_open : Env → (pathname : List ℕ) → (flags : ℕ) → Vsfs → Outcome
unfolding open_table
vsfs_open env pathname flags s =
    if leb filename_len (length pathname)
    then done (s, minus_one)
    else if s.optab_mapped || env.optab_opens
    then if s.sb_mapped || env.sb_opens
      then if s.cached_mapped || env.cached_opens
        then open_table env pathname flags s.fd_table
            (record s { optab_mapped = true; sb_mapped = true; cached_mapped = true })
        else done (record s { optab_mapped = false; sb_mapped = false }, minus_one)
      else done (record s { optab_mapped = false }, minus_one)
    else done (s, minus_one)
