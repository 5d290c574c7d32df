-- ===== src/Session/Close.antt =====
-- `vsfs_close` of src/inc/vsfsio.h.
pub mod Laws
use test_vsfs.Prelude.{
  ℕ, zero, suc, ◌+◌, ◌-◌, Bool, true, false, Option, none, some, List, [], ◌∷◌, ◌++◌, ltb, leb,
  ◌==◌, if◌then◌else◌, ◌||◌, length, not,
}
use test_vsfs.Word.{ℤ, pos, minus_one, u16}
use test_vsfs.Layout.{Inode, Disk, filename_len, put}
use test_vsfs.Directory.{find_entry}
use test_vsfs.State.{
  OpEntry, FdEntry, Tail, at_end, dangling, orphan, FdTable, null, freed, table, Vsfs, Run, done,
  fault, ◌>>=◌, Outcome, Env,
}
use test_vsfs.Session.{op_limit, o_rdonly, o_wronly, o_rdwr}

-- The loop of `vsfs_close` behind the head: `none` so far, or the entry that was taken off and
-- whether it was the last. The loop looks at `tmp->next` before it tests it.
pub record Unlinked : Type 0 where
  pub entries : List FdEntry
  pub removed : Option (FdEntry × Bool)

abbrev pub is_null {ℓ} : {A : Type ℓ} → List A → Bool
is_null [] = true
is_null (e ∷ es) = false

abbrev pub later : Option (FdEntry × Bool) → FdEntry × Bool → Option (FdEntry × Bool)
later none r = some r
later (some q) r = some q

unfoldable pub unlink : (fildes : ℕ) → List FdEntry → Run Unlinked
unlink fildes [] = done (record { entries = []; removed = none })
unlink fildes (tmp ∷ []) = fault
unlink fildes (tmp ∷ next ∷ rest) = elim (next.index == fildes) [
  | true ↦ elim (unlink fildes rest) [
    | fault ↦ fault
    | done r ↦
        done (record { entries = tmp ∷ r.entries; removed = later r.removed (next, is_null rest) })
  ]
  | false ↦ elim (unlink fildes (next ∷ rest)) [
    | fault ↦ fault
    | done r ↦ done (record { entries = tmp ∷ r.entries; removed = r.removed })
  ]
]

-- The list without the entry of the descriptor; the head is tested first.
unfoldable pub take_fd : (fildes : ℕ) → FdEntry → List FdEntry → Run Unlinked
unfolding unlink
take_fd fildes head rest =
    if head.index == fildes
    then done (record { entries = rest; removed = some (head, is_null rest) })
    else unlink fildes (head ∷ rest)

-- `op_ftable` after `ptr_counter--` of entry `p` and, if it is 0 then, the move of the last entry
-- into its place. `false` is the error that the table is empty.
unfoldable pub release_op : (p : ℕ) → Vsfs → Vsfs × Bool
release_op p s =
    let entry = s.op_ftable p in
    let lowered = put s.op_ftable p (record entry { ptr_counter = entry.ptr_counter - 1 }) in
    if entry.ptr_counter - 1 == 0
    then if s.op_counter == 0 then (record s { op_ftable = lowered }, false) else (
      record s {
        op_ftable =
            if ltb 1 s.op_counter then put lowered p (lowered (s.op_counter - 1)) else lowered;
        op_counter = s.op_counter - 1;
      },
      true,
    )
    else (record s { op_ftable = lowered }, true)

-- `fd_table` once the entry is freed. With the last entry the table goes too, and its pointer
-- stays.
unfoldable pub close_table : List FdEntry → Tail → (was_last : Bool) → Vsfs → Vsfs
close_table [] tail was_last s = record s {
  fd_table = freed;
  sb_mapped = false;
  cached_mapped = false;
  optab_mapped = false;
}
close_table (e ∷ es) at_end true s = record s { fd_table = table (e ∷ es) dangling }
close_table (e ∷ es) tail was_last s = record s { fd_table = table (e ∷ es) tail }

-- The table where `vsfs_close` stops early: the entry is off the list, and not freed.
abbrev pub strand : List FdEntry → Tail → FdEntry → (was_last : Bool) → FdTable
strand es at_end e true = table es (orphan e)
strand es tail e was_last = table es tail

unfoldable pub close_entry : Unlinked → Tail → Vsfs → Vsfs × ℤ
unfolding release_op close_table
close_entry r tail s = elim r.removed [
  | none ↦ (s, minus_one)
  | some (e, was_last) ↦
      if (s.op_ftable e.ptr).ptr_counter == 0
      then (record s { fd_table = strand r.entries tail e was_last }, minus_one)
      else (let (s', released) = release_op e.ptr s in
          if released
          then (close_table r.entries tail was_last s', pos 0)
          else (record s' { fd_table = strand r.entries tail e was_last }, minus_one))
]

unfoldable pub close_in : (fildes : ℕ) → FdTable → Vsfs → Outcome
unfolding take_fd close_entry
close_in fildes null s = done (s, minus_one)
close_in fildes freed s = fault
close_in fildes (table [] tail) s = done (s, minus_one)
close_in fildes (table (head ∷ rest) tail) s =
    if is_null head.path
    then done (s, minus_one)
    else if not s.optab_mapped
    then done (s, minus_one)
    else (do r ← take_fd fildes head rest; done (close_entry r tail s))

-- `vsfs_close`
unfoldable pub vsfs_close : (fildes : ℕ) → Vsfs → Outcome
unfolding close_in
vsfs_close fildes s = close_in fildes s.fd_table s
