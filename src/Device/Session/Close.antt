-- ===== src/Device/Session/Close.antt =====
-- `vsfs_close` of src/inc/vsfsio_spdk.h. That `file_ptr` and its array are freed is left out.
use test_vsfs.Prelude.{
  ℕ, ◌-◌, Bool, true, false, none, some, List, [], ◌∷◌, ltb, ◌==◌, if◌then◌else◌, not,
}
use test_vsfs.Word.{ℤ, pos, minus_one}
use test_vsfs.Layout.{put}
use test_vsfs.State.{
  FdEntry, Tail, at_end, dangling, FdTable, null, freed, table, Run, done, fault, ◌>>=◌,
}
use test_vsfs.Session.Close.{Unlinked, is_null, take_fd, strand}
use test_vsfs.Device.State.{null_reg, Mounted}

module _ {Ns : Type 0} where
  -- `ptr_counter--` of entry `p` and, if it is 0 then, the move of the last entry into its place,
  -- its `file_ptr` with it. `false` is the error that the table is empty.
  unfoldable pub release_op : (p : ℕ) → Mounted Ns → Mounted Ns × Bool
  release_op p s =
      let entry = s.op_ftable p in
      let lowered = put s.op_ftable p (record entry { ptr_counter = entry.ptr_counter - 1 }) in
      if entry.ptr_counter - 1 == 0
      then if s.op_counter == 0 then (record s { op_ftable = lowered }, false) else (
        record s {
          op_ftable =
              if ltb 1 s.op_counter then put lowered p (lowered (s.op_counter - 1)) else lowered;
          op_counter = s.op_counter - 1;
        },
        true,
      )
      else (record s { op_ftable = lowered }, true)

  -- `fd_table` once the entry is freed. With the last entry the table and the mappings go too.
  unfoldable pub close_table : List FdEntry → Tail → (was_last : Bool) → Mounted Ns → Mounted Ns
  close_table [] tail was_last s = record s {
    fd_table = null;
    cached_mapped = false;
    optab_mapped = false;
  }
  close_table (e ∷ es) at_end true s = record s { fd_table = table (e ∷ es) dangling }
  close_table (e ∷ es) tail was_last s = record s { fd_table = table (e ∷ es) tail }

  unfoldable pub close_entry : Unlinked → Tail → Mounted Ns → Mounted Ns × ℤ
  close_entry r tail s = elim r.removed [
    | none ↦ (s, minus_one)
    | some (e, was_last) ↦
        if (s.op_ftable e.ptr).ptr_counter == 0
        then (record s { fd_table = strand r.entries tail e was_last }, minus_one)
        else (let (s', released) = release_op e.ptr s in
            if released
            then (close_table r.entries tail was_last s', pos 0)
            else (record s' { fd_table = strand r.entries tail e was_last }, minus_one))
  ]

  unfoldable pub close_in : (fildes : ℕ) → FdTable → Mounted Ns → Run (Mounted Ns × ℤ)
  close_in fildes null s = done (s, minus_one)
  close_in fildes freed s = fault
  close_in fildes (table [] tail) s = done (s, minus_one)
  close_in fildes (table (head ∷ rest) tail) s =
      if is_null head.path
      then done (s, minus_one)
      else if not s.optab_mapped
      then done (s, minus_one)
      else (do r ← take_fd fildes head rest; done (close_entry r tail s))

  -- `vsfs_close`. `inode_reg` is null from here on, whatever the outcome.
  unfoldable pub vsfs_close : (fildes : ℕ) → Mounted Ns → Run (Mounted Ns × ℤ)
  vsfs_close fildes s = close_in fildes s.fd_table (record s { inode_reg = null_reg })
