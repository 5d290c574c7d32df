-- ===== src/Session/Close/Laws.antt =====
-- `vsfs_close`: the last descriptor of the list, and one in the middle.
use test_vsfs.Prelude.{
  ℕ, ◌+◌, ◌-◌, ◌<◌, ◌≡◌, ◌≢◌, refl, arith, true, false, some, List, [], ◌∷◌, ◌++◌, ltb, ◌==◌,
  if◌then◌else◌, ◌∙◌, ap, eq→==, ne→==, Bool-cases, inl, inr,
}
use Prim.{Unit}
use test_vsfs.Word.{pos}
use test_vsfs.Layout.{put}
use test_vsfs.State.{
  OpEntry, FdEntry, Tail, at_end, dangling, FdTable, table, Vsfs, Run, done, fault, ◌>>=◌,
}
use test_vsfs.Session.Open.{last_entry}
use test_vsfs.Session.Close.{
  Unlinked, is_null, unlink, take_fd, release_op, close_table, close_entry, close_in, vsfs_close,
}

-- The loop of `vsfs_close` runs off the end of the list, unless the last entry is the one.
unlink-fault :
    (fildes : ℕ) (tmp : FdEntry) (es : List FdEntry)
    → (last_entry tmp es).index ≢ fildes
    → unlink fildes (tmp ∷ es) ≡ fault
unfolding unlink last_entry
unlink-fault fildes tmp [] ne = refl
unlink-fault fildes tmp (next ∷ []) ne = rw (ne→== _ _ ne, unlink) refl
unlink-fault fildes tmp (next ∷ r ∷ rs) ne = elim (Bool-cases (next.index == fildes)) [
  | inl hit ↦ rw (hit, unlink) (rw (unlink-fault fildes r rs ne) refl)
  | inr miss ↦ rw (miss, unlink) (rw (unlink-fault fildes next (r ∷ rs) ne) refl)
]

-- None of these descriptors has the index.
abbrev pub IsAbsent : (fildes : ℕ) → List FdEntry → Type 0
IsAbsent fildes [] = Unit {0}
IsAbsent fildes (e ∷ es) = (e.index ≢ fildes) × IsAbsent fildes es

unlink-last :
    (fildes : ℕ) (tmp : FdEntry) (es : List FdEntry) (e : FdEntry)
    → IsAbsent fildes es
    → e.index ≡ fildes
    → unlink fildes (tmp ∷ (es ++ e ∷ []))
      ≡ done (record { entries = tmp ∷ es; removed = some (e, true) })
unfolding unlink
unlink-last fildes tmp [] e absent hit = rw (eq→== _ _ hit, unlink) refl
unlink-last fildes tmp (f ∷ es) e (ne, absent) hit =
    rw (ne→== _ _ ne, unlink) (rw (unlink-last fildes f es e absent hit) refl)

-- The descriptors `head ∷ rest` can be closed one by one.
pub record IsListed (head : FdEntry) (rest : List FdEntry) (tail : Tail) (s : Vsfs) : Type 0 where
  pub listed : s.fd_table ≡ table (head ∷ rest) tail
  pub path : is_null head.path ≡ false
  pub optab : s.optab_mapped ≡ true

module _ (fildes : ℕ) (head : FdEntry) (rest : List FdEntry) (tail : Tail) (s : Vsfs)
    (is : IsListed head rest tail s) where
  pub vsfs_close-table :
      vsfs_close fildes s ≡ (do r ← take_fd fildes head rest; done (close_entry r tail s))
  unfolding vsfs_close close_in
  vsfs_close-table =
      ap (λ (t : FdTable). close_in fildes t s) is.listed ∙ simp (is.path, is.optab) refl

  -- `vsfs_close` of a descriptor that is neither the first nor the last of the list is a fault, and
  -- so is one of a descriptor that is not open: the loop uses the null pointer behind the last.
  pub vsfs_close_fault :
      head.index ≢ fildes → (last_entry head rest).index ≢ fildes → vsfs_close fildes s ≡ fault
  unfolding take_fd
  vsfs_close_fault first last =
      vsfs_close-table ∙ rw (ne→== _ _ first, unlink-fault fildes head rest last) refl

  module _ (mid : List FdEntry) (e : FdEntry) where
    -- Where the list ends in `e`, and `e` alone has the index, `take_fd` takes it off the end.
    take_fd-last :
        rest ≡ mid ++ e ∷ []
        → e.index ≡ fildes
        → IsAbsent fildes (head ∷ mid)
        → take_fd fildes head rest
          ≡ done (record { entries = head ∷ mid; removed = some (e, true) })
    unfolding take_fd
    take_fd-last ends hit (first, absent) =
        rw (ends, ne→== _ _ first, unlink-last fildes head mid e absent hit) refl

-- What closing the only descriptor of entry `p`, the last of the open file table, leaves of the
-- state.
pub record IsUndone (head : FdEntry) (mid : List FdEntry) (p : ℕ) (s s' : Vsfs) : Type 0 where
  pub list : s'.fd_table ≡ table (head ∷ mid) dangling
  pub counter : s'.op_counter ≡ p
  pub others : (i : ℕ) → i < p → s'.op_ftable i ≡ s.op_ftable i
  pub disk : s'.disk ≡ s.disk
  pub maps :
      (s'.sb_mapped ≡ s.sb_mapped)
      × (s'.cached_mapped ≡ s.cached_mapped)
      × (s'.optab_mapped ≡ s.optab_mapped)

module _ (head : FdEntry) (mid : List FdEntry) (e : FdEntry) (s : Vsfs)
    (is : IsListed head (mid ++ e ∷ []) at_end s) (alone : IsAbsent e.index (head ∷ mid))
    (last : s.op_counter ≡ e.ptr + 1) (once : (s.op_ftable e.ptr).ptr_counter ≡ 1) where
  abbrev lowered : ℕ → OpEntry
  lowered =
      let entry = s.op_ftable e.ptr in
      put s.op_ftable e.ptr (record entry { ptr_counter = entry.ptr_counter - 1 })

  abbrev released : Vsfs
  released = record s {
    op_ftable =
        if ltb 1 s.op_counter then put lowered e.ptr (lowered (s.op_counter - 1)) else lowered;
    op_counter = s.op_counter - 1;
  }

  abbrev closed : Vsfs
  closed = record released { fd_table = table (head ∷ mid) dangling }

  release_op-last : release_op e.ptr s ≡ (released, true)
  unfolding release_op
  release_op-last =
      let none_left : ((s.op_ftable e.ptr).ptr_counter - 1 == 0) ≡ true = ground (arith, once) in
      let some_entry : (s.op_counter == 0) ≡ false = ground (arith, last) in
      simp (none_left, some_entry) refl

  close_entry-last :
      close_entry (record { entries = head ∷ mid; removed = some (e, true) }) at_end s
      ≡ (closed, pos 0)
  unfolding close_entry close_table
  close_entry-last =
      let held : ((s.op_ftable e.ptr).ptr_counter == 0) ≡ false = ground (arith, once) in
      simp (held, release_op-last) refl

  -- `vsfs_close` of the last descriptor of several, the only one of the last entry of the open
  -- file table, succeeds, takes both off and leaves the other entries, the disk and the mappings;
  -- but the table's `tail` dangles.
  pub vsfs_close-IsUndone :
      (s' : Vsfs) × (vsfs_close e.index s ≡ done (s', pos 0)) × IsUndone head mid e.ptr s s'
  vsfs_close-IsUndone = (
    closed,
    vsfs_close-table e.index head _ at_end s is
        ∙ ap (λ (r : Run Unlinked). r >>= (λ x. done (close_entry x at_end s)))
            (take_fd-last e.index head (mid ++ e ∷ []) at_end s is mid e refl refl alone)
        ∙ ap done close_entry-last,
    record {
      list = refl;
      counter = omega (arith, last);
      others = below;
      disk = refl;
      maps = (refl, refl, refl);
    },
  )
    where
      below : (i : ℕ) → i < e.ptr → closed.op_ftable i ≡ s.op_ftable i
      below i h =
          let other : (i == e.ptr) ≡ false = ground arith in
          elim (Bool-cases (ltb 1 s.op_counter)) [
            | inl b ↦ simp (b, other) refl
            | inr b ↦ simp (b, other) refl
          ]
