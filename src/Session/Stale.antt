-- ===== src/Session/Stale.antt =====
-- `vsfs_close` of the first of several descriptors, and then `vsfs_open`: the last entry of the open
-- file table moves, and a descriptor that names it does not follow.
use test_vsfs.Prelude.{
  ℕ, ◌+◌, ◌-◌, ◌<◌, ◌≤◌, ◌≡◌, refl, arith, true, false, some, List, ◌∷◌, ◌++◌, [], ltb, ◌==◌,
  if◌then◌else◌, eq→==, ◌∙◌,
}
use test_vsfs.Word.{pos}
use test_vsfs.Layout.{put}
use test_vsfs.State.{OpEntry, FdEntry, at_end, table, Vsfs, done, Env}
use test_vsfs.Session.Open.{last_entry, vsfs_open}
use test_vsfs.Session.Open.Laws.{
  IsReachable, HasMemory, looked_up, new_fd, opened, vsfs_open-behind,
}
use test_vsfs.Session.Close.{take_fd, release_op, close_table, close_entry, vsfs_close}
use test_vsfs.Session.Close.Laws.{IsListed, vsfs_close-table}

module _ (h g : FdEntry) (gs : List FdEntry) (s : Vsfs) where
  abbrev lowered : ℕ → OpEntry
  lowered =
      let entry = s.op_ftable h.ptr in
      put s.op_ftable h.ptr (record entry { ptr_counter = entry.ptr_counter - 1 })

  -- The state after the close.
  abbrev pub closed_first : Vsfs
  closed_first = record s {
    op_ftable =
        if ltb 1 s.op_counter then put lowered h.ptr (lowered (s.op_counter - 1)) else lowered;
    op_counter = s.op_counter - 1;
    fd_table = table (g ∷ gs) at_end;
  }

  vsfs_close-first :
      IsListed h (g ∷ gs) at_end s
      → (s.op_ftable h.ptr).ptr_counter ≡ 1
      → 0 < s.op_counter
      → vsfs_close h.index s ≡ done (closed_first, pos 0)
  unfolding take_fd close_entry release_op close_table
  vsfs_close-first is once some_entry =
      let none_left : ((s.op_ftable h.ptr).ptr_counter - 1 == 0) ≡ true = ground (arith, once) in
      let held : ((s.op_ftable h.ptr).ptr_counter == 0) ≡ false = ground (arith, once) in
      let entries : (s.op_counter == 0) ≡ false = ground arith in
      vsfs_close-table h.index h (g ∷ gs) at_end s is
      ∙ simp (eq→== h.index h.index refl, held, none_left, entries) refl

  -- Where the process has the descriptors `h`, `g` and more, `h` is the only one that the entry it
  -- names counts, and `g` names the last entry of the open file table, `vsfs_close` of `h` and then
  -- `vsfs_open` of a file that exists both succeed; and `g`, which is still on the list, names the
  -- new descriptor's entry then, which is at offset 0 of the file that was opened. The table has at
  -- most 341 entries, the objects open, every `malloc` succeeds, and the name is short enough.
  pub vsfs_open-IsCrossed :
      (env : Env) (pathname : List ℕ) (flags target : ℕ)
      → IsListed h (g ∷ gs) at_end s
      → (s.op_ftable h.ptr).ptr_counter ≡ 1
      → g.ptr + 1 ≡ s.op_counter
      → s.op_counter ≤ 341
      → IsReachable env pathname s
      → HasMemory env
      → looked_up pathname s ≡ some target
      → (s1 : Vsfs) × (s2 : Vsfs) × (e : FdEntry) × (vsfs_close h.index s ≡ done (s1, pos 0))
        × (vsfs_open env pathname flags s1 ≡ done (s2, pos ((last_entry g gs).index + 1)))
        × (s2.fd_table ≡ table (g ∷ (gs ++ e ∷ [])) at_end)
        × (g.ptr ≡ e.ptr)
        × (s2.op_ftable g.ptr ≡ record { offset = 0; inode_nr = target; ptr_counter = 1; lock = 0 })
  vsfs_open-IsCrossed env pathname flags target is once last room reachable memory found =
      let reachable' : IsReachable env pathname closed_first = record {
        short = reachable.short;
        optab = reachable.optab;
        sb = reachable.sb;
        cached = reachable.cached;
      } in
      let same : g.ptr ≡ s.op_counter - 1 = omega arith in
      (
        closed_first,
        opened env flags target g gs closed_first,
        new_fd env flags target g gs closed_first,
        vsfs_close-first is once (omega arith),
        vsfs_open-behind env pathname flags closed_first reachable' g gs memory target refl found
            (omega arith),
        refl,
        same,
        rw (eq→== g.ptr (s.op_counter - 1) same) refl,
      )
