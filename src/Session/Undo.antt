-- ===== src/Session/Undo.antt =====
-- `vsfs_open` and then `vsfs_close` of the new descriptor, and then `vsfs_open` again.
use test_vsfs.Prelude.{
  ℕ, ◌+◌, ◌<◌, ◌≡◌, ◌^◌, refl, sym, subst, arith, false, some, List, [], ◌∷◌, ◌++◌, eq→==,
}
use test_vsfs.Word.{pos, u16}
use test_vsfs.State.{FdEntry, at_end, table, Vsfs, done, Env}
use test_vsfs.Session.Open.{last_entry, vsfs_open}
use test_vsfs.Session.Open.Laws.{
  IsReachable, HasMemory, looked_up, new_fd, opened, vsfs_open-behind,
}
use test_vsfs.Session.Close.{is_null, vsfs_close}
use test_vsfs.Session.Close.Laws.{IsAbsent, IsListed, IsUndone, vsfs_close-IsUndone}

module _ (env : Env) (pathname : List ℕ) (flags target : ℕ) (h : FdEntry) (hs : List FdEntry)
    (s : Vsfs) where
  -- The index that `vsfs_open` gives to the new descriptor.
  abbrev fildes : ℕ
  fildes = (last_entry h hs).index + 1

  abbrev state : Vsfs
  state = opened env flags target h hs s

  -- After `vsfs_open` of a file that exists, `vsfs_close` of the new descriptor succeeds; the list
  -- of descriptors and the open file table are as before, but for the table's `tail`, which
  -- dangles. This holds where the objects open, every `malloc` succeeds, the open file table has
  -- less than 341 entries, the new index fits in 16 bits and no descriptor has it yet.
  pub vsfs_close-vsfs_open :
      IsReachable env pathname s
      → HasMemory env
      → s.fd_table ≡ table (h ∷ hs) at_end
      → is_null h.path ≡ false
      → looked_up pathname s ≡ some target
      → s.op_counter < 341
      → fildes < 2 ^ 16
      → IsAbsent fildes (h ∷ hs)
      → (vsfs_open env pathname flags s ≡ done (state, pos fildes))
        × (s' : Vsfs) × (vsfs_close fildes state ≡ done (s', pos 0))
        × IsUndone h hs s.op_counter state s'
  vsfs_close-vsfs_open is memory t path found room narrow absent =
      let next : u16 (s.op_counter + 1) ≡ s.op_counter + 1 = omega arith in
      let once : (state.op_ftable s.op_counter).ptr_counter ≡ 1 =
        simp (eq→== s.op_counter s.op_counter refl) refl in
      let listed : IsListed h (hs ++ new_fd env flags target h hs s ∷ []) at_end state = record {
        listed = refl;
        path = path;
        optab = refl;
      } in
      let exact : fildes ≡ u16 fildes = omega arith in
      let (s', e, undone) =
        vsfs_close-IsUndone h hs (new_fd env flags target h hs s) state listed
          (subst (λ (i : ℕ). IsAbsent i (h ∷ hs)) exact absent) next once in
      (
        vsfs_open-behind env pathname flags s is h hs memory target t found room,
        s',
        subst (λ (i : ℕ). vsfs_close i state ≡ done (s', pos 0)) (sym exact) e,
        undone,
      )
