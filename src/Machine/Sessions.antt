-- ===== src/Machine/Sessions.antt =====
-- `vsfs_open` and `vsfs_close` keep to the open file table.
use test_vsfs.Prelude.{
  ℕ, ◌<◌, refl, arith, List, [], ◌∷◌, ◌++◌, leb, length, ◌||◌, Bool-cases, inl, inr, leb→lt,
}
use Prim.{tt}
use test_vsfs.Word.{ℤ}
use test_vsfs.Layout.{filename_len}
use test_vsfs.State.{
  OpEntry, FdEntry, Tail, at_end, dangling, orphan, FdTable, null, freed, table, Vsfs, Env,
}
use test_vsfs.Directory.{find_entry}
use test_vsfs.Session.{op_limit}
use test_vsfs.Session.Open.{
  Added, given_up, added, add_fd, place_fd, open_entry, open_table, finish_open, vsfs_open,
  discard_table, close_maps,
}
use test_vsfs.Machine.Safe.{
  IsWithin, IsTable, IsSafe, Fine, Fine-if, Fine-bind, IsSafe-if, IsSafe-option, IsSafe-same,
  put_entry,
}

append-IsWithin :
    (es : List FdEntry) (e : FdEntry) → IsWithin es → e.ptr < 341 → IsWithin (es ++ e ∷ [])
append-IsWithin [] e h low = (low, tt)
append-IsWithin (f ∷ es) e h low = (h.0, append-IsWithin es e h.1 low)

place_fd-IsTable :
    (es : List FdEntry) (tail : Tail) (e : FdEntry)
    → IsWithin es
    → e.ptr < 341
    → IsTable (place_fd es tail e)
unfolding place_fd
place_fd-IsTable [] tail e h low = (low, tt)
place_fd-IsTable (f ∷ es) (orphan g) e h low = h
place_fd-IsTable (f ∷ es) at_end e h low = append-IsWithin (f ∷ es) e h low
place_fd-IsTable (f ∷ es) dangling e h low = append-IsWithin (f ∷ es) e h low

module _ (behind : ℕ → OpEntry) where
  discard_table-IsSafe : (s : Vsfs) → IsSafe behind s → IsSafe behind (discard_table s)
  unfolding discard_table close_maps
  discard_table-IsSafe s safe = record { counter = safe.counter; fds = tt; kept = safe.kept }

  finish_open-IsSafe :
      (env : Env) (flags target : ℕ) (head : List FdEntry) (tail : Tail) (e : FdEntry) (ret : ℕ)
      (s : Vsfs)
      → IsWithin head
      → IsSafe behind s
      → IsSafe behind ((finish_open env flags target head tail e ret s).0)
  unfolding finish_open
  finish_open-IsSafe env flags target head tail e ret s within safe =
      elim (Bool-cases (leb op_limit s.op_counter)) [
        | inl full ↦ rw full (discard_table-IsSafe s safe)
        | inr room ↦
            let low : s.op_counter < 341 = leb→lt op_limit s.op_counter room in
            rw room (record {
              counter = omega arith;
              fds = place_fd-IsTable head tail _ within low;
              kept = put_entry behind s s.op_counter _ low safe;
            })
      ]

  open_entry-IsSafe :
      (env : Env) (path : List ℕ) (flags : ℕ) (head : List FdEntry) (tail : Tail) (a : Added)
      (s : Vsfs)
      → IsWithin head
      → IsSafe behind s
      → IsSafe behind ((open_entry env path flags head tail a s).0)
  unfolding open_entry
  open_entry-IsSafe env path flags head tail (given_up ret) s within safe =
      discard_table-IsSafe s safe
  open_entry-IsSafe env path flags head tail (added e ret) s within safe =
      let root = s.disk.inode_reg 0 in
      IsSafe-option behind (λ (r : Vsfs × ℤ). r.0)
        (find_entry root s.disk.data_reg path root.size 0) _ _ (discard_table-IsSafe s safe)
        (λ target.
          IsSafe-if behind (λ (r : Vsfs × ℤ). r.0) env.step_alloc _ _
            (finish_open-IsSafe env flags target head tail e ret s within safe)
            (discard_table-IsSafe s safe))

  open_table-Fine :
      (env : Env) (path : List ℕ) (flags : ℕ) (t : FdTable) (s : Vsfs)
      → IsTable t
      → IsSafe behind s
      → Fine behind (λ r. r.0) (open_table env path flags t s)
  unfolding open_table close_maps
  open_table-Fine env path flags null s within safe =
      Fine-if behind (λ r. r.0) env.table_alloc _ _
        (Fine-bind behind (λ r. r.0) (add_fd env [] at_end) _
          (λ a. open_entry-IsSafe env path flags [] at_end a s tt safe))
        (IsSafe-same behind s _ refl refl refl safe)
  open_table-Fine env path flags freed s within safe = tt
  open_table-Fine env path flags (table es tail) s within safe =
      Fine-bind behind (λ r. r.0) (add_fd env es tail) _
        (λ a. open_entry-IsSafe env path flags es tail a s within safe)

  pub vsfs_open-Fine :
      (env : Env) (path : List ℕ) (flags : ℕ) (s : Vsfs)
      → IsSafe behind s
      → Fine behind (λ r. r.0) (vsfs_open env path flags s)
  unfolding vsfs_open
  vsfs_open-Fine env path flags s safe =
      Fine-if behind (λ r. r.0) (leb filename_len (length path)) _ _ safe
        (Fine-if behind (λ r. r.0) (s.optab_mapped || env.optab_opens) _ _
          (Fine-if behind (λ r. r.0) (s.sb_mapped || env.sb_opens) _ _
            (Fine-if behind (λ r. r.0) (s.cached_mapped || env.cached_opens) _ _
              (open_table-Fine env path flags s.fd_table _ safe.fds
                (IsSafe-same behind s _ refl refl refl safe))
              (IsSafe-same behind s _ refl refl refl safe))
            (IsSafe-same behind s _ refl refl refl safe))
          safe)
