-- ===== src/Machine/Closing.antt =====
-- `vsfs_close` keeps to the open file table.
use test_vsfs.Prelude.{
  ℕ, ◌-◌, ◌<◌, refl, arith, Bool, true, false, Option, none, some, List, [], ◌∷◌, ◌==◌, ltb, not,
  if◌then◌else◌, Bool-cases, inl, inr,
}
use Prim.{Unit, tt}
use test_vsfs.Word.{ℤ}
use test_vsfs.Layout.{put}
use test_vsfs.State.{
  OpEntry, FdEntry, Tail, at_end, dangling, orphan, FdTable, null, freed, table, Vsfs, Run, done,
  fault, ◌>>=◌,
}
use test_vsfs.Session.Close.{
  Unlinked, is_null, later, strand, unlink, take_fd, release_op, close_table, close_entry, close_in,
  vsfs_close,
}
use test_vsfs.Machine.Safe.{
  IsWithin, IsTable, IsSafe, Fine, Fine-if, IsSafe-if, IsSafe-put, put_entry,
}

-- An entry that was taken off names an entry of the table, and so do the ones that stay.
abbrev Removed : Option (FdEntry × Bool) → Type 0
Removed none = Unit {0}
Removed (some r) = (r.0).ptr < 341

abbrev IsUnlinked : Unlinked → Type 0
IsUnlinked r = IsWithin r.entries × Removed r.removed

abbrev AreUnlinked : Run Unlinked → Type 0
AreUnlinked fault = Unit {0}
AreUnlinked (done r) = IsUnlinked r

later-Removed :
    (o : Option (FdEntry × Bool)) (r : FdEntry × Bool)
    → Removed o
    → Removed (some r)
    → Removed (later o r)
later-Removed none r h k = k
later-Removed (some q) r h k = h

keep-AreUnlinked :
    (o : Run Unlinked) (tmp : FdEntry)
    → tmp.ptr < 341
    → AreUnlinked o
    → AreUnlinked (elim o [
      | fault ↦ fault
      | done r ↦ done (record { entries = tmp ∷ r.entries; removed = r.removed })
    ])
keep-AreUnlinked fault tmp low h = tt
keep-AreUnlinked (done r) tmp low h = ((low, h.0), h.1)

drop-AreUnlinked :
    (o : Run Unlinked) (tmp next : FdEntry) (b : Bool)
    → tmp.ptr < 341
    → next.ptr < 341
    → AreUnlinked o
    → AreUnlinked (elim o [
      | fault ↦ fault
      | done r ↦ done (record { entries = tmp ∷ r.entries; removed = later r.removed (next, b) })
    ])
drop-AreUnlinked fault tmp next b low low' h = tt
drop-AreUnlinked (done r) tmp next b low low' h =
    ((low, h.0), later-Removed r.removed (next, b) h.1 low')

AreUnlinked-if :
    (b : Bool) (x y : Run Unlinked)
    → AreUnlinked x
    → AreUnlinked y
    → AreUnlinked (if b then x else y)
AreUnlinked-if true x y h k = h
AreUnlinked-if false x y h k = k

AreUnlinked-elim :
    (b : Bool) (x y : Run Unlinked)
    → AreUnlinked x
    → AreUnlinked y
    → AreUnlinked (elim b [ true ↦ x | false ↦ y ])
AreUnlinked-elim true x y h k = h
AreUnlinked-elim false x y h k = k

unlink-AreUnlinked : (fd : ℕ) (es : List FdEntry) → IsWithin es → AreUnlinked (unlink fd es)
unfolding unlink
unlink-AreUnlinked fd [] h = (tt, tt)
unlink-AreUnlinked fd (tmp ∷ []) h = tt
unlink-AreUnlinked fd (tmp ∷ next ∷ rest) h =
    AreUnlinked-elim (next.index == fd) _ _
      (drop-AreUnlinked (unlink fd rest) tmp next (is_null rest) h.0 (h.1).0
        (unlink-AreUnlinked fd rest (h.1).1))
      (keep-AreUnlinked (unlink fd (next ∷ rest)) tmp h.0 (unlink-AreUnlinked fd (next ∷ rest) h.1))

take_fd-AreUnlinked :
    (fd : ℕ) (e : FdEntry) (es : List FdEntry) → IsWithin (e ∷ es) → AreUnlinked (take_fd fd e es)
unfolding take_fd
take_fd-AreUnlinked fd e es h =
    AreUnlinked-if (e.index == fd) _ _ (h.1, h.0) (unlink-AreUnlinked fd (e ∷ es) h)

strand-IsTable :
    (es : List FdEntry) (tail : Tail) (e : FdEntry) (b : Bool)
    → IsWithin es
    → IsTable (strand es tail e b)
strand-IsTable es at_end e true h = h
strand-IsTable es dangling e true h = h
strand-IsTable es (orphan f) e true h = h
strand-IsTable es at_end e false h = h
strand-IsTable es dangling e false h = h
strand-IsTable es (orphan f) e false h = h

module _ (behind : ℕ → OpEntry) where
  release_op-IsSafe :
      (p : ℕ) (s : Vsfs) → p < 341 → IsSafe behind s → IsSafe behind ((release_op p s).0)
  unfolding release_op
  release_op-IsSafe p s low safe =
      let entry = s.op_ftable p in
      let lowered = put s.op_ftable p (record entry { ptr_counter = entry.ptr_counter - 1 }) in
      let safe' : IsSafe behind (record s { op_ftable = lowered }) =
        IsSafe-put behind s p _ _ low refl refl refl safe in
      IsSafe-if behind (λ (r : Vsfs × Bool). r.0) (entry.ptr_counter - 1 == 0) _ _
        (IsSafe-if behind (λ (r : Vsfs × Bool). r.0) (s.op_counter == 0) _ _ safe'
          (record {
            counter = (let c = safe.counter in omega arith);
            fds = safe.fds;
            kept = elim (Bool-cases (ltb 1 s.op_counter)) [
              | inl more ↦
                  rw more (put_entry behind (record s { op_ftable = lowered }) p _ low safe')
              | inr one ↦ rw one safe'.kept
            ];
          }))
        safe'

  close_table-IsSafe :
      (es : List FdEntry) (tail : Tail) (b : Bool) (s : Vsfs)
      → IsWithin es
      → IsSafe behind s
      → IsSafe behind (close_table es tail b s)
  unfolding close_table
  close_table-IsSafe [] tail b s h safe = record {
    counter = safe.counter;
    fds = tt;
    kept = safe.kept;
  }
  close_table-IsSafe (e ∷ es) at_end true s h safe = record {
    counter = safe.counter;
    fds = h;
    kept = safe.kept;
  }
  close_table-IsSafe (e ∷ es) at_end false s h safe = record {
    counter = safe.counter;
    fds = h;
    kept = safe.kept;
  }
  close_table-IsSafe (e ∷ es) dangling b s h safe = record {
    counter = safe.counter;
    fds = h;
    kept = safe.kept;
  }
  close_table-IsSafe (e ∷ es) (orphan f) b s h safe = record {
    counter = safe.counter;
    fds = h;
    kept = safe.kept;
  }

  close_entry-IsSafe :
      (es : List FdEntry) (o : Option (FdEntry × Bool)) (tail : Tail) (s : Vsfs)
      → IsWithin es
      → Removed o
      → IsSafe behind s
      → IsSafe behind ((close_entry (record { entries = es; removed = o }) tail s).0)
  unfolding close_entry
  close_entry-IsSafe es none tail s h low safe = safe
  close_entry-IsSafe es (some (e, b)) tail s h low safe =
      let s' : Vsfs = (release_op e.ptr s).0 in
      let safe' : IsSafe behind s' = release_op-IsSafe e.ptr s low safe in
      let left : IsTable (strand es tail e b) = strand-IsTable es tail e b h in
      IsSafe-if behind (λ (r : Vsfs × ℤ). r.0) ((s.op_ftable e.ptr).ptr_counter == 0) _ _
        (record { counter = safe.counter; fds = left; kept = safe.kept })
        (IsSafe-if behind (λ (r : Vsfs × ℤ). r.0) ((release_op e.ptr s).1) _ _
          (close_table-IsSafe es tail b s' h safe')
          (record { counter = safe'.counter; fds = left; kept = safe'.kept }))

  unlinked-Fine :
      (o : Run Unlinked) (tail : Tail) (s : Vsfs)
      → AreUnlinked o
      → IsSafe behind s
      → Fine behind (λ r. r.0) (do r ← o; done (close_entry r tail s))
  unlinked-Fine fault tail s h safe = tt
  unlinked-Fine (done r) tail s h safe = close_entry-IsSafe r.entries r.removed tail s h.0 h.1 safe

  close_in-Fine :
      (fd : ℕ) (t : FdTable) (s : Vsfs)
      → IsTable t
      → IsSafe behind s
      → Fine behind (λ r. r.0) (close_in fd t s)
  unfolding close_in
  close_in-Fine fd null s h safe = safe
  close_in-Fine fd freed s h safe = tt
  close_in-Fine fd (table [] tail) s h safe = safe
  close_in-Fine fd (table (e ∷ es) tail) s h safe =
      Fine-if behind (λ r. r.0) (is_null e.path) _ _ safe
        (Fine-if behind (λ r. r.0) (not s.optab_mapped) _ _ safe
          (unlinked-Fine (take_fd fd e es) tail s (take_fd-AreUnlinked fd e es h) safe))

  pub vsfs_close-Fine :
      (fd : ℕ) (s : Vsfs) → IsSafe behind s → Fine behind (λ r. r.0) (vsfs_close fd s)
  unfolding vsfs_close
  vsfs_close-Fine fd s safe = close_in-Fine fd s.fd_table s safe.fds safe
