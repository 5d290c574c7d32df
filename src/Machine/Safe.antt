-- ===== src/Machine/Safe.antt =====
-- What the operations of src/inc/vsfsio.h keep of the open file table: its 341 entries, and what
-- stands behind them.
use test_vsfs.Prelude.{
  ℕ, ◌≤◌, ◌<◌, ◌≡◌, arith, Bool, true, false, Option, none, some, List, [], ◌∷◌, if◌then◌else◌, ◌∙◌,
  ap, ◌==◌, ne→==, sym, subst,
}
use Prim.{Unit, tt}
use test_vsfs.Layout.{put}
use test_vsfs.State.{OpEntry, FdEntry, FdTable, null, freed, table, Vsfs, Run, done, fault, ◌>>=◌}
use test_vsfs.Session.{find_target, find_fd}

-- The descriptors of a list name entries of the table.
abbrev pub IsWithin : List FdEntry → Type 0
IsWithin [] = Unit {0}
IsWithin (e ∷ es) = (e.ptr < 341) × IsWithin es

abbrev pub IsTable : FdTable → Type 0
IsTable null = Unit {0}
IsTable freed = Unit {0}
IsTable (table es tail) = IsWithin es

-- `behind` is what stands behind the open file table.
pub record IsSafe (behind : ℕ → OpEntry) (s : Vsfs) : Type 0 where
  pub counter : s.op_counter ≤ 341
  pub fds : IsTable s.fd_table
  pub kept : (i : ℕ) → 341 ≤ i → s.op_ftable i ≡ behind i

-- What a search of the descriptors finds.
abbrev pub IsFound : Option FdEntry → Type 0
IsFound none = Unit {0}
IsFound (some e) = e.ptr < 341

abbrev pub IsFoundIn : Run (Option FdEntry) → Type 0
IsFoundIn fault = Unit {0}
IsFoundIn (done o) = IsFound o

IsFound-or :
    (o : Option FdEntry) (e : FdEntry) (b : Bool)
    → IsFound o
    → e.ptr < 341
    → IsFound (elim o [ some f ↦ some f | none ↦ if b then some e else none ])
IsFound-or (some f) e b h low = h
IsFound-or none e true h low = low
IsFound-or none e false h low = tt

find_fd-IsWithin : (fd : ℕ) (es : List FdEntry) → IsWithin es → IsFound (find_fd fd es)
unfolding find_fd
find_fd-IsWithin fd [] within = tt
find_fd-IsWithin fd (e ∷ es) within =
    IsFound-or (find_fd fd es) e (e.index == fd) (find_fd-IsWithin fd es within.1) within.0

pub find_target-IsTable : (fd : ℕ) (t : FdTable) → IsTable t → IsFoundIn (find_target fd t)
unfolding find_target
find_target-IsTable fd null h = tt
find_target-IsTable fd freed h = tt
find_target-IsTable fd (table es tail) h = find_fd-IsWithin fd es h

module _ (behind : ℕ → OpEntry) where
  -- An outcome, where the operation returns.
  abbrev pub Fine : {R : Type 0} → (R → Vsfs) → Run R → Type 0
  Fine st fault = Unit {0}
  Fine st (done r) = IsSafe behind (st r)

  pub Fine-if :
      {R : Type 0}
      → (st : R → Vsfs) (b : Bool) (x y : Run R) → Fine st x
      → Fine st y
      → Fine st (if b then x else y)
  Fine-if st true x y h k = h
  Fine-if st false x y h k = k

  pub IsSafe-if :
      {R : Type 0}
      → (st : R → Vsfs) (b : Bool) (x y : R) → IsSafe behind (st x)
      → IsSafe behind (st y)
      → IsSafe behind (st (if b then x else y))
  IsSafe-if st true x y h k = h
  IsSafe-if st false x y h k = k

  pub Fine-target :
      {R : Type 0}
      → (st : R → Vsfs) (o : Run (Option FdEntry)) (miss : Run R) (k : FdEntry → Run R)
      → IsFoundIn o
      → Fine st miss
      → ((e : FdEntry) → e.ptr < 341 → Fine st (k e))
      → Fine st (elim o [ fault ↦ fault | done none ↦ miss | done (some e) ↦ k e ])
  Fine-target st fault miss k h m kk = tt
  Fine-target st (done none) miss k h m kk = m
  Fine-target st (done (some e)) miss k h m kk = kk e h

  pub Fine-guarded :
      {R : Type 0}
      → (st : R → Vsfs) (b : Bool) (s : Vsfs) (k : Vsfs → R) → IsSafe behind (st (k s))
      → Fine st (elim (if b then fault else done s) [ fault ↦ fault | done t ↦ done (k t) ])
  Fine-guarded st true s k h = tt
  Fine-guarded st false s k h = h

  pub Fine-bind :
      {A R : Type 0}
      → (st : R → Vsfs) (o : Run A) (k : A → R) → ((a : A) → IsSafe behind (st (k a)))
      → Fine st (do a ← o; done (k a))
  Fine-bind st fault k h = tt
  Fine-bind st (done a) k h = h a

  pub IsSafe-option :
      {A R : Type 0}
      → (st : R → Vsfs) (o : Option A) (x : R) (k : A → R) → IsSafe behind (st x)
      → ((a : A) → IsSafe behind (st (k a)))
      → IsSafe behind (st (elim o [ none ↦ x | some a ↦ k a ]))
  IsSafe-option st none x k h g = h
  IsSafe-option st (some a) x k h g = g a

  -- The operation returned.
  pub Fine-done :
      {R : Type 0}
      → (st : R → Vsfs) (o : Run R) (r : R) → Fine st o
      → o ≡ done r
      → IsSafe behind (st r)
  Fine-done st o r h p = subst (Fine st) p h

  pub put_entry :
      (s : Vsfs) (p : ℕ) (op : OpEntry)
      → p < 341
      → IsSafe behind s
      → (i : ℕ) → 341 ≤ i
      → put s.op_ftable p op i ≡ behind i
  put_entry s p op low safe i h =
      let e : (i == p) ≡ false = ne→== i p (omega arith) in rw e (safe.kept i h)

  -- A change of one entry, and of what is not the table.
  pub IsSafe-put :
      (s : Vsfs) (p : ℕ) (op : OpEntry) (s' : Vsfs)
      → p < 341
      → s'.op_counter ≡ s.op_counter
      → s'.fd_table ≡ s.fd_table
      → s'.op_ftable ≡ put s.op_ftable p op
      → IsSafe behind s
      → IsSafe behind s'
  IsSafe-put s p op s' low counter fds ops safe = record {
    counter = subst (λ c. c ≤ 341) (sym counter) safe.counter;
    fds = subst IsTable (sym fds) safe.fds;
    kept = λ i h. ap (λ f. f i) ops ∙ put_entry s p op low safe i h;
  }

  pub IsSafe-same :
      (s s' : Vsfs)
      → s'.op_counter ≡ s.op_counter
      → s'.fd_table ≡ s.fd_table
      → s'.op_ftable ≡ s.op_ftable
      → IsSafe behind s
      → IsSafe behind s'
  IsSafe-same s s' counter fds ops safe = record {
    counter = subst (λ c. c ≤ 341) (sym counter) safe.counter;
    fds = subst IsTable (sym fds) safe.fds;
    kept = λ i h. ap (λ f. f i) ops ∙ safe.kept i h;
  }
