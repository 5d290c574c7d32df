-- ===== src/Machine/Reached.antt =====
-- What no sequence of calls leaves: the 341 entries of the open file table.
use test_vsfs.Prelude.{ℕ, ◌≤◌, ◌≡◌, refl, ap, subst, Bool, true, false, ◌==◌, if◌then◌else◌}
use test_vsfs.State.{OpEntry, Vsfs}
use test_vsfs.Machine.{
  System, Process, enter, Call, creates, opens, closes, writes, reads, seeks, Reach, here, next,
}
use test_vsfs.Machine.Safe.{IsTable, IsSafe, Fine-done}
use test_vsfs.Machine.Files.{vsfs_write-Fine, vsfs_read-Fine, vsfs_lseek-Fine, vsfs_creat-IsSafe}
use test_vsfs.Machine.Sessions.{vsfs_open-Fine}
use test_vsfs.Machine.Closing.{vsfs_close-Fine}

-- The counter is within the table, and every descriptor of every process names an entry of it.
abbrev pub IsContained : System → Type 0
IsContained sys = (sys.op_counter ≤ 341) × ((p : ℕ) → IsTable (sys.process p).fd_table)

Call-IsSafe : (behind : ℕ → OpEntry) (s s' : Vsfs) → Call s s' → IsSafe behind s → IsSafe behind s'
Call-IsSafe behind s s' (creates env name n r e) safe =
    subst (λ q. IsSafe behind q) (ap (λ q. q.0) e) (vsfs_creat-IsSafe behind env name n s safe)
Call-IsSafe behind s s' (opens env path flags r e) safe =
    Fine-done behind (λ q. q.0) _ _ (vsfs_open-Fine behind env path flags s safe) e
Call-IsSafe behind s s' (closes fd r e) safe =
    Fine-done behind (λ q. q.0) _ _ (vsfs_close-Fine behind fd s safe) e
Call-IsSafe behind s s' (writes now fd buf n r e) safe =
    Fine-done behind (λ q. q.0) _ _ (vsfs_write-Fine behind now fd buf n s safe) e
Call-IsSafe behind s s' (reads now fd n buf out r e) safe =
    Fine-done behind (λ q. q.0) _ _ (vsfs_read-Fine behind now fd n buf s safe) e
Call-IsSafe behind s s' (seeks fd offset whence r e) safe =
    Fine-done behind (λ q. q.0) _ _ (vsfs_lseek-Fine behind fd offset whence s safe) e

IsTable-if :
    (b : Bool) (x y : Process)
    → IsTable x.fd_table
    → IsTable y.fd_table
    → IsTable (if b then x else y).fd_table
IsTable-if true x y h k = h
IsTable-if false x y h k = k

-- Where the counter of `start` is within the table, and every descriptor of every process names
-- one of its 341 entries, this still holds after any calls of any processes, and the memory behind
-- the table is as it was in `start`.
pub Reach-IsContained :
    (start sys : System)
    → IsContained start
    → Reach start sys
    → IsContained sys × ((i : ℕ) → 341 ≤ i → sys.op_ftable i ≡ start.op_ftable i)
Reach-IsContained start sys ok here = (ok, λ i h. refl)
Reach-IsContained start sys ok (next {sys = t} calls p s call) =
    let before = Reach-IsContained start t ok calls in
    let safe : IsSafe start.op_ftable (enter t p) = record {
      counter = (before.0).0;
      fds = (before.0).1 p;
      kept = before.1;
    } in
    let after : IsSafe start.op_ftable s = Call-IsSafe start.op_ftable (enter t p) s call safe in
    (
      (after.counter, λ q. IsTable-if (q == p) _ (t.process q) after.fds ((before.0).1 q)),
      after.kept,
    )
