-- ===== src/Examples/Descriptors.antt =====
-- Searches, creations and descriptors of one process.
use test_vsfs.Prelude.{
  ℕ, ◌%◌, ◌≡◌, ◌≢◌, ◌≤◌, ap, if◌then◌else◌, ◌==◌, refl, arith, List, [], ◌∷◌, Bool, true, false,
  some, none,
}
use Prim.{tt}
use test_vsfs.Word.{pos, minus_one}
use test_vsfs.Memory.Texts.{IsText}
use test_vsfs.Memory.{str_eq, load16}
use test_vsfs.Shell.{first_char}
use test_vsfs.Bitmap.{get_free_inode, get_first_free_bit}
use test_vsfs.State.{FdEntry, Vsfs, done, fault, at_end, null, table}
use test_vsfs.Bitmap.Bits.{bit-zero}
use test_vsfs.Bitmap.Search.{free_at}
use test_vsfs.Directory.{find_entry, vsfs_creat}
use test_vsfs.Directory.Search.{has_name, IsLookup, find_entry-IsLookup}
use test_vsfs.Directory.Creat.{vsfs_creat_full}
use test_vsfs.Directory.Found.{find_entry-vsfs_creat}
use test_vsfs.Session.Open.{vsfs_open, discard_table, close_maps, last_entry}
use test_vsfs.Session.Open.Laws.{
  IsReachable, HasMemory, mapped, opened, vsfs_open_missing, vsfs_open-behind,
}
use test_vsfs.Session.Close.{vsfs_close}
use test_vsfs.Session.Close.Laws.{IsListed, IsUndone, vsfs_close_fault}
use test_vsfs.Session.Undo.{vsfs_close-vsfs_open}
use test_vsfs.Session.Stale.{vsfs_open-IsCrossed}
use test_vsfs.Machine.Safe.{IsTable}
use test_vsfs.Machine.{System, leave, Reach, here, next, opens}
use test_vsfs.Machine.Reached.{IsContained, Reach-IsContained}
use test_vsfs.Examples.{small_root, small_cached, listing, only_fd, small_state, all_well}

abbrev name_a : List ℕ
name_a = b'a' ∷ []

abbrev name_b : List ℕ
name_b = b'b' ∷ []

find_entry-IsLookup_example : IsLookup listing name_a 1 (find_entry small_root listing name_a 1 0)
find_entry-IsLookup_example =
    find_entry-IsLookup listing name_a small_root (omega arith) (λ k h. refl)

-- No inode is free.
abbrev full_state : Vsfs
full_state = record small_state { cached = record small_cached { ibitmap = λ _. 0 } }

no_inode : (j : ℕ) → free_at full_state.cached.ibitmap j ≡ 0
unfolding free_at
no_inode j = bit-zero (j % 32)

vsfs_creat_full_example :
    let (s', result) = vsfs_creat all_well name_b 0 full_state in
    let root = s'.disk.inode_reg 0 in
    (result ≡ pos 0)
    × (root.size ≡ 0)
    × (root.blocks ≡ 0)
    × (find_entry root s'.disk.data_reg name_a root.size 0 ≡ none)
vsfs_creat_full_example =
    vsfs_creat_full all_well name_b name_a full_state (omega arith) refl refl
      (unfold has_name str_eq in refl) (omega arith) refl (λ c. omega arith) (λ j h. no_inode j)

inode_three : (get_free_inode small_cached).1 ≡ 3
unfolding get_free_inode get_first_free_bit
inode_three = refl

one_byte-IsText : (c : ℕ) → c ≢ 0 → IsText (c ∷ [])
unfolding IsText
one_byte-IsText c h = (h, tt)

name_a-apart : name_a ≢ name_b
name_a-apart e = let same : b'a' ≡ b'b' = ap first_char e in omega (arith, same)

find_entry-vsfs_creat_example :
    let (s', result) = vsfs_creat all_well name_b 2 small_state in
    let root = s'.disk.inode_reg 0 in
    (result ≡ pos 0)
    × (find_entry root s'.disk.data_reg name_b root.size 0 ≡ some (get_free_inode small_cached).1)
    × (find_entry root s'.disk.data_reg name_a root.size 0
        ≡ find_entry small_root listing name_a 1 0)
find_entry-vsfs_creat_example =
    find_entry-vsfs_creat all_well name_b 2 small_state (omega arith) (omega arith) refl refl name_a
      (omega arith) (one_byte-IsText b'b' (λ e. omega (arith, e)))
      (one_byte-IsText b'a' (λ e. omega (arith, e))) name_a-apart (unfold has_name str_eq in refl)
      (omega arith) (omega arith) (λ k h. refl) (omega (arith, inode_three))
      (omega (arith, inode_three))

small_state-IsReachable : IsReachable all_well name_a small_state
small_state-IsReachable = record { short = omega arith; optab = refl; sb = refl; cached = refl }

small_state-IsReachable_b : IsReachable all_well name_b small_state
small_state-IsReachable_b = record { short = omega arith; optab = refl; sb = refl; cached = refl }

all_well-HasMemory : HasMemory all_well
all_well-HasMemory = record { entry = refl; path = refl; step = refl }

small_state-opened :
    vsfs_open all_well name_a 2 small_state
    ≡ done (opened all_well 2 3 only_fd [] small_state, pos 2)
unfolding last_entry
small_state-opened =
    vsfs_open-behind all_well name_a 2 small_state small_state-IsReachable only_fd []
      all_well-HasMemory 3 refl (unfold find_entry str_eq load16 in refl) (omega arith)

discard_table-IsReachable : IsReachable all_well name_a (discard_table (mapped small_state))
unfolding discard_table close_maps
discard_table-IsReachable = record { short = omega arith; optab = refl; sb = refl; cached = refl }

vsfs_open_missing_example :
    (vsfs_open all_well name_b 2 small_state ≡ done (discard_table (mapped small_state), minus_one))
    × (vsfs_open all_well name_a 0 (discard_table (mapped small_state)) ≡ fault)
vsfs_open_missing_example =
    vsfs_open_missing all_well name_b 2 small_state small_state-IsReachable_b only_fd []
      all_well-HasMemory all_well name_a 0 refl (unfold find_entry str_eq in refl)
      discard_table-IsReachable

vsfs_close-vsfs_open_example :
    let state = opened all_well 2 3 only_fd [] small_state in
    (vsfs_open all_well name_a 2 small_state ≡ done (state, pos 2))
    × (s' : Vsfs) × (vsfs_close 2 state ≡ done (s', pos 0))
    × IsUndone only_fd [] 1 state s'
unfolding last_entry
vsfs_close-vsfs_open_example =
    vsfs_close-vsfs_open all_well name_a 2 3 only_fd [] small_state small_state-IsReachable
      all_well-HasMemory refl refl (unfold find_entry str_eq load16 in refl) (omega arith)
      (omega arith) ((λ e. omega arith), tt)

only_fd-IsListed : IsListed only_fd [] at_end small_state
only_fd-IsListed = record { listed = refl; path = refl; optab = refl }

abbrev second_fd : FdEntry
second_fd = record only_fd { index = 2; ptr = 1 }

abbrev two_fds : Vsfs
two_fds = record small_state { op_counter = 2; fd_table = table (only_fd ∷ second_fd ∷ []) at_end }

two_fds-IsListed : IsListed only_fd (second_fd ∷ []) at_end two_fds
two_fds-IsListed = record { listed = refl; path = refl; optab = refl }

two_fds-IsReachable : IsReachable all_well name_a two_fds
two_fds-IsReachable = record { short = omega arith; optab = refl; sb = refl; cached = refl }

vsfs_open-IsCrossed_example :
    (s1 : Vsfs) × (s2 : Vsfs) × (e : FdEntry) × (vsfs_close 1 two_fds ≡ done (s1, pos 0))
    × (vsfs_open all_well name_a 2 s1 ≡ done (s2, pos 3))
    × (s2.fd_table ≡ table (second_fd ∷ e ∷ []) at_end)
    × (1 ≡ e.ptr)
    × (s2.op_ftable 1 ≡ record { offset = 0; inode_nr = 3; ptr_counter = 1; lock = 0 })
unfolding last_entry
vsfs_open-IsCrossed_example =
    vsfs_open-IsCrossed only_fd second_fd [] two_fds all_well name_a 2 3 two_fds-IsListed refl refl
      (omega arith) two_fds-IsReachable all_well-HasMemory (unfold find_entry str_eq load16 in refl)

vsfs_close_fault_example : vsfs_close 5 small_state ≡ fault
unfolding last_entry
vsfs_close_fault_example =
    vsfs_close_fault 5 only_fd [] at_end small_state only_fd-IsListed (λ e. omega arith)
      (λ e. omega arith)

-- Process 0 has `small_state`, and no other process has opened a file.
abbrev small_system : System
small_system = record {
  disk = small_state.disk;
  cached = small_state.cached;
  op_counter = small_state.op_counter;
  op_ftable = small_state.op_ftable;
  process = λ p. record {
    fd_table = if p == 0 then small_state.fd_table else null;
    sb_mapped = small_state.sb_mapped;
    cached_mapped = small_state.cached_mapped;
    optab_mapped = small_state.optab_mapped;
  };
}

own_or_null-IsTable : (b : Bool) → IsTable (if b then table (only_fd ∷ []) at_end else null)
own_or_null-IsTable true = (omega arith, tt)
own_or_null-IsTable false = tt

small_system-IsContained : IsContained small_system
small_system-IsContained = (omega arith, λ p. own_or_null-IsTable (p == 0))

abbrev open_twice : System
open_twice = leave small_system 0 (opened all_well 2 3 only_fd [] small_state)

open_twice-Reach : Reach small_system open_twice
open_twice-Reach =
    next here 0 (opened all_well 2 3 only_fd [] small_state)
      (opens all_well name_a 2 (pos 2) small_state-opened)

Reach-IsContained_example :
    IsContained open_twice × ((i : ℕ) → 341 ≤ i → open_twice.op_ftable i ≡ small_system.op_ftable i)
Reach-IsContained_example =
    Reach-IsContained small_system open_twice small_system-IsContained open_twice-Reach
