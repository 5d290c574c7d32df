-- ===== src/Session/Open/Laws.antt =====
-- `vsfs_open` behind an entry that is there, and where it fails.
use test_vsfs.Prelude.{
  ℕ, ◌+◌, ◌<◌, ◌≡◌, refl, true, false, Option, none, some, List, [], ◌∷◌, ◌++◌, leb, ◌||◌,
  if◌then◌else◌, length, lt→leb, ◌∙◌, ap,
}
use test_vsfs.Word.{pos, minus_one, u16}
use test_vsfs.Layout.{put}
use test_vsfs.Directory.{find_entry}
use test_vsfs.State.{FdEntry, at_end, dangling, freed, table, Vsfs, done, fault, Env}
use test_vsfs.Session.{o_rdwr}
use test_vsfs.Session.Open.{
  fresh_entry, last_entry, added, add_behind, add_fd, place_fd, touch_path, discard_table,
  finish_open, open_entry, open_table, vsfs_open,
}

-- The name is short enough, and each shared object is mapped or opens.
pub record IsReachable (env : Env) (pathname : List ℕ) (s : Vsfs) : Type 0 where
  pub short : length pathname < 254
  pub optab : (s.optab_mapped || env.optab_opens) ≡ true
  pub sb : (s.sb_mapped || env.sb_opens) ≡ true
  pub cached : (s.cached_mapped || env.cached_opens) ≡ true

-- Every `malloc` succeeds.
pub record HasMemory (env : Env) : Type 0 where
  pub entry : env.entry_alloc ≡ true
  pub path : env.path_alloc ≡ true
  pub step : env.step_alloc ≡ true

-- What the search for the path gives.
abbrev pub looked_up : List ℕ → Vsfs → Option ℕ
looked_up pathname s =
    let root = s.disk.inode_reg 0 in find_entry root s.disk.data_reg pathname root.size 0

abbrev pub mapped : Vsfs → Vsfs
mapped s = record s { optab_mapped = true; sb_mapped = true; cached_mapped = true }

-- The entry that `vsfs_open` puts behind the list `h ∷ hs`.
abbrev pub new_fd : Env → (flags target : ℕ) → (h : FdEntry) → List FdEntry → Vsfs → FdEntry
new_fd env flags target h hs s = record {
  index = u16 ((last_entry h hs).index + 1);
  ptr = s.op_counter;
  path = 0 ∷ target ∷ [];
  flags = if leb flags o_rdwr then flags else env.stale_flags;
}

-- The state after an open.
abbrev pub opened : Env → (flags target : ℕ) → (h : FdEntry) → List FdEntry → Vsfs → Vsfs
opened env flags target h hs s =
    let disk = s.disk in
    record (mapped s) {
      disk = record disk { inode_reg = touch_path env.now flags target disk.inode_reg };
      op_ftable =
          put s.op_ftable s.op_counter
            (record { offset = 0; inode_nr = target; ptr_counter = 1; lock = 0 });
      op_counter = u16 (s.op_counter + 1);
      fd_table = table ((h ∷ hs) ++ new_fd env flags target h hs s ∷ []) at_end;
    }

module _ (env : Env) (pathname : List ℕ) (flags : ℕ) (s : Vsfs)
    (is : IsReachable env pathname s) where
  vsfs_open-table :
      vsfs_open env pathname flags s ≡ open_table env pathname flags s.fd_table (mapped s)
  unfolding vsfs_open
  vsfs_open-table =
      let a : leb 254 (length pathname) ≡ false = lt→leb _ _ is.short in
      simp (a, is.optab, is.sb, is.cached) refl

  -- With `fd_table` left over from a table that was freed, `vsfs_open` uses it.
  vsfs_open_freed : s.fd_table ≡ freed → vsfs_open env pathname flags s ≡ fault
  unfolding open_table
  vsfs_open_freed e =
      vsfs_open-table ∙ ap (λ t. open_table env pathname flags t (mapped s)) e ∙ refl

  -- The same where the last entry was closed: `vsfs_open` goes to the tail that was freed.
  pub vsfs_open_dangling :
      (h : FdEntry) (hs : List FdEntry)
      → s.fd_table ≡ table (h ∷ hs) dangling
      → vsfs_open env pathname flags s ≡ fault
  unfolding open_table add_fd
  vsfs_open_dangling h hs e =
      vsfs_open-table ∙ ap (λ t. open_table env pathname flags t (mapped s)) e

module _ (env : Env) (pathname : List ℕ) (flags : ℕ) (s : Vsfs) (is : IsReachable env pathname s)
    (h : FdEntry) (hs : List FdEntry) (memory : HasMemory env) where
  abbrev e : FdEntry
  e = fresh_entry env ((last_entry h hs).index + 1)

  add_fd-behind : add_fd env (h ∷ hs) at_end ≡ done (added e ((last_entry h hs).index + 1))
  unfolding add_fd add_behind
  add_fd-behind = simp (memory.entry, memory.path) refl

  vsfs_open-entry :
      s.fd_table ≡ table (h ∷ hs) at_end
      → vsfs_open env pathname flags s
        ≡ done (
            open_entry env pathname flags
              (h ∷ hs)
              at_end
              (added e ((last_entry h hs).index + 1))
              (mapped s))
  unfolding open_table add_fd add_behind
  vsfs_open-entry t =
      vsfs_open-table env pathname flags s is
      ∙ ap (λ t. open_table env pathname flags t (mapped s)) t
      ∙ simp (memory.entry, memory.path) refl

  -- For a process that has descriptors, where the objects open and every `malloc` succeeds,
  -- `vsfs_open` of a path that is not found is an error; the descriptor table is freed with it,
  -- and the next `vsfs_open`, where the objects open for it, is a fault.
  pub vsfs_open_missing :
      (env' : Env) (pathname' : List ℕ) (flags' : ℕ)
      → s.fd_table ≡ table (h ∷ hs) at_end
      → looked_up pathname s ≡ none
      → IsReachable env' pathname' (discard_table (mapped s))
      → (vsfs_open env pathname flags s ≡ done (discard_table (mapped s), minus_one))
        × (vsfs_open env' pathname' flags' (discard_table (mapped s)) ≡ fault)
  unfolding open_entry discard_table
  vsfs_open_missing env' pathname' flags' t missing is' = (
    vsfs_open-entry t ∙ rw (missing, open_entry) refl,
    vsfs_open_freed env' pathname' flags' (discard_table (mapped s)) is' refl,
  )

  -- Behind the descriptors that a process has, `vsfs_open` of a file that exists adds one with the
  -- next index, for a new entry of the open file table at offset 0, and returns the index; the
  -- times of the root and of the file are set by the flags. This holds while the open file table
  -- has less than 341 entries, the name is short enough, the objects open and every `malloc`
  -- succeeds.
  pub vsfs_open-behind :
      (target : ℕ)
      → s.fd_table ≡ table (h ∷ hs) at_end
      → looked_up pathname s ≡ some target
      → s.op_counter < 341
      → vsfs_open env pathname flags s
        ≡ done (opened env flags target h hs s, pos ((last_entry h hs).index + 1))
  unfolding open_entry finish_open place_fd
  vsfs_open-behind target t found room =
      let free : leb 341 s.op_counter ≡ false = lt→leb _ _ room in
      vsfs_open-entry t ∙ rw (found, open_entry) (simp (memory.step, free) refl)
