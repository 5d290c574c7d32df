-- ===== src/Device/Session.antt =====
-- `vsfs_open` and `vsfs_close` of src/inc/vsfsio_spdk.h. The list of descriptors is that of
-- src/inc/vsfsio.h; `fd_table` is null once it is freed.
pub mod Close
use test_vsfs.Prelude.{
  ℕ, ◌+◌, Bool, true, false, Option, none, some, List, [], ◌∷◌, leb, if◌then◌else◌, ◌||◌, length,
  not,
}
use test_vsfs.Word.{ℤ, pos, minus_one, u16}
use test_vsfs.Memory.{Memory}
use test_vsfs.Layout.{filename_len}
use test_vsfs.State.{
  FdEntry, Tail, at_end, FdTable, null, freed, table, Run, done, fault, ◌>>=◌, Env,
}
use test_vsfs.Session.{op_limit, o_rdwr}
use test_vsfs.Session.Open.{Added, given_up, added, add_fd, place_fd, touch_path}
use test_vsfs.Spdk.{Nvme}
use test_vsfs.Device.State.{
  OpEntry, InodeReg, null_reg, cached_reg, stale_reg, Mounted, Scratch, put_entry,
}
use test_vsfs.Device.Info.{get_inode_info}
use test_vsfs.Device.Directory.{find_entry}

module _ (nvme : Nvme) where
  -- The labels `free_fd_path`, `free_fd` and `free_sb_ca`.
  unfoldable pub discard_table : Mounted nvme.Ns → Mounted nvme.Ns
  discard_table s = record s { fd_table = null; optab_mapped = false }

  -- The end of `vsfs_open`, for a file that was found. Every call takes an entry of its own in the
  -- open file table.
  unfoldable pub finish_open :
      Env
      → Scratch
      → (flags target : ℕ) → List FdEntry
      → Tail
      → FdEntry
      → (ret : ℕ) → Mounted nvme.Ns
      → Mounted nvme.Ns × ℤ
  finish_open env scratch flags target head tail e ret s =
      let cached = s.cached in
      let file =
        get_inode_info nvme cached.sbi.ofs_dregion s.ns scratch.array scratch.ptr_reg
          scratch.l3_ptr_reg target (cached.inode_reg target) in
      let entry : OpEntry = record {
        offset = 0;
        inode_nr = target;
        ptr_counter = 1;
        lock = 0;
        file_ptr = file;
      } in
      let opened : FdEntry = record e {
        ptr = s.op_counter;
        path = 0 ∷ target ∷ [];
        flags = if leb flags o_rdwr then flags else e.flags;
      } in
      if leb op_limit s.op_counter then (discard_table s, minus_one) else (
        put_entry s.op_counter entry (record s {
          cached = record cached { inode_reg = touch_path env.now flags target cached.inode_reg };
          op_counter = u16 (s.op_counter + 1);
          fd_table = place_fd head tail opened;
        }),
        pos ret,
      )

  -- The search for the path, once the new entry is there. `buf` is `data_reg`.
  unfoldable pub open_entry :
      Env
      → Scratch
      → (buf : Memory) → List ℕ
      → (flags : ℕ) → List FdEntry
      → Tail
      → Added
      → Mounted nvme.Ns
      → Run (Mounted nvme.Ns × ℤ)
  open_entry env scratch buf pathname flags head tail (given_up ret) s = done (discard_table s, ret)
  open_entry env scratch buf pathname flags head tail (added e ret) s =
      let root = s.cached.inode_reg 0 in
      let found = find_entry nvme s.cached.sbi.ofs_dregion s.ns root buf pathname root.size 0 in
      let opened : Mounted nvme.Ns × ℤ = elim found [
        | none ↦ (discard_table s, minus_one)
        | some target ↦
            if env.step_alloc
            then finish_open env scratch flags target head tail e ret s
            else (discard_table s, pos ret)
      ] in
      elim s.inode_reg [ null_reg ↦ fault | stale_reg ↦ fault | cached_reg ↦ done opened ]

  unfoldable pub open_table :
      Env
      → Scratch
      → (buf : Memory) → List ℕ
      → (flags : ℕ) → FdTable
      → Mounted nvme.Ns
      → Run (Mounted nvme.Ns × ℤ)
  open_table env scratch buf pathname flags null s =
      if env.table_alloc
      then (do e ← add_fd env [] at_end; open_entry env scratch buf pathname flags [] at_end e s)
      else done (record s { optab_mapped = false }, minus_one)
  open_table env scratch buf pathname flags freed s = fault
  open_table env scratch buf pathname flags (table head tail) s = do
    e ← add_fd env head tail
    open_entry env scratch buf pathname flags head tail e s

  -- `if (!inode_reg) inode_reg = sb_cached->inode_reg`, where `sb_cached` is open.
  abbrev or_cached : InodeReg → InodeReg
  or_cached null_reg = cached_reg
  or_cached cached_reg = cached_reg
  or_cached stale_reg = stale_reg

  -- `vsfs_open`: each object that is not mapped yet is opened first.
  unfoldable pub vsfs_open :
      Env
      → Scratch
      → (buf : Memory) → (pathname : List ℕ) → (flags : ℕ) → Mounted nvme.Ns
      → Run (Mounted nvme.Ns × ℤ)
  vsfs_open env scratch buf pathname flags s =
      if leb filename_len (length pathname)
      then done (s, minus_one)
      else if not (s.optab_mapped || env.optab_opens)
      then done (s, minus_one)
      else if not (s.cached_mapped || env.cached_opens)
      then done (record s { optab_mapped = false }, minus_one)
      else open_table env scratch buf pathname flags s.fd_table (record s {
        optab_mapped = true;
        cached_mapped = true;
        inode_reg = or_cached s.inode_reg;
      })
