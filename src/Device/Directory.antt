-- ===== src/Device/Directory.antt =====
-- The root directory of src/inc/vsfsio_spdk.h: its blocks are read one by one into a buffer. The
-- searches for a name, and `vsfs_creat`.
pub mod Search
pub mod Creat
use test_vsfs.Prelude.{
  ℕ, zero, suc, ◌+◌, ◌*◌, ◌/◌, ◌%◌, ◌^◌, Bool, true, false, Option, none, some, List, leb, ltb,
  ◌==◌, if◌then◌else◌, length, ◌||◌, not,
}
use test_vsfs.Word.{ℤ, pos, minus_one, u32, sub32}
use test_vsfs.Memory.{Memory, load16, store16, str_eq, strcpy}
use test_vsfs.Layout.{Inode, Cached, filename_len, put}
use test_vsfs.Bitmap.{get_free_inode}
use test_vsfs.Bitmap as Maps
use test_vsfs.State.{Run, done, fault, Env}
use test_vsfs.Directory.{entry_addr, name_addr, Slot, new_slot}
use test_vsfs.Spdk.{Nvme}
use test_vsfs.Device.{read_block, write_block}
use test_vsfs.Device.State.{InodeReg, null_reg, cached_reg, stale_reg, Mounted, Scratch}
use test_vsfs.Device.Alloc.{alloc_block}

module _ (nvme : Nvme) (ofs_dregion : ℕ) (ns : nvme.Ns) where
  -- The loop of `vsfs_open` and `vsfs_stat`: the inode of the first entry with the name. Each round
  -- reads its block into `buf`.
  unfoldable pub find_entry : Inode → (buf : Memory) → List ℕ → (rounds i : ℕ) → Option ℕ
  find_entry root buf name zero i = none
  find_entry root buf name (suc rounds) i =
      let offset = root.l1 (i / 16) in
      let block = read_block nvme ofs_dregion ns buf offset in
      let j = sub32 i (u32 (16 * offset)) in
      let rest = find_entry root block name rounds (i + 1) in
      if str_eq block (name_addr 0 j) name then some (load16 block (entry_addr 0 j)) else rest

  -- The loop of `vsfs_creat`: a block is read with its first entry.
  unfoldable pub name_taken : Inode → (buf : Memory) → List ℕ → (rounds i : ℕ) → Bool
  name_taken root buf name zero i = false
  name_taken root buf name (suc rounds) i =
      let block =
        if i % 16 == 0 then read_block nvme ofs_dregion ns buf (root.l1 (i / 16)) else buf in
      str_eq block (name_addr 0 (i % 16)) name || name_taken root block name rounds (i + 1)

module _ (nvme : Nvme) where
  -- From the label `adding_entry` to the end: the inodes are unmapped with `sb_cached`, and
  -- `inode_reg` stays.
  unfoldable pub add_entry :
      Slot
      → Scratch
      → (buf : Memory) → (f_inode : ℕ) → List ℕ
      → (block_num now : ℕ) → Mounted nvme.Ns
      → Mounted nvme.Ns
  add_entry slot scratch buf f_inode name block_num now s =
      let root = slot.root in
      let cached = slot.cached in
      let ofs = cached.sbi.ofs_dregion in
      let entries = read_block nvme ofs s.ns buf slot.f_dblock in
      let named =
        strcpy (store16 entries (entry_addr 0 slot.d_entry) f_inode) (name_addr 0 slot.d_entry)
          name in
      let ns = write_block nvme ofs s.ns named slot.f_dblock in
      let with_root =
        put cached.inode_reg 0
          (record root { size = u32 (root.size + 1); atime = now; mtime = now }) in
      let old = with_root f_inode in
      let fresh = record old {
        mode = 7;
        blocks = 0;
        size = 0;
        atime = now;
        ctime = now;
        mtime = now;
      } in
      let filled =
        (alloc_block nvme ofs fresh cached ns scratch.ptr_reg scratch.l3_ptr_reg block_num).0 in
      let grown = filled.here.inode in
      let cached' = filled.here.cached in
      record s {
        ns = filled.ns;
        cached = record cached' {
          inode_reg = put with_root f_inode (record grown { blocks = u32 block_num; size = 0 });
        };
        inode_reg = stale_reg;
        cached_mapped = false;
      }

  -- `vsfs_creat` once `sb_cached` is open. `buf` is `tmp_dir_reg`.
  unfoldable pub creat_mapped :
      Scratch
      → (buf : Memory) → (now : ℕ) → List ℕ
      → (block_num : ℕ) → Mounted nvme.Ns
      → Mounted nvme.Ns × ℤ
  creat_mapped scratch buf now name block_num s =
      let root = s.cached.inode_reg 0 in
      let closed = record s { inode_reg = stale_reg; cached_mapped = false } in
      let (cached, f_inode) = get_free_inode s.cached in
      if name_taken nvme s.cached.sbi.ofs_dregion s.ns root buf name root.size 0
      then (closed, minus_one)
      else elim (new_slot cached root) [
        | none ↦ (record closed { cached = Maps.put_inode cached f_inode }, minus_one)
        | some slot ↦ (add_entry slot scratch buf f_inode name block_num now s, pos 0)
      ]

  -- `vsfs_creat` from the test of `inode_reg` on: where it is not null it is used as it is.
  unfoldable pub creat_in :
      InodeReg
      → Scratch
      → (buf : Memory) → (now : ℕ) → List ℕ
      → (block_num : ℕ) → Mounted nvme.Ns
      → Run (Mounted nvme.Ns × ℤ)
  creat_in stale_reg scratch buf now name block_num s = fault
  creat_in null_reg scratch buf now name block_num s = done (
      creat_mapped scratch buf now name block_num
        (record s { inode_reg = cached_reg; cached_mapped = true }))
  creat_in cached_reg scratch buf now name block_num s =
      done (creat_mapped scratch buf now name block_num (record s { cached_mapped = true }))

  unfoldable pub vsfs_creat :
      Env
      → Scratch
      → (buf : Memory) → (file_name : List ℕ) → (block_num : ℕ) → Mounted nvme.Ns
      → Run (Mounted nvme.Ns × ℤ)
  vsfs_creat env scratch buf file_name block_num s =
      if leb filename_len (length file_name)
      then done (s, minus_one)
      else if not (s.cached_mapped || env.cached_opens)
      then done (s, minus_one)
      else creat_in s.inode_reg scratch buf env.now file_name block_num s
