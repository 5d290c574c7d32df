-- ===== src/Directory.antt =====
-- The root directory of src/inc/vsfsio.h: its entries of 256 bytes in blocks of the data region,
-- their search, and `vsfs_creat`.
pub mod Search
pub mod Creat
pub mod Added
pub mod Found
use test_vsfs.Prelude.{
  ℕ, zero, suc, ◌+◌, ◌-◌, ◌*◌, ◌/◌, ◌%◌, ◌^◌, Bool, true, false, Option, none, some, List, ltb, leb,
  ◌==◌, if◌then◌else◌, ◌||◌, length, not,
}
use test_vsfs.Word.{ℤ, pos, minus_one, u32, sub32}
use test_vsfs.Memory.{Memory, load16, store16, str_eq, strcpy}
use test_vsfs.Layout.{
  Inode, Disk, Cached, block_size, sizeof_file_entry, filename_len, block_addr, put,
}
use test_vsfs.Bitmap.{get_free_inode, get_free_dblock, put_inode}
use test_vsfs.Blocks.{Alloc, alloc_block}
use test_vsfs.State.{Vsfs, Env}

-- `&data_reg[b].files[i]`; the name stands behind the inode's two bytes.
abbrev pub entry_addr : (b i : ℕ) → ℕ
entry_addr b i = block_addr b + i * sizeof_file_entry

abbrev pub name_addr : (b i : ℕ) → ℕ
name_addr b i = entry_addr b i + 2

-- The inner loop of the search of `vsfs_creat`, in block `i` from entry `j` on.
pub name_in_block : Memory → List ℕ → (i rounds j : ℕ) → Bool
name_in_block m name i zero j = false
name_in_block m name i (suc rounds) j =
    str_eq m (name_addr i j) name || name_in_block m name i rounds (j + 1)

-- The outer loop, over the blocks `i` up to `entry / 16`.
pub name_taken : Memory → List ℕ → (entry rounds i : ℕ) → Bool
name_taken m name entry zero i = false
name_taken m name entry (suc rounds) i =
    name_in_block m name i (if i == entry / 16 then entry - i * 16 else 16) 0
    || name_taken m name entry rounds (i + 1)

-- The loop of `vsfs_open` and `vsfs_stat`: the inode of the first entry with the name. The index
-- within a block is computed in 32 bits.
unfoldable pub find_entry : Inode → Memory → List ℕ → (rounds i : ℕ) → Option ℕ
find_entry root m name zero i = none
find_entry root m name (suc rounds) i =
    let offset = root.l1 (i / 16) in
    let j = sub32 i (u32 (16 * offset)) in
    let rest = find_entry root m name rounds (i + 1) in
    if str_eq m (name_addr offset j) name then some (load16 m (entry_addr offset j)) else rest

-- Where a new entry goes: its block and place, after a block was added to the directory if the
-- entries fill the blocks that it has. `none` if there are 49 blocks already.
pub record Slot : Type 0 where
  pub cached : Cached
  pub root : Inode
  pub f_dblock : ℕ
  pub d_entry : ℕ

unfoldable pub new_slot : Cached → Inode → Option Slot
new_slot cached root =
    if ltb root.size (u32 (root.blocks * 16))
    then some (record {
      cached = cached;
      root = root;
      f_dblock = root.size / 16;
      d_entry = root.size - root.size / 16 * 16;
    })
    else if ltb root.blocks 49
    then (let (cached', f_dblock) = get_free_dblock cached in
        some (record {
          cached = cached';
          root = record root {
            l1 = put root.l1 root.blocks f_dblock;
            blocks = u32 (root.blocks + 1);
          };
          f_dblock = f_dblock;
          d_entry = sub32 root.size (u32 (root.blocks * 16));
        }))
    else none

-- From the label `adding_entry` to the end. `sb_cached` is null afterwards.
unfoldable pub add_entry : Slot → (f_inode : ℕ) → List ℕ → (block_num now : ℕ) → Vsfs → Vsfs
add_entry slot f_inode name block_num now s =
    let root = slot.root in
    let disk = s.disk in
    let mem =
      strcpy (store16 disk.data_reg (entry_addr slot.f_dblock slot.d_entry) f_inode)
        (name_addr slot.f_dblock slot.d_entry) name in
    let with_root =
      put disk.inode_reg 0 (record root { size = u32 (root.size + 1); atime = now; mtime = now }) in
    let old = with_root f_inode in
    let fresh = record old {
      mode = 7;
      blocks = 0;
      size = 0;
      atime = now;
      ctime = now;
      mtime = now;
    } in
    let filled = (alloc_block fresh mem slot.cached block_num).0 in
    let grown = filled.inode in
    record s {
      disk = record {
        inode_reg =
            put with_root f_inode
              (record grown { blocks = u32 block_num; size = u32 (block_num * 4096) });
        data_reg = filled.mem;
      };
      cached = filled.cached;
      cached_mapped = false;
    }

-- `vsfs_creat` once both objects are open.
unfoldable pub creat_mapped : (now : ℕ) → List ℕ → (block_num : ℕ) → Vsfs → Vsfs × ℤ
unfolding new_slot
creat_mapped now name block_num s =
    let root = s.disk.inode_reg 0 in
    let (cached, f_inode) = get_free_inode s.cached in
    if name_taken s.disk.data_reg name root.size (root.size / 16 + 1) 0
    then (s, minus_one)
    else elim (new_slot cached root) [
      | none ↦ (record s { cached = put_inode cached f_inode }, minus_one)
      | some slot ↦ (add_entry slot f_inode name block_num now s, pos 0)
    ]

unfoldable pub vsfs_creat : Env → (file_name : List ℕ) → (block_num : ℕ) → Vsfs → Vsfs × ℤ
unfolding creat_mapped
vsfs_creat env file_name block_num s =
    if leb filename_len (length file_name)
    then (s, minus_one)
    else if not env.sb_opens
    then (s, minus_one)
    else if not env.cached_opens
    then (s, minus_one)
    else creat_mapped env.now file_name block_num s
