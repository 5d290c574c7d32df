-- ===== src/Blocks.antt =====
-- The block map of an inode in src/inc/vsfsio.h: 49 direct pointers, 5 pointer blocks and one
-- block of pointer blocks. `__alloc_block` extends it.
pub mod Count
pub mod Direct
pub mod Given
pub mod Idle
pub mod Map
pub mod Return
pub mod Print
use test_vsfs.Prelude.{
  ℕ, zero, suc, ◌+◌, ◌-◌, ◌*◌, ◌/◌, ◌%◌, ◌^◌, Bool, true, false, ltb, leb, ◌==◌, if◌then◌else◌,
}
use test_vsfs.Word.{u16, u32, u64, sub32}
use test_vsfs.Memory.{Memory, load32, store32}
use test_vsfs.Layout.{
  Inode, Cached, block_size, pointer_per_block, level1_limit, level2_limit, pointer_addr, put,
}
use test_vsfs.Bitmap.{get_free_dblock}

-- The block that holds the `k`th 4 KiB of a file.
unfoldable pub file_block : Inode → Memory → ℕ → ℕ
file_block inode m k =
    if ltb k level1_limit
    then inode.l1 k
    else if ltb k level2_limit
    then load32 m (pointer_addr (inode.l2 ((k - level1_limit) / 1024)) ((k - level1_limit) % 1024))
    else load32 m (
        pointer_addr (load32 m (pointer_addr (inode.l3 0) ((k - level2_limit) / 1024)))
          ((k - level2_limit) % 1024))

-- What the loops of `__alloc_block` change. `inode` is `inode_reg[inode_nr]`.
pub record Alloc : Type 0 where
  pub inode : Inode
  pub mem : Memory
  pub cached : Cached
  pub count_down : ℕ

-- A block for `l1[i]`, and the `i++, count_down--` of the loop.
unfoldable pub fill_l1 : ℕ → Alloc → Alloc
fill_l1 i s =
    let inode = s.inode in
    let (cached, b) = get_free_dblock s.cached in
    record s {
      inode = record inode { l1 = put inode.l1 i b; blocks = u32 (inode.blocks + 1) };
      cached = cached;
      count_down = s.count_down - 1;
    }

-- `rounds` is `VSFS_LEVEL1_LIMIT - i`.
unfoldable pub alloc_l1 : (rounds i : ℕ) → Alloc → Alloc
alloc_l1 zero i s = s
alloc_l1 (suc rounds) i s =
    let rest = alloc_l1 rounds (i + 1) (fill_l1 i s) in if ltb 0 s.count_down then rest else s

-- A block for pointer `j` of the pointer block `blk`.
unfoldable pub fill_pointer : (blk j : ℕ) → Alloc → Alloc
fill_pointer blk j s =
    let inode = s.inode in
    let (cached, b) = get_free_dblock s.cached in
    record s {
      inode = record inode { blocks = u32 (inode.blocks + 1) };
      mem = store32 s.mem (pointer_addr blk j) b;
      cached = cached;
      count_down = s.count_down - 1;
    }

-- `rounds` is `VSFS_POINTER_PER_BLOCK - j`.
unfoldable pub alloc_pointers : (blk rounds j : ℕ) → Alloc → Alloc
alloc_pointers blk zero j s = s
alloc_pointers blk (suc rounds) j s =
    let rest = alloc_pointers blk rounds (j + 1) (fill_pointer blk j s) in
    if ltb 0 s.count_down then rest else s

-- A new pointer block for `l2[i]`.
unfoldable pub new_l2 : ℕ → Alloc → Alloc
new_l2 i s =
    let inode = s.inode in
    let (cached, b) = get_free_dblock s.cached in
    record s { inode = record inode { l2 = put inode.l2 i b }; cached = cached }

unfoldable pub enter_l2 : (i start_block_l1 : ℕ) → Alloc → Alloc
unfolding new_l2
enter_l2 i start_block_l1 s = if start_block_l1 == 0 then new_l2 i s else s

-- `rounds` is `5 - i`.
unfoldable pub alloc_l2 : (rounds i start_block_l1 : ℕ) → Alloc → Alloc
alloc_l2 zero i start_block_l1 s = s
alloc_l2 (suc rounds) i start_block_l1 s =
    let entered = enter_l2 i start_block_l1 s in
    let blk = entered.inode.l2 i in
    let rest =
      alloc_l2 rounds (i + 1) 0
        (alloc_pointers blk (pointer_per_block - start_block_l1) start_block_l1 entered) in
    if ltb 0 s.count_down then rest else s

-- A new pointer block for entry `i` of the block `l3_ptr`.
pub new_l3 : (l3_ptr i : ℕ) → Alloc → Alloc
new_l3 l3_ptr i s =
    let (cached, b) = get_free_dblock s.cached in
    record s { mem = store32 s.mem (pointer_addr l3_ptr i) b; cached = cached }

pub enter_l3 : (l3_ptr i start_block_l1 : ℕ) → Alloc → Alloc
unfolding new_l3
enter_l3 l3_ptr i start_block_l1 s = if start_block_l1 == 0 then new_l3 l3_ptr i s else s

-- `rounds` is `1024 - i`.
pub alloc_l3 : (l3_ptr rounds i start_block_l1 : ℕ) → Alloc → Alloc
alloc_l3 l3_ptr zero i start_block_l1 s = s
alloc_l3 l3_ptr (suc rounds) i start_block_l1 s =
    let entered = enter_l3 l3_ptr i start_block_l1 s in
    let blk = load32 entered.mem (pointer_addr l3_ptr i) in
    let rest =
      alloc_l3 l3_ptr rounds (i + 1) 0
        (alloc_pointers blk (pointer_per_block - start_block_l1) start_block_l1 entered) in
    if ltb 0 s.count_down then rest else s

-- The block of `l3[0]`, taken when the file first reaches level 3.
unfoldable pub root_l3 : (real_blocks : ℕ) → Alloc → Alloc
root_l3 real_blocks s =
    let inode = s.inode in
    let (cached, b) = get_free_dblock s.cached in
    if real_blocks == 0
    then record s { inode = record inode { l3 = put inode.l3 0 b }; cached = cached }
    else s

-- The labels `level3` and `level2`, and the code above them.
unfoldable pub alloc_level3 : Alloc → Alloc
alloc_level3 s =
    let real_blocks = sub32 s.inode.blocks level2_limit in
    let rooted = root_l3 real_blocks s in
    let i = u16 (real_blocks / 1024) in
    alloc_l3 (rooted.inode.l3 0) (1024 - i) i (u16 (real_blocks % 1024)) rooted

unfoldable pub alloc_level2 : Alloc → Alloc
alloc_level2 s =
    let real_blocks = sub32 s.inode.blocks level1_limit in
    let i = u16 (real_blocks / 1024) in
    let done = alloc_l2 (5 - i) i (u16 (real_blocks % 1024)) s in
    if done.count_down == 0 then done else alloc_level3 done

unfoldable pub alloc_level1 : Alloc → Alloc
alloc_level1 s =
    let i = u16 s.inode.blocks in
    let done = alloc_l1 (level1_limit - i) i s in
    if done.count_down == 0 then done else alloc_level2 done

-- `__alloc_block`: the result is 1 where blocks are still asked for at the end, and 0 otherwise.
unfoldable pub alloc_block : Inode → Memory → Cached → (need_alloc : ℕ) → Alloc × ℕ
alloc_block inode mem cached need_alloc =
    let s : Alloc = record { inode = inode; mem = mem; cached = cached; count_down = need_alloc } in
    let done =
      if leb level2_limit inode.blocks
      then alloc_level3 s
      else if leb level1_limit inode.blocks
      then alloc_level2 s
      else alloc_level1 s in
    (done, if done.count_down == 0 then 0 else 1)

-- The blocks that hold `offset + nbyte` bytes, in the arithmetic of `vsfs_write`.
unfoldable pub needed_blocks : (offset nbyte : ℕ) → ℕ
needed_blocks offset nbyte =
    let total = u64 (offset + nbyte) in
    if total % block_size == 0 then u32 (total / block_size) else u32 (u32 (total / block_size) + 1)
