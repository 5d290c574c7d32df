-- ===== src/Blocks/Return.antt =====
-- `__return_block` of src/inc/vsfsio.h: gives the last blocks of a file back to the free map.
use test_vsfs.Prelude.{
  ℕ, zero, suc, ◌+◌, ◌-◌, ◌/◌, ◌%◌, Bool, true, false, ltb, leb, ◌==◌, if◌then◌else◌, ◌&&◌,
}
use test_vsfs.Word.{u16, sub32}
use test_vsfs.Memory.{Memory, load32}
use test_vsfs.Layout.{Inode, Cached, level1_limit, level2_limit, pointer_addr}
use test_vsfs.Bitmap.{put_dblock}
use test_vsfs.Blocks.{needed_blocks}

-- What `__return_block` changes. The memory is only read.
pub record Return : Type 0 where
  pub inode : Inode
  pub cached : Cached
  pub need_return : ℕ

-- `blocks--` and `need_return--` after the block `b` was given back.
pub give_back : ℕ → Return → Return
give_back b s =
    let inode = s.inode in
    record {
      inode = record inode { blocks = sub32 inode.blocks 1 };
      cached = put_dblock s.cached b;
      need_return = s.need_return - 1;
    }

pub drop_block : Bool → ℕ → Return → Return
drop_block true b s = record s { cached = put_dblock s.cached b }
drop_block false b s = s

-- The inner loop of level 3; the first argument is `j + 1`.
pub return_pointers3 : Memory → (j l3_ptr i : ℕ) → Return → Return
return_pointers3 m zero l3_ptr i s = s
return_pointers3 m (suc j) l3_ptr i s =
    let blk = load32 m (pointer_addr l3_ptr i) in
    let given = give_back (load32 m (pointer_addr blk j)) s in
    let dropped = drop_block (j == 0) blk given in
    let rest =
      return_pointers3 m j l3_ptr i
        (drop_block ((j == 0) && (i == 0)) (dropped.inode.l3 0) dropped) in
    if ltb 0 s.need_return then rest else s

-- The outer loop of level 3; the first number is `i + 1`.
pub return_l3 : Memory → (i l3_ptr start_block_l1 : ℕ) → Return → Return
return_l3 m zero l3_ptr start_block_l1 s = s
return_l3 m (suc i) l3_ptr start_block_l1 s =
    let rest = return_l3 m i l3_ptr 1023 (return_pointers3 m (start_block_l1 + 1) l3_ptr i s) in
    if ltb 0 s.need_return then rest else s

pub return_pointers2 : Memory → (j i : ℕ) → Return → Return
return_pointers2 m zero i s = s
return_pointers2 m (suc j) i s =
    let blk = s.inode.l2 i in
    let rest =
      return_pointers2 m j i
        (drop_block (j == 0) blk (give_back (load32 m (pointer_addr blk j)) s)) in
    if ltb 0 s.need_return then rest else s

pub return_l2 : Memory → (i start_block_l1 : ℕ) → Return → Return
return_l2 m zero start_block_l1 s = s
return_l2 m (suc i) start_block_l1 s =
    let rest = return_l2 m i 1023 (return_pointers2 m (start_block_l1 + 1) i s) in
    if ltb 0 s.need_return then rest else s

-- From `l1[i]` down, the first argument being `i + 1`.
pub return_l1 : ℕ → Return → Return
return_l1 zero s = s
return_l1 (suc i) s =
    let rest = return_l1 i (give_back (s.inode.l1 i) s) in if ltb 0 s.need_return then rest else s

-- The label `re_level1` starts at `l1[48]`, whatever the number of blocks.
pub return_level1 : Return → Return
return_level1 s = return_l1 level1_limit s

pub return_level2 : Memory → Return → Return
return_level2 m s =
    let real_blocks = sub32 (sub32 s.inode.blocks 1) level1_limit in
    let done = return_l2 m (u16 (real_blocks / 1024) + 1) (u16 (real_blocks % 1024)) s in
    if done.need_return == 0 then done else return_level1 done

pub return_level3 : Memory → Return → Return
return_level3 m s =
    let real_blocks = sub32 (sub32 s.inode.blocks 1) level2_limit in
    let done =
      return_l3 m (u16 (real_blocks / 1024) + 1) (s.inode.l3 0) (u16 (real_blocks % 1024)) s in
    if done.need_return == 0 then done else return_level2 m done

-- `__return_block` at the entry's offset: gives back what is not needed for `offset + nbyte` bytes.
pub return_block : Inode → Memory → Cached → (offset nbyte : ℕ) → Return × ℕ
return_block inode m cached offset nbyte =
    let total_needed_blocks = needed_blocks offset nbyte in
    let s : Return = record {
      inode = inode;
      cached = cached;
      need_return =
          if ltb total_needed_blocks inode.blocks then inode.blocks - total_needed_blocks else 0;
    } in
    let done =
      if leb inode.blocks level1_limit
      then return_level1 s
      else if leb inode.blocks level2_limit
      then return_level2 m s
      else return_level3 m s in
    (done, if done.need_return == 0 then 0 else 1)
