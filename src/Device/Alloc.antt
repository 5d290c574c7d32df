-- ===== src/Device/Alloc.antt =====
-- `__alloc_block` of src/inc/vsfsio_spdk.h. The pointer blocks pass through the buffers `ptr_reg`
-- and `l3_ptr_reg`; the loops over one pointer block are those of src/inc/vsfsio.h, with the
-- buffer for the memory and the pointer block at its start.
pub mod Laws
pub mod Whole
use test_vsfs.Prelude.{ℕ, zero, suc, ◌+◌, ◌-◌, ◌*◌, ◌/◌, ◌%◌, ◌^◌, ltb, leb, ◌==◌, if◌then◌else◌}
use test_vsfs.Word.{u16, sub32}
use test_vsfs.Memory.{Memory, load32, store32}
use test_vsfs.Layout.{Inode, Cached, pointer_per_block, level1_limit, level2_limit}
use test_vsfs.Bitmap.{get_free_dblock}
use test_vsfs.Blocks.{Alloc, alloc_l1, alloc_pointers, enter_l2, root_l3}
use test_vsfs.Spdk.{Nvme}
use test_vsfs.Device.{read_block, write_block}

-- What the loops change: `here` has the inode, the copy, the count and, for its memory, `ptr_reg`.
pub record Stage (Ns : Type 0) : Type 0 where
  pub here : Alloc
  pub ns : Ns
  pub l3_ptr_reg : Memory

module _ (nvme : Nvme) (data_reg_offset : ℕ) where
  -- The pointer block `blk` is read, extended from its pointer `start_block_l1` on, and written.
  unfoldable pub extend : (blk start_block_l1 : ℕ) → Stage nvme.Ns → Stage nvme.Ns
  extend blk start_block_l1 s =
      let loaded = record s.here { mem = read_block nvme data_reg_offset s.ns s.here.mem blk } in
      let filled = alloc_pointers 0 (pointer_per_block - start_block_l1) start_block_l1 loaded in
      record s { here = filled; ns = write_block nvme data_reg_offset s.ns filled.mem blk }

  -- `rounds` is `5 - i`.
  unfoldable pub alloc_l2 : (rounds i start_block_l1 : ℕ) → Stage nvme.Ns → Stage nvme.Ns
  unfolding extend
  alloc_l2 zero i start_block_l1 s = s
  alloc_l2 (suc rounds) i start_block_l1 s =
      let entered = enter_l2 i start_block_l1 s.here in
      let rest =
        alloc_l2 rounds (i + 1) 0
          (extend (entered.inode.l2 i) start_block_l1 (record s { here = entered })) in
      if ltb 0 s.here.count_down then rest else s

  -- A new pointer block for entry `i` of `l3_ptr_reg`.
  unfoldable pub enter_l3 : (i start_block_l1 : ℕ) → Stage nvme.Ns → Stage nvme.Ns
  enter_l3 i start_block_l1 s =
      let (cached, b) = get_free_dblock s.here.cached in
      if start_block_l1 == 0
      then record s {
        here = record s.here { cached = cached };
        l3_ptr_reg = store32 s.l3_ptr_reg (i * 4) b;
      }
      else s

  -- `rounds` is `1024 - i`.
  unfoldable pub alloc_l3 : (rounds i start_block_l1 : ℕ) → Stage nvme.Ns → Stage nvme.Ns
  unfolding extend enter_l3
  alloc_l3 zero i start_block_l1 s = s
  alloc_l3 (suc rounds) i start_block_l1 s =
      let entered = enter_l3 i start_block_l1 s in
      let rest =
        alloc_l3 rounds (i + 1) 0
          (extend (load32 entered.l3_ptr_reg (i * 4)) start_block_l1 entered) in
      if ltb 0 s.here.count_down then rest else s

  -- The labels `level3` and `level2`, and the code above them.
  unfoldable pub alloc_level3 : Stage nvme.Ns → Stage nvme.Ns
  unfolding alloc_l3
  alloc_level3 s =
      let real_blocks = sub32 s.here.inode.blocks level2_limit in
      let rooted = root_l3 real_blocks s.here in
      let root = rooted.inode.l3 0 in
      let i = u16 (real_blocks / 1024) in
      let done = alloc_l3 (1024 - i) i (u16 (real_blocks % 1024)) (record s {
        here = rooted;
        l3_ptr_reg = read_block nvme data_reg_offset s.ns s.l3_ptr_reg root;
      }) in
      record done { ns = write_block nvme data_reg_offset done.ns done.l3_ptr_reg root }

  unfoldable pub alloc_level2 : Stage nvme.Ns → Stage nvme.Ns
  unfolding alloc_l2 alloc_level3
  alloc_level2 s =
      let real_blocks = sub32 s.here.inode.blocks level1_limit in
      let i = u16 (real_blocks / 1024) in
      let done = alloc_l2 (5 - i) i (u16 (real_blocks % 1024)) s in
      if done.here.count_down == 0 then done else alloc_level3 done

  unfoldable pub alloc_level1 : Stage nvme.Ns → Stage nvme.Ns
  unfolding alloc_level2
  alloc_level1 s =
      let i = u16 s.here.inode.blocks in
      let done = record s { here = alloc_l1 (level1_limit - i) i s.here } in
      if done.here.count_down == 0 then done else alloc_level2 done

  -- `__alloc_block`: the result is 1 where blocks are still asked for at the end, and 0 otherwise.
  unfoldable pub alloc_block :
      Inode
      → Cached
      → nvme.Ns
      → (ptr_reg l3_ptr_reg : Memory) → (need_alloc : ℕ) → Stage nvme.Ns × ℕ
  unfolding alloc_level1
  alloc_block inode cached ns ptr_reg l3_ptr_reg need_alloc =
      let here : Alloc = record {
        inode = inode;
        mem = ptr_reg;
        cached = cached;
        count_down = need_alloc;
      } in
      let s : Stage nvme.Ns = record { here = here; ns = ns; l3_ptr_reg = l3_ptr_reg } in
      let done =
        if leb level2_limit inode.blocks
        then alloc_level3 s
        else if leb level1_limit inode.blocks
        then alloc_level2 s
        else alloc_level1 s in
      (done, if done.here.count_down == 0 then 0 else 1)
