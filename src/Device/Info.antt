-- ===== src/Device/Info.antt =====
-- `vsfs_get_inode_info` of src/inc/vsfsio_spdk.h: the block numbers of a file, gathered from its
-- pointer blocks into an array.
pub mod Laws
use test_vsfs.Prelude.{ℕ, zero, suc, ◌+◌, ◌-◌, ◌*◌, ◌/◌, ◌%◌, ◌^◌, ltb, ◌==◌, if◌then◌else◌}
use test_vsfs.Memory.{Memory, load32}
use test_vsfs.Layout.{Inode, put}
use test_vsfs.FileIo.Read.{file_size}
use test_vsfs.Spdk.{Nvme}
use test_vsfs.Device.{File, read_block}

-- The variables of the loops: the array, the next place in it, the blocks that are left, and the
-- pointer block that was read last.
pub record Fill : Type 0 where
  pub block : ℕ → ℕ
  pub index : ℕ
  pub blks : ℕ
  pub ptr_reg : Memory

-- `file->block[index++] = b`, and the `blks--` of the loop.
unfoldable pub push_block : (b : ℕ) → Fill → Fill
push_block b s = record s { block = put s.block s.index b; index = s.index + 1; blks = s.blks - 1 }

-- `rounds` is `49 - i`.
unfoldable pub fill_l1 : Inode → (rounds i : ℕ) → Fill → Fill
fill_l1 inode zero i s = s
fill_l1 inode (suc rounds) i s =
    let rest = fill_l1 inode rounds (i + 1) (push_block (inode.l1 i) s) in
    if ltb i inode.blocks then rest else s

-- The inner loop of levels 2 and 3. `rounds` is `1024 - j`.
unfoldable pub fill_pointers : (rounds j : ℕ) → Fill → Fill
fill_pointers zero j s = s
fill_pointers (suc rounds) j s =
    let rest = fill_pointers rounds (j + 1) (push_block (load32 s.ptr_reg (j * 4)) s) in
    if ltb 0 s.blks then rest else s

module _ (nvme : Nvme) (ofs_dregion : ℕ) (ns : nvme.Ns) where
  -- A pointer block into `ptr_reg`.
  unfoldable pub enter : (blk : ℕ) → Fill → Fill
  enter blk s = record s { ptr_reg = read_block nvme ofs_dregion ns s.ptr_reg blk }

  -- The loop of level 2 or 3, where `parent i` is the pointer block of round `i`.
  unfoldable pub fill_blocks : (parent : ℕ → ℕ) → (rounds i : ℕ) → Fill → Fill
  fill_blocks parent zero i s = s
  fill_blocks parent (suc rounds) i s =
      let rest = fill_blocks parent rounds (i + 1) (fill_pointers 1024 0 (enter (parent i) s)) in
      if ltb 0 s.blks then rest else s

  -- `*file`, from the inode `inode_reg[inode_num]`. `array` is what `malloc` gives, and the buffers
  -- hold `ptr_reg` and `l3_ptr_reg` before.
  unfoldable pub get_inode_info :
      (array : ℕ → ℕ) → (ptr_reg l3_ptr_reg : Memory) → (inode_num : ℕ) → Inode → File
  get_inode_info array ptr_reg l3_ptr_reg inode_num inode =
      let s : Fill = record { block = array; index = 0; blks = inode.blocks; ptr_reg = ptr_reg } in
      let s1 = fill_l1 inode 49 0 s in
      let s2 = fill_blocks inode.l2 5 0 s1 in
      let l3_ptrs = read_block nvme ofs_dregion ns l3_ptr_reg (inode.l3 0) in
      let s3 = fill_blocks (λ i. load32 l3_ptrs (i * 4)) 1024 0 s2 in
      let filled = if s1.blks == 0 then s1 else if s2.blks == 0 then s2 else s3 in
      record {
        size = file_size inode;
        mode = inode.mode;
        blocks = inode.blocks;
        block = filled.block;
        inode = inode_num;
        atime = inode.atime;
        ctime = inode.ctime;
        mtime = inode.mtime;
      }
