-- ===== src/FileIo/Write.antt =====
-- `__write_dblock` and `vsfs_write` of src/inc/vsfsio.h.
pub mod Levels
pub mod Whole
pub mod Laws
pub mod Fits
pub mod Wrapped
use test_vsfs.Prelude.{
  ℕ, zero, suc, ◌+◌, ◌-◌, ◌/◌, ◌%◌, ◌^◌, Bool, Option, none, some, ltb, leb, ◌==◌, if◌then◌else◌,
  not,
}
use test_vsfs.Word.{ℤ, minus_one, to_int, u16, u32, u64, sub32}
use test_vsfs.Memory.{Memory, memcpy, load32}
use test_vsfs.Layout.{
  Inode, Disk, block_size, pointer_per_block, level1_limit, level2_limit, write_limit, block_addr,
  pointer_addr, put,
}
use test_vsfs.Blocks.{needed_blocks, alloc_block}
use test_vsfs.State.{OpEntry, FdEntry, Vsfs, Run, done, fault, ◌>>=◌, Outcome}
use test_vsfs.Session.{o_rdonly, find_target}
use test_vsfs.FileIo.{Copy, chunk_length, start}

module _ (buf : ℕ → ℕ) where
  -- One round of a loop: a chunk of the buffer into block `b`.
  unfoldable pub write_chunk : (b : ℕ) → Copy → Copy
  write_chunk b s =
      let write_length = chunk_length s in
      record {
        mem = memcpy s.mem (block_addr b + s.offset) (λ i. buf (s.copied + i)) write_length;
        pos = u64 (s.pos + write_length);
        offset = 0;
        left = s.left - write_length;
        copied = s.copied + write_length;
      }

  -- `rounds` is `VSFS_LEVEL1_LIMIT - i`.
  pub write_l1 : Inode → (rounds i : ℕ) → Copy → Copy
  write_l1 inode zero i s = s
  write_l1 inode (suc rounds) i s =
      let rest = write_l1 inode rounds (i + 1) (write_chunk (inode.l1 i) s) in
      if ltb 0 s.left then rest else s

  -- The inner loop of levels 2 and 3: through the pointers of the block `blk`.
  pub write_pointers : (blk rounds j : ℕ) → Copy → Copy
  write_pointers blk zero j s = s
  write_pointers blk (suc rounds) j s =
      let rest =
        write_pointers blk rounds (j + 1) (write_chunk (load32 s.mem (pointer_addr blk j)) s) in
      if ltb 0 s.left then rest else s

  pub write_l2 : Inode → (rounds i start_block_l1 : ℕ) → Copy → Copy
  write_l2 inode zero i start_block_l1 s = s
  write_l2 inode (suc rounds) i start_block_l1 s =
      let rest =
        write_l2 inode rounds (i + 1) 0
          (write_pointers (inode.l2 i) (pointer_per_block - start_block_l1) start_block_l1 s) in
      if ltb 0 s.left then rest else s

  pub write_l3 : Inode → (rounds i start_block_l1 : ℕ) → Copy → Copy
  write_l3 inode zero i start_block_l1 s = s
  write_l3 inode (suc rounds) i start_block_l1 s =
      let blk = load32 s.mem (pointer_addr (inode.l3 0) i) in
      let rest =
        write_l3 inode rounds (i + 1) 0
          (write_pointers blk (pointer_per_block - start_block_l1) start_block_l1 s) in
      if ltb 0 s.left then rest else s

  -- The labels `write_level_3` and `write_level_2`, and the code above them. At the end the result
  -- is `written`, or -1 where bytes are left.
  pub write_level3 : Inode → Copy → Copy
  write_level3 inode s =
      let real_blocks = u32 (s.pos / block_size + 2 ^ 64 - 5169) in
      let i = u16 (real_blocks / pointer_per_block) in
      write_l3 inode (pointer_per_block - i) i (u16 (real_blocks % pointer_per_block))
        (record s { offset = s.pos % block_size })

  pub write_level2 : Inode → Copy → Copy
  write_level2 inode s =
      let real_blocks = u32 (s.pos / block_size + 2 ^ 64 - level1_limit) in
      let i = u16 (real_blocks / 1024) in
      let done =
        write_l2 inode (5 - i) i (u16 (real_blocks % 1024))
          (record s { offset = s.pos % block_size }) in
      if done.left == 0 then done else write_level3 inode done

  pub write_level1 : Inode → Copy → Copy
  write_level1 inode s =
      let i = u16 (s.pos / block_size) in
      let done = write_l1 inode (level1_limit - i) i s in
      if done.left == 0 then done else write_level2 inode done

  -- `start_block_l1` has 16 bits.
  pub write_dblock : Inode → Memory → (offset nbyte : ℕ) → Copy
  write_dblock inode mem offset nbyte =
      let start_block_l1 = u16 (offset / block_size) in
      let s = start mem offset nbyte in
      if leb level2_limit start_block_l1
      then write_level3 inode s
      else if leb level1_limit start_block_l1
      then write_level2 inode s
      else write_level1 inode s

-- `written`, or the -1 at the end of `__write_dblock` where bytes are left, as an `int`.
abbrev pub written : Copy → ℤ
written s = if s.left == 0 then to_int s.copied else minus_one

-- From the allocation to the end of `vsfs_write`.
unfoldable pub write_file : (now : ℕ) → (buf : ℕ → ℕ) → (nbyte p : ℕ) → Vsfs → Vsfs × ℤ
unfolding write_dblock needed_blocks
write_file now buf nbyte p s =
    let op = s.op_ftable p in
    let disk = s.disk in
    let inode = disk.inode_reg op.inode_nr in
    let total_needed_blocks = needed_blocks op.offset nbyte in
    let grown =
      (alloc_block inode disk.data_reg s.cached (sub32 total_needed_blocks inode.blocks)).0 in
    let enough = not (leb inode.blocks total_needed_blocks) in
    let inode' = if enough then inode else grown.inode in
    let mem = if enough then disk.data_reg else grown.mem in
    let copy = write_dblock buf inode' mem op.offset nbyte in
    (
      record s {
        disk = record {
          inode_reg =
              put disk.inode_reg op.inode_nr
                (record inode' { size = u32 copy.pos; atime = now; mtime = now });
          data_reg = copy.mem;
        };
        cached = if enough then s.cached else grown.cached;
        op_ftable = put s.op_ftable p (record op { offset = copy.pos });
      },
      written copy,
    )

-- `vsfs_write`. The superblock and the entry are read before any test.
unfoldable pub vsfs_write : (now fildes : ℕ) → (buf : ℕ → ℕ) → (nbyte : ℕ) → Vsfs → Outcome
unfolding write_file find_target
vsfs_write now fildes buf nbyte s = elim (find_target fildes s.fd_table) [
  | fault ↦ fault
  | done none ↦ fault
  | done (some fd) ↦
      if not s.sb_mapped
      then fault
      else if not s.optab_mapped
      then fault
      else if fd.flags == o_rdonly
      then done (s, minus_one)
      else if not s.cached_mapped
      then done (s, minus_one)
      else if ltb write_limit (u64 ((s.op_ftable fd.ptr).offset + nbyte))
      then done (s, minus_one)
      else if ltb 0x100000000 (u64 ((s.op_ftable fd.ptr).offset + nbyte) / block_size)
      then done (s, minus_one)
      else done (write_file now buf nbyte fd.ptr s)
]
