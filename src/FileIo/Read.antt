-- ===== src/FileIo/Read.antt =====
-- `__read_dblock` and `vsfs_read` of src/inc/vsfsio.h, and `vsfs_stat`.
pub mod Levels
pub mod Whole
pub mod Laws
pub mod Opened
use test_vsfs.Prelude.{
  ℕ, zero, suc, ◌+◌, ◌-◌, ◌/◌, ◌%◌, ◌^◌, Bool, Option, none, some, ltb, leb, ◌==◌, if◌then◌else◌,
  not, ◌&&◌,
}
use test_vsfs.Word.{ℤ, minus_one, to_int, u16, u32, u64, sub64}
use test_vsfs.Memory.{Memory, memcpy, memset, load32}
use test_vsfs.Layout.{
  Inode, Disk, block_size, pointer_per_block, level1_limit, level2_limit, block_addr, pointer_addr,
  put,
}
use test_vsfs.State.{OpEntry, FdEntry, Vsfs, Run, done, fault, ◌>>=◌}
use test_vsfs.Session.{o_wronly, find_target}
use test_vsfs.FileIo.{Copy, chunk_length, start}

-- In the loops `mem` is the caller's buffer, and the disk is only read.
module _ (disk : Memory) where
  pub read_chunk : (b : ℕ) → Copy → Copy
  read_chunk b s =
      let read_length = chunk_length s in
      record {
        mem = memcpy s.mem s.copied (λ i. disk (block_addr b + s.offset + i)) read_length;
        pos = u64 (s.pos + read_length);
        offset = 0;
        left = s.left - read_length;
        copied = s.copied + read_length;
      }

  pub read_l1 : Inode → (rounds i : ℕ) → Copy → Copy
  read_l1 inode zero i s = s
  read_l1 inode (suc rounds) i s =
      let rest = read_l1 inode rounds (i + 1) (read_chunk (inode.l1 i) s) in
      if ltb 0 s.left then rest else s

  pub read_pointers : (blk rounds j : ℕ) → Copy → Copy
  read_pointers blk zero j s = s
  read_pointers blk (suc rounds) j s =
      let rest =
        read_pointers blk rounds (j + 1) (read_chunk (load32 disk (pointer_addr blk j)) s) in
      if ltb 0 s.left then rest else s

  pub read_l2 : Inode → (rounds i start_block_l1 : ℕ) → Copy → Copy
  read_l2 inode zero i start_block_l1 s = s
  read_l2 inode (suc rounds) i start_block_l1 s =
      let rest =
        read_l2 inode rounds (i + 1) 0
          (read_pointers (inode.l2 i) (pointer_per_block - start_block_l1) start_block_l1 s) in
      if ltb 0 s.left then rest else s

  pub read_l3 : Inode → (rounds i start_block_l1 : ℕ) → Copy → Copy
  read_l3 inode zero i start_block_l1 s = s
  read_l3 inode (suc rounds) i start_block_l1 s =
      let blk = load32 disk (pointer_addr (inode.l3 0) i) in
      let rest =
        read_l3 inode rounds (i + 1) 0
          (read_pointers blk (pointer_per_block - start_block_l1) start_block_l1 s) in
      if ltb 0 s.left then rest else s

  pub read_level3 : Inode → Copy → Copy
  read_level3 inode s =
      let real_blocks = u32 (s.pos / block_size + 2 ^ 64 - 5169) in
      let i = u16 (real_blocks / pointer_per_block) in
      read_l3 inode (pointer_per_block - i) i (u16 (real_blocks % pointer_per_block))
        (record s { offset = s.pos % block_size })

  pub read_level2 : Inode → Copy → Copy
  read_level2 inode s =
      let real_blocks = u32 (s.pos / block_size + 2 ^ 64 - 49) in
      let i = u16 (real_blocks / 1024) in
      let done =
        read_l2 inode (5 - i) i (u16 (real_blocks % 1024))
          (record s { offset = s.pos % block_size }) in
      if done.left == 0 then done else read_level3 inode done

  pub read_level1 : Inode → Copy → Copy
  read_level1 inode s =
      let i = u16 (s.pos / block_size) in
      let done = read_l1 inode (level1_limit - i) i s in
      if done.left == 0 then done else read_level2 inode done

  -- The loops of `__read_dblock`, for `left` bytes from `offset` on.
  pub read_blocks : Inode → (buf : Memory) → (offset left : ℕ) → Copy
  read_blocks inode buf offset left =
      let start_block_l1 = u16 (offset / block_size) in
      let s = start buf offset left in
      if leb level2_limit start_block_l1
      then read_level3 inode s
      else if leb level1_limit start_block_l1
      then read_level2 inode s
      else read_level1 inode s

-- A file of 4 GiB has size 0 in its 32 bits.
unfoldable pub file_size : Inode → ℕ
file_size inode = if (inode.size == 0) && (inode.blocks == 1048576) then 0x100000000 else inode.size

-- The new offset, what the buffer holds then, and the result.
pub record Readed : Type 0 where
  pub offset : ℕ
  pub buf : Memory
  pub result : ℤ

-- `__read_dblock`: -1 at the end of the file; past it, zeros to the end of the buffer.
pub read_dblock : Inode → (disk : Memory) → (offset nbyte : ℕ) → (buf : Memory) → Readed
unfolding read_blocks memset
read_dblock inode disk offset nbyte buf =
    let size = file_size inode in
    let whole = leb (u64 (offset + nbyte)) size in
    let left = if whole then nbyte else sub64 size offset in
    let padded = if whole then 0 else sub64 nbyte left in
    let copy = read_blocks disk inode buf offset left in
    if not whole && (size == offset)
    then record { offset = offset; buf = buf; result = minus_one }
    else record {
      offset = copy.pos;
      buf = memset copy.mem copy.copied 0 padded;
      result = to_int nbyte;
    }

unfoldable pub read_file : (now nbyte p : ℕ) → Memory → Vsfs → Vsfs × ℤ × Memory
unfolding read_dblock
read_file now nbyte p buf s =
    let op = s.op_ftable p in
    let disk = s.disk in
    let inode = disk.inode_reg op.inode_nr in
    let touched = record inode { atime = now } in
    let got = read_dblock touched disk.data_reg op.offset nbyte buf in
    (
      record s {
        disk = record disk { inode_reg = put disk.inode_reg op.inode_nr touched };
        op_ftable = put s.op_ftable p (record op { offset = got.offset });
      },
      got.result,
      got.buf,
    )

-- `vsfs_read`: the new state, the result and the buffer.
unfoldable pub vsfs_read : (now fildes nbyte : ℕ) → (buf : Memory) → Vsfs → Run (Vsfs × ℤ × Memory)
unfolding read_file find_target
vsfs_read now fildes nbyte buf s =
    if not s.optab_mapped then done (s, minus_one, buf) else elim (find_target fildes s.fd_table) [
      | fault ↦ fault
      | done none ↦ done (s, minus_one, buf)
      | done (some fd) ↦
          if fd.flags == o_wronly
          then done (s, minus_one, buf)
          else if not s.sb_mapped
          then done (s, minus_one, buf)
          else done (read_file now nbyte fd.ptr buf s)
    ]
