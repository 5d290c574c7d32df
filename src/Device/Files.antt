-- ===== src/Device/Files.antt =====
-- `vsfs_write`, `vsfs_read` and `vsfs_lseek` of src/inc/vsfsio_spdk.h.
pub mod Target
pub mod Store
pub mod Rewind
pub mod Extend
use test_vsfs.Prelude.{
  ℕ, ◌+◌, ◌/◌, ◌%◌, ◌^◌, Option, none, some, ltb, leb, ◌==◌, if◌then◌else◌, not,
}
use test_vsfs.Word.{ℤ, minus_one, to_int, u32, u64, sub32}
use test_vsfs.Memory.{Memory}
use test_vsfs.Layout.{Inode, block_size, write_limit}
use test_vsfs.Blocks.{needed_blocks}
use test_vsfs.State.{FdEntry, Run, done, fault}
use test_vsfs.Session.{o_rdonly, o_wronly, find_target}
use test_vsfs.FileIo.Seek.{seek_error, seek_set, seek_cur, seek_end, blocks_of}
use test_vsfs.Spdk.{Nvme}
use test_vsfs.Device.{File}
use test_vsfs.Device.State.{
  OpEntry, InodeReg, null_reg, cached_reg, stale_reg, Mounted, Scratch, find_inodes, put_inode,
  put_entry, inode_of,
}
use test_vsfs.Device.Info.{get_inode_info}
use test_vsfs.Device.Alloc.{Stage, alloc_block}
use test_vsfs.Device.Write.{write_dblock}
use test_vsfs.Device.Read.{read_dblock}

module _ (nvme : Nvme) where
  -- `__alloc_block`, and then `vsfs_get_inode_info` into `file_ptr`.
  unfoldable pub grow : Scratch → (p need_alloc : ℕ) → Mounted nvme.Ns → Mounted nvme.Ns
  grow scratch p need_alloc s =
      let op = s.op_ftable p in
      let ofs = s.cached.sbi.ofs_dregion in
      let grown =
        (alloc_block nvme ofs (inode_of p s) s.cached s.ns scratch.ptr_reg scratch.l3_ptr_reg
          need_alloc).0 in
      let inode = grown.here.inode in
      let file =
        get_inode_info nvme ofs grown.ns scratch.array grown.here.mem grown.l3_ptr_reg op.inode_nr
          inode in
      put_entry p (record op { file_ptr = file })
        (put_inode op.inode_nr inode (record s { ns = grown.ns; cached = grown.here.cached }))

  -- From the times to the end of `vsfs_write`. The size goes to the inode, not to `file_ptr`.
  unfoldable pub write_data :
      (now : ℕ) → Scratch → (buf : ℕ → ℕ) → (nbyte p : ℕ) → Mounted nvme.Ns → Mounted nvme.Ns × ℤ
  write_data now scratch buf nbyte p s =
      let op = s.op_ftable p in
      let file = op.file_ptr in
      let inode = inode_of p s in
      let copy =
        write_dblock nvme s.cached.sbi.ofs_dregion buf file.block s.ns scratch.dma_buf op.offset
          nbyte in
      (
        put_entry p
            (record op { offset = copy.pos; file_ptr = record file { atime = now; mtime = now } })
            (put_inode op.inode_nr (record inode { size = u32 copy.pos; atime = now; mtime = now })
              (record s { ns = copy.ns })),
        to_int copy.written,
      )

  unfoldable pub write_file :
      (now : ℕ) → Scratch → (buf : ℕ → ℕ) → (nbyte p : ℕ) → Mounted nvme.Ns → Mounted nvme.Ns × ℤ
  write_file now scratch buf nbyte p s =
      let total_needed_blocks = needed_blocks (s.op_ftable p).offset nbyte in
      let inode = inode_of p s in
      let found = record s { inode_reg = cached_reg } in
      write_data now scratch buf nbyte p (
        if leb inode.blocks total_needed_blocks
        then grow scratch p (sub32 total_needed_blocks inode.blocks) found
        else found)

  -- `vsfs_write`. The entry is read before any test.
  unfoldable pub vsfs_write :
      (now : ℕ)
      → Scratch
      → (fildes : ℕ) → (buf : ℕ → ℕ) → (nbyte : ℕ) → Mounted nvme.Ns
      → Run (Mounted nvme.Ns × ℤ)
  unfolding find_target
  vsfs_write now scratch fildes buf nbyte s = elim (find_target fildes s.fd_table) [
    | fault ↦ fault
    | done none ↦ fault
    | done (some fd) ↦
        if not s.optab_mapped
        then fault
        else if fd.flags == o_rdonly
        then done (s, minus_one)
        else if not s.cached_mapped
        then done (s, minus_one)
        else if ltb write_limit (u64 ((s.op_ftable fd.ptr).offset + nbyte))
        then done (s, minus_one)
        else if ltb 0x100000000 (u64 ((s.op_ftable fd.ptr).offset + nbyte) / block_size)
        then done (s, minus_one)
        else done (write_file now scratch buf nbyte fd.ptr s)
  ]

  unfoldable pub read_file :
      (now nbyte p : ℕ) → Memory → Mounted nvme.Ns → Mounted nvme.Ns × ℤ × Memory
  read_file now nbyte p buf s =
      let op = s.op_ftable p in
      let file = op.file_ptr in
      let touched = record file { atime = now } in
      let inode = inode_of p s in
      let got = read_dblock nvme s.cached.sbi.ofs_dregion s.ns touched op.offset nbyte buf in
      (
        put_entry p (record op { offset = got.offset; file_ptr = touched })
            (put_inode op.inode_nr (record inode { atime = now }) s),
        got.result,
        got.buf,
      )

  -- `vsfs_read`. `inode_reg` is used without a test.
  unfoldable pub vsfs_read :
      (now fildes nbyte : ℕ) → (buf : Memory) → Mounted nvme.Ns → Run (Mounted nvme.Ns × ℤ × Memory)
  unfolding find_target
  vsfs_read now fildes nbyte buf s =
      if not s.optab_mapped
      then done (s, minus_one, buf)
      else elim (find_target fildes s.fd_table) [
        | fault ↦ fault
        | done none ↦ done (s, minus_one, buf)
        | done (some fd) ↦
            if fd.flags == o_wronly then done (s, minus_one, buf) else elim s.inode_reg [
              | null_reg ↦ fault
              | stale_reg ↦ fault
              | cached_reg ↦ done (read_file now nbyte fd.ptr buf s)
            ]
      ]

  abbrev pub set_offset : (p offset : ℕ) → Mounted nvme.Ns → Mounted nvme.Ns
  set_offset p offset s = let op = s.op_ftable p in put_entry p (record op { offset = offset }) s

  -- A seek past the end: `blocks` is added to after it was gathered anew.
  unfoldable pub extend : Scratch → (p offset : ℕ) → Mounted nvme.Ns → Mounted nvme.Ns
  extend scratch p offset s =
      let total_needed_blocks = blocks_of offset in
      let s' = grow scratch p (sub32 total_needed_blocks (s.op_ftable p).file_ptr.blocks) s in
      let op = s'.op_ftable p in
      let file = op.file_ptr in
      put_entry p
        (record op {
          file_ptr = record file {
            blocks = u32 (file.blocks + total_needed_blocks);
            size = offset;
          };
        })
        s'

  unfoldable pub lseek_set : Scratch → (p offset : ℕ) → Mounted nvme.Ns → Run (Mounted nvme.Ns × ℕ)
  lseek_set scratch p offset s =
      if ltb 0x100000000 offset
      then done (s, seek_error)
      else if ltb (s.op_ftable p).file_ptr.size offset
      then elim s.inode_reg [
        | null_reg ↦ fault
        | stale_reg ↦ fault
        | cached_reg ↦ done (set_offset p offset (extend scratch p offset s), offset)
      ]
      else done (set_offset p offset s, offset)

  -- `SEEK_CUR`, and the rest of `SEEK_END`: `base` is the offset that is moved.
  unfoldable pub lseek_from : (p base offset : ℕ) → Mounted nvme.Ns → Mounted nvme.Ns × ℕ
  lseek_from p base offset s =
      if ltb (s.op_ftable p).file_ptr.size (u64 (base + offset))
      then (set_offset p base s, seek_error)
      else (set_offset p (u64 (base + offset)) s, u64 (base + offset))

  unfoldable pub lseek_file :
      Scratch → (whence p offset : ℕ) → Mounted nvme.Ns → Run (Mounted nvme.Ns × ℕ)
  lseek_file scratch whence p offset s =
      let op = s.op_ftable p in
      if whence == seek_set
      then lseek_set scratch p offset s
      else if whence == seek_end
      then done (lseek_from p op.file_ptr.size offset s)
      else if whence == seek_cur
      then done (lseek_from p op.offset offset s)
      else done (s, seek_error)

  -- `vsfs_lseek`
  unfoldable pub vsfs_lseek :
      Scratch → (fd offset whence : ℕ) → Mounted nvme.Ns → Run (Mounted nvme.Ns × ℕ)
  unfolding find_inodes find_target
  vsfs_lseek scratch fd offset whence s =
      if not s.optab_mapped then done (s, seek_error) else elim (find_inodes s) [
        | fault ↦ fault
        | done s' ↦ elim (find_target fd s'.fd_table) [
          | fault ↦ fault
          | done none ↦ done (s', seek_error)
          | done (some e) ↦ lseek_file scratch whence e.ptr offset s'
        ]
      ]
