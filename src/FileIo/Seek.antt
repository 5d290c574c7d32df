-- ===== src/FileIo/Seek.antt =====
-- `vsfs_lseek` of src/inc/vsfsio.h.
pub mod Laws
use test_vsfs.Prelude.{
  ℕ, ◌+◌, ◌-◌, ◌/◌, ◌%◌, ◌^◌, Bool, Option, none, some, ltb, leb, ◌==◌, if◌then◌else◌, not, ◌&&◌,
  ◌||◌,
}
use test_vsfs.Word.{u16, u32, u64, sub32}
use test_vsfs.Layout.{Inode, Disk, block_size, level2_limit, put}
use test_vsfs.Blocks.{alloc_block}
use test_vsfs.State.{OpEntry, FdEntry, Vsfs, Run, done, fault}
use test_vsfs.Session.{find_target}
use test_vsfs.FileIo.Read.{file_size}

-- The result is a `uint64_t`.
abbrev pub seek_error : ℕ
seek_error = 2 ^ 64 - 1

abbrev pub seek_set : ℕ
seek_set = 0

abbrev pub seek_cur : ℕ
seek_cur = 1

abbrev pub seek_end : ℕ
seek_end = 2

-- The blocks that hold `offset` bytes.
abbrev pub blocks_of : ℕ → ℕ
blocks_of offset =
    if offset % block_size == 0
    then u32 (offset / block_size)
    else u32 (u32 (offset / block_size) + 1)

abbrev pub set_offset : (p offset : ℕ) → Vsfs → Vsfs
set_offset p offset s =
    let op = s.op_ftable p in
    record s { op_ftable = put s.op_ftable p (record op { offset = offset }) }

-- Whether `__alloc_block` comes to a call of `get_free_dblock`.
abbrev pub takes_block : Inode → (need_alloc : ℕ) → Bool
takes_block inode need_alloc =
    let real_blocks = sub32 inode.blocks level2_limit in
    if leb level2_limit inode.blocks
    then (real_blocks == 0) || (ltb 0 need_alloc && ltb (u16 (real_blocks / 1024)) 1024)
    else ltb 0 need_alloc

-- A seek past the end gives the file the blocks up to there, and the size. It wants `sb_cached`.
unfoldable pub extend : (p offset : ℕ) → Vsfs → Run Vsfs
extend p offset s =
    let op = s.op_ftable p in
    let disk = s.disk in
    let inode = disk.inode_reg op.inode_nr in
    let grown =
      (alloc_block inode disk.data_reg s.cached (sub32 (blocks_of offset) inode.blocks)).0 in
    let inode' = grown.inode in
    if not s.cached_mapped && takes_block inode (sub32 (blocks_of offset) inode.blocks)
    then fault
    else done (record s {
      disk = record {
        inode_reg = put disk.inode_reg op.inode_nr (record inode' { size = u32 offset });
        data_reg = grown.mem;
      };
      cached = grown.cached;
    })

unfoldable pub lseek_set : (p offset : ℕ) → Vsfs → Run (Vsfs × ℕ)
unfolding extend
lseek_set p offset s =
    let inode = s.disk.inode_reg (s.op_ftable p).inode_nr in
    if ltb 0x100000000 offset
    then done (s, seek_error)
    else if ltb (file_size inode) offset
    then elim (extend p offset s) [
      | fault ↦ fault
      | done s' ↦ done (set_offset p offset s', offset)
    ]
    else done (set_offset p offset s, offset)

-- `SEEK_CUR`, and the rest of `SEEK_END`: `base` is the offset that is moved.
unfoldable pub lseek_from : (p base offset : ℕ) → Vsfs → Vsfs × ℕ
lseek_from p base offset s =
    let inode = s.disk.inode_reg (s.op_ftable p).inode_nr in
    if ltb (file_size inode) (u64 (base + offset))
    then (set_offset p base s, seek_error)
    else (set_offset p (u64 (base + offset)) s, u64 (base + offset))

unfoldable pub lseek_file : (whence p offset : ℕ) → Vsfs → Run (Vsfs × ℕ)
unfolding lseek_set lseek_from
lseek_file whence p offset s =
    let op = s.op_ftable p in
    let inode = s.disk.inode_reg op.inode_nr in
    if whence == seek_set
    then lseek_set p offset s
    else if whence == seek_end
    then done (lseek_from p inode.size offset s)
    else if whence == seek_cur
    then done (lseek_from p op.offset offset s)
    else done (s, seek_error)

-- `vsfs_lseek`. The superblock is read without a test.
unfoldable pub vsfs_lseek : (fd offset whence : ℕ) → Vsfs → Run (Vsfs × ℕ)
unfolding lseek_file
vsfs_lseek fd offset whence s =
    if not s.optab_mapped
    then done (s, seek_error)
    else if not s.sb_mapped
    then fault
    else elim (find_target fd s.fd_table) [
      | fault ↦ fault
      | done none ↦ done (s, seek_error)
      | done (some e) ↦ lseek_file whence e.ptr offset s
    ]
