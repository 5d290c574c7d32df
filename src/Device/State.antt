-- ===== src/Device/State.antt =====
-- What the operations of src/inc/vsfsio_spdk.h work on.
use test_vsfs.Prelude.{ℕ, Bool}
use test_vsfs.Memory.{Memory}
use test_vsfs.Layout.{Inode, Cached, put}
use test_vsfs.State.{FdTable, Run, done, fault}
use test_vsfs.Prelude.{if◌then◌else◌}
use test_vsfs.Device.{File}

-- `op_ftable_t`. `file_ptr` is allocated with the entry and freed with it.
pub record OpEntry : Type 0 where
  pub offset : ℕ
  pub inode_nr : ℕ
  pub ptr_counter : ℕ
  pub lock : ℕ
  pub file_ptr : File

-- The pointer `inode_reg`: null, to the inodes of `sb_cached`, or to where they were mapped.
pub data InodeReg : Type 0 where
  null_reg : InodeReg
  cached_reg : InodeReg
  stale_reg : InodeReg

pub record Mounted (Ns : Type 0) : Type 0 where
  pub ns : Ns
  pub cached : Cached
  pub inode_reg : InodeReg
  pub op_counter : ℕ
  pub op_ftable : ℕ → OpEntry
  pub fd_table : FdTable
  pub cached_mapped : Bool
  pub optab_mapped : Bool

-- What `malloc` gives for the block numbers, and the buffers before the call: nothing of them is
-- kept from one operation to the next.
pub record Scratch : Type 0 where
  pub array : ℕ → ℕ
  pub ptr_reg : Memory
  pub l3_ptr_reg : Memory
  pub dma_buf : Memory

module _ {Ns : Type 0} where
  -- `if (!inode_reg) inode_reg = sb_cached->inode_reg`
  unfoldable pub find_inodes : Mounted Ns → Run (Mounted Ns)
  find_inodes s = elim s.inode_reg [
    | null_reg ↦ if s.cached_mapped then done (record s { inode_reg = cached_reg }) else fault
    | cached_reg ↦ done s
    | stale_reg ↦ done s
  ]

  -- `inode_reg[nr] = inode`
  abbrev pub put_inode : (nr : ℕ) → Inode → Mounted Ns → Mounted Ns
  put_inode nr inode s =
      let cached = s.cached in
      record s { cached = record cached { inode_reg = put cached.inode_reg nr inode } }

  abbrev pub put_entry : (p : ℕ) → OpEntry → Mounted Ns → Mounted Ns
  put_entry p op s = record s { op_ftable = put s.op_ftable p op }

  abbrev pub inode_of : (p : ℕ) → Mounted Ns → Inode
  inode_of p s = s.cached.inode_reg (s.op_ftable p).inode_nr
