-- ===== src/FileIo.antt =====
-- The contents of files in src/inc/vsfsio.h. The copy loops of `__write_dblock` and
-- `__read_dblock` share one shape: chunks of at most one block, from a block that each level finds
-- in its own way.
pub mod Flat
pub mod Target
pub mod Write
pub mod Read
pub mod Seek
pub mod RoundTrip
pub mod Sequence
use test_vsfs.Prelude.{ℕ, zero, suc, ◌+◌, ◌-◌, ◌*◌, ◌/◌, ◌%◌, ◌<◌, ◌≤◌, ◌⊎◌, leb, if◌then◌else◌}
use test_vsfs.Word.{u16, u32, u64, sub32}
use test_vsfs.Memory.{Memory, memcpy, load32}
use test_vsfs.Layout.{
  Inode, block_size, pointer_per_block, level1_limit, level2_limit, block_addr, pointer_addr,
}

-- The variables of the loops: `fixed` is what is copied from, `mem` what is copied to, `pos` is
-- `target_op->offset`, and `offset` the place within the block.
pub record Copy : Type 0 where
  pub mem : Memory
  pub pos : ℕ
  pub offset : ℕ
  pub left : ℕ
  pub copied : ℕ

abbrev pub chunk_length : Copy → ℕ
chunk_length s = if leb (block_size - s.offset) s.left then block_size - s.offset else s.left

-- The variables before the first round.
abbrev pub start : Memory → (offset left : ℕ) → Copy
start mem offset left = record {
  mem = mem;
  pos = offset;
  offset = offset % block_size;
  left = left;
  copied = 0;
}

-- `start_block_l1` has 16 bits, and decides the level: a block number that wraps must wrap to one
-- that is past level 1 still.
abbrev pub IsNarrow : ℕ → Type 0
IsNarrow offset = (offset / 4096 < 49) ⊎ (49 ≤ u16 (offset / 4096))

-- The address of byte `p` of a file with this block map.
abbrev pub byte_addr : (map : ℕ → ℕ) → ℕ → ℕ
byte_addr map p = map (p / 4096) * 4096 + p % 4096
