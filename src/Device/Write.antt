-- ===== src/Device/Write.antt =====
-- `__write_dblock` of src/inc/vsfsio_spdk.h: the blocks of an open file, by the numbers in its
-- array. A whole block goes from the caller's buffer, a part of one through `dma_buf`.
pub mod Laws
pub mod Whole
use test_vsfs.Prelude.{ℕ, zero, suc, ◌+◌, ◌-◌, ◌*◌, ◌/◌, ◌%◌, ◌^◌, ltb, leb, ◌==◌, if◌then◌else◌}
use test_vsfs.Word.{u32, u64}
use test_vsfs.Memory.{Memory, memcpy}
use test_vsfs.Layout.{block_size}
use test_vsfs.Spdk.{Nvme}
use test_vsfs.Device.{read_block, write_block}

-- The variables of the loop; `pos` is `target_op->offset`.
pub record Transfer (Ns : Type 0) : Type 0 where
  pub ns : Ns
  pub dma_buf : Memory
  pub pos : ℕ
  pub offset : ℕ
  pub left : ℕ
  pub written : ℕ

unfoldable pub write_length : {Ns : Type 0} → Transfer Ns → ℕ
write_length s = if leb (block_size - s.offset) s.left then block_size - s.offset else s.left

-- The variables before the first round.
abbrev pub begin : {Ns : Type 0} → Ns → (dma_buf : Memory) → (offset nbyte : ℕ) → Transfer Ns
begin ns dma_buf offset nbyte = record {
  ns = ns;
  dma_buf = dma_buf;
  pos = offset;
  offset = offset % block_size;
  left = nbyte;
  written = 0;
}

module _ (nvme : Nvme) (ofs_dregion : ℕ) (buf : ℕ → ℕ) where
  -- What the buffer `dma_buf` holds when a part of block `b` goes through it.
  unfoldable pub patched : (b : ℕ) → Transfer nvme.Ns → Memory
  unfolding write_length
  patched b s =
      memcpy (read_block nvme ofs_dregion s.ns s.dma_buf b) s.offset (λ i. buf (s.written + i))
        (write_length s)

  -- What is written to block `b`: from the caller's buffer where it is a whole block.
  unfoldable pub source : (b : ℕ) → Transfer nvme.Ns → Memory
  unfolding patched
  source b s = if write_length s == block_size then (λ i. buf (s.written + i)) else patched b s

  -- A round of the loop, for block `b` of the device.
  unfoldable pub write_round : (b : ℕ) → Transfer nvme.Ns → Transfer nvme.Ns
  unfolding write_length patched source
  write_round b s =
      let len = write_length s in
      record {
        ns = write_block nvme ofs_dregion s.ns (source b s) b;
        dma_buf = if len == block_size then s.dma_buf else patched b s;
        pos = u64 (s.pos + len);
        offset = 0;
        left = s.left - len;
        written = s.written + len;
      }

  -- `for (uint32_t i = start_block; left > 0; i++)`, for a number of rounds.
  unfoldable pub write_rounds :
      (block : ℕ → ℕ) → (rounds i : ℕ) → Transfer nvme.Ns → Transfer nvme.Ns
  write_rounds block zero i s = s
  write_rounds block (suc rounds) i s =
      let rest = write_rounds block rounds (u32 (i + 1)) (write_round (block i) s) in
      if ltb 0 s.left then rest else s

  -- `__write_dblock`; its result is `written`. A round but the first and the last takes a block.
  unfoldable pub write_dblock :
      (block : ℕ → ℕ) → nvme.Ns → (dma_buf : Memory) → (offset nbyte : ℕ) → Transfer nvme.Ns
  unfolding write_rounds
  write_dblock block ns dma_buf offset nbyte =
      write_rounds block (nbyte / block_size + 2) (u32 (offset / block_size))
        (begin ns dma_buf offset nbyte)
