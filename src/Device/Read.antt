-- ===== src/Device/Read.antt =====
-- `__read_dblock` of src/inc/vsfsio_spdk.h. Every round reads a whole block to the start of the
-- caller's buffer.
pub mod Laws
pub mod Aligned
use test_vsfs.Prelude.{
  ℕ, zero, suc, ◌+◌, ◌-◌, ◌*◌, ◌/◌, ◌%◌, ◌^◌, ltb, leb, ◌==◌, if◌then◌else◌, ◌&&◌,
}
use test_vsfs.Word.{ℤ, minus_one, to_int, u32, u64, sub64}
use test_vsfs.Memory.{Memory, memset}
use test_vsfs.Layout.{block_size}
use test_vsfs.Spdk.{Nvme}
use test_vsfs.Device.{File, read_block}
use test_vsfs.FileIo.Read.{Readed}

-- The variables of the loop; `pos` is `target_op->offset`.
pub record Fetch : Type 0 where
  pub buf : Memory
  pub pos : ℕ
  pub offset : ℕ
  pub left : ℕ
  pub readed : ℕ

unfoldable pub read_length : Fetch → ℕ
read_length s = if leb (block_size - s.offset) s.left then block_size - s.offset else s.left

module _ (nvme : Nvme) (ofs_dregion : ℕ) (ns : nvme.Ns) where
  unfoldable pub read_round : (b : ℕ) → Fetch → Fetch
  unfolding read_length
  read_round b s =
      let len = read_length s in
      record {
        buf = read_block nvme ofs_dregion ns s.buf b;
        pos = u64 (s.pos + len);
        offset = 0;
        left = s.left - len;
        readed = s.readed + len;
      }

  -- `for (uint32_t i = start_block; i < blocks && left > 0; i++)`, where `rounds` is at least
  -- `blocks - i`.
  unfoldable pub read_rounds : File → (rounds i : ℕ) → Fetch → Fetch
  read_rounds file zero i s = s
  read_rounds file (suc rounds) i s =
      let rest = read_rounds file rounds (u32 (i + 1)) (read_round (file.block i) s) in
      if ltb i file.blocks && ltb 0 s.left then rest else s

  -- `__read_dblock`, whose result `vsfs_read` returns as an `int`.
  unfoldable pub read_dblock : File → (offset nbyte : ℕ) → (buf : Memory) → Readed
  unfolding read_rounds memset
  read_dblock file offset nbyte buf =
      let short = leb file.size (u64 (offset + nbyte)) in
      let left = if short then sub64 file.size offset else nbyte in
      let padded = if short then sub64 nbyte left else 0 in
      let fetched = read_rounds file file.blocks (u32 (offset / block_size)) (record {
        buf = buf;
        pos = offset;
        offset = offset % block_size;
        left = left;
        readed = 0;
      }) in
      if file.size == offset
      then record { offset = offset; buf = buf; result = minus_one }
      else record {
        offset = fetched.pos;
        buf = memset fetched.buf fetched.readed 0 padded;
        result = to_int nbyte;
      }
