-- ===== src/Device/RoundTrip.antt =====
-- `__write_dblock` and then `__read_dblock` of src/inc/vsfsio_spdk.h.
use test_vsfs.Prelude.{ℕ, ◌+◌, ◌*◌, ◌%◌, ◌^◌, ◌≤◌, ◌<◌, ◌≡◌, arith, ◌∙◌, lt→ltb}
use test_vsfs.Memory.{Memory}
use test_vsfs.FileIo.Write.Laws.{IsDistinct}
use test_vsfs.Spdk.{Nvme, IsReliable}
use test_vsfs.Device.{File}
use test_vsfs.Device.Write.{write_dblock}
use test_vsfs.Device.Write.Whole.{write_dblock-IsStored}
use test_vsfs.Device.Read.{read_dblock}
use test_vsfs.Device.Read.Aligned.{taken, read_dblock-aligned}

-- For a device that keeps what is written to it, and a file of at most 2 ^ 21 blocks, no two of
-- them the same, of 32 bits each: what is written within one block, from its start on and within
-- the file's size, is what `__read_dblock` gives for the same range.
pub read_dblock-stored :
    (nvme : Nvme) (reliable : IsReliable nvme) (ofs : ℕ)
    → ofs < 2 ^ 32
    → (file : File) → ((k : ℕ) → k < file.blocks → file.block k < 2 ^ 32)
    → file.blocks ≤ 2 ^ 21
    → IsDistinct file.block file.blocks
    → file.size ≤ file.blocks * 4096
    → (ns : nvme.Ns) (source : ℕ → ℕ) (dma_buf buf : Memory) (offset nbyte : ℕ) → offset % 4096 ≡ 0
    → nbyte ≤ 4096
    → offset + nbyte ≤ file.size
    → (t : ℕ) → t < nbyte
    → (read_dblock nvme ofs
          (write_dblock nvme ofs source file.block ns dma_buf offset nbyte).ns
          file
          offset
          nbyte
          buf).buf
        t
      ≡ source t
read_dblock-stored nvme reliable ofs small file word few distinct fits ns source dma_buf buf offset
      nbyte start one within t h =
    let all : t < taken file.size offset nbyte = ground arith in
    let stored =
      write_dblock-IsStored nvme reliable ofs small source file.block file.blocks word ns dma_buf
        offset nbyte few (omega arith) distinct in
    rw (lt→ltb t (taken file.size offset nbyte) all) at (
      read_dblock-aligned nvme reliable ofs small
        (write_dblock nvme ofs source file.block ns dma_buf offset nbyte).ns file word few offset
        nbyte buf fits (omega arith) (omega arith) (omega arith) start one t h)
    ∙ stored.inside t h
