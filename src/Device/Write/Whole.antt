-- ===== src/Device/Write/Whole.antt =====
-- What `__write_dblock` of src/inc/vsfsio_spdk.h leaves on the device, and the same function of
-- src/inc/vsfsio.h.
use test_vsfs.Prelude.{ℕ, ◌+◌, ◌-◌, ◌*◌, ◌/◌, ◌^◌, ◌≤◌, ◌<◌, ◌≡◌, ◌≢◌, arith, ◌∙◌, ap}
use test_vsfs.Memory.{Memory}
use test_vsfs.Layout.{Inode}
use test_vsfs.Blocks.Map.{IsMapped}
use test_vsfs.FileIo.{start, byte_addr, IsNarrow}
use test_vsfs.FileIo.Flat.{flat, flat_enough, IsAt}
use test_vsfs.FileIo.Write.{write_chunk}
use test_vsfs.FileIo.Write as Shared
use test_vsfs.FileIo.Write.Levels.{write_chunk-IsChunk}
use test_vsfs.FileIo.Write.Whole as SharedWhole
use test_vsfs.FileIo.Write.Laws.{IsDistinct, flat-IsWritten}
use test_vsfs.Spdk.{Nvme, IsReliable}
use test_vsfs.Device.{region}
use test_vsfs.Device.Write.{Transfer, write_dblock}
use test_vsfs.Device.Write.Laws.{IsSame, write_dblock-flat}

-- All `nbyte` bytes of the buffer are on the device, at the file's bytes from `offset` on, and no
-- other byte of the region is changed.
pub record IsStored (nvme : Nvme) (ofs : ℕ) (buf block : ℕ → ℕ) (ns : nvme.Ns) (offset nbyte : ℕ)
    (d : Transfer nvme.Ns) : Type 0 where
  pub finished : d.left ≡ 0
  pub total : d.written ≡ nbyte
  pub place : d.pos ≡ offset + nbyte
  pub inside : (t : ℕ) → t < nbyte → region nvme ofs d.ns (byte_addr block (offset + t)) ≡ buf t
  pub outside :
      (a : ℕ)
      → ((t : ℕ) → t < nbyte → a ≢ byte_addr block (offset + t))
      → region nvme ofs d.ns a ≡ region nvme ofs ns a

module _ (nvme : Nvme) (reliable : IsReliable nvme) (ofs : ℕ) (small : ofs < 2 ^ 32)
    (buf block : ℕ → ℕ) (n : ℕ) (word : (k : ℕ) → k < n → block k < 2 ^ 32) (ns : nvme.Ns)
    (dma_buf : Memory) (offset nbyte : ℕ) (bound : n ≤ 2 ^ 21)
    (fits : offset + nbyte ≤ n * 4096) where
  abbrev d : Transfer nvme.Ns
  d = write_dblock nvme ofs buf block ns dma_buf offset nbyte

  -- The last block of the range, as a number of blocks: no more rounds are needed.
  abbrev last : ℕ
  last = (offset + nbyte + 4095) / 4096

  same : IsSame nvme reliable ofs small buf d (
      flat
        (write_chunk buf)
        block
        (nbyte / 4096 + 2)
        (offset / 4096)
        (start (region nvme ofs ns) offset nbyte))
  same =
      write_dblock-flat nvme reliable ofs small buf block n word ns dma_buf offset nbyte bound fits

  at : IsAt last (offset / 4096) (start (region nvme ofs ns) offset nbyte)
  at = record {
    inside = omega arith;
    place = omega (arith, bound);
    fits = omega arith;
    bound = omega (arith, bound, fits);
  }

  -- For a device that keeps what is written to it, block numbers of 32 bits and a range within the
  -- file's first `n` blocks, at most 2 ^ 21 and no two of them the same, `__write_dblock` of the
  -- device ends with all `nbyte` bytes of the buffer on the device at the file's bytes from
  -- `offset` on, whatever `dma_buf` holds, changes no other byte of the data region, moves the
  -- offset behind them and returns `nbyte`.
  pub write_dblock-IsStored : IsDistinct block n → IsStored nvme ofs buf block ns offset nbyte d
  write_dblock-IsStored distinct =
      let w =
        flat-IsWritten buf block last
          (λ i j hi hj. distinct i j (omega (arith, fits)) (omega (arith, fits))) (nbyte / 4096 + 2)
          (offset / 4096) (start (region nvme ofs ns) offset nbyte) (λ _. at) (omega arith) in
      record {
        finished = same.rest ∙ w.left;
        total = same.count ∙ w.copied ∙ omega arith;
        place = same.place ∙ w.pos;
        inside =
            λ t h. same.mem (byte_addr block (offset + t)) ∙ w.inside t h ∙ ap buf (from_zero t);
        outside = λ a far. same.mem a ∙ w.outside a far;
      }
    where
      from_zero : (t : ℕ) → 0 + t ≡ t
      from_zero t = omega arith

  -- For a device that keeps what is written to it, a file of at most 2 ^ 21 blocks whose array
  -- holds the block map that its pointer blocks give, of 32 bits each, and a range within them:
  -- `__write_dblock` of the device leaves the data region, the offset and the count of written
  -- bytes as `__write_dblock` of shared memory does, where the 16 bits of the latter's block
  -- number suffice.
  pub write_dblock-shared :
      (inode : Inode)
      → IsMapped inode block n (region nvme ofs ns)
      → IsNarrow offset
      → IsSame nvme reliable ofs small buf d
          (Shared.write_dblock buf inode (region nvme ofs ns) offset nbyte)
  write_dblock-shared inode mapped narrow =
      let e =
        flat_enough (write_chunk buf) (write_chunk-IsChunk buf) block last (nbyte / 4096 + 2)
          (1053745 - offset / 4096) (offset / 4096) (start (region nvme ofs ns) offset nbyte) at
          (omega arith) (omega (arith, fits, mapped.within)) in
      rw
        (SharedWhole.write_dblock-flat buf inode block n (region nvme ofs ns) offset nbyte mapped
          fits narrow)
        (rw e at same)
