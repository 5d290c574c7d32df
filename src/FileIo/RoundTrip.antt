-- ===== src/FileIo/RoundTrip.antt =====
-- `__write_dblock` and then `__read_dblock` of src/inc/vsfsio.h.
use test_vsfs.Prelude.{
  ℕ, zero, suc, ◌+◌, ◌-◌, ◌*◌, ◌/◌, ◌%◌, ◌^◌, ◌≤◌, ◌<◌, ◌≡◌, arith, leb, inl, inr, ◌∙◌, zero-or-pos,
  ap, true, le→leb,
}
use test_vsfs.Word.{to_int}
use test_vsfs.Memory.{Memory}
use test_vsfs.Layout.{Inode}
use test_vsfs.Blocks.{file_block}
use test_vsfs.Blocks.Map.{IsMapped}
use test_vsfs.FileIo.{Copy, start, IsNarrow}
use test_vsfs.FileIo.Flat.{IsAt, IsAt-chunk, flat, flat_stop, flat_step}
use test_vsfs.FileIo.Write.{write_chunk, write_dblock}
use test_vsfs.FileIo.Write.Levels.{write_chunk-IsChunk, IsMapped-write_chunk}
use test_vsfs.FileIo.Write.Whole.{IsAt-start, write_dblock-flat}
use test_vsfs.FileIo.Write.Fits.{resized}
use test_vsfs.FileIo.Write.Laws.{IsDistinct, write_dblock_lem}
use test_vsfs.FileIo.Read.{read_dblock, file_size}
use test_vsfs.FileIo.Read.Laws.{read_dblock-IsPadded}

module _ (buf : ℕ → ℕ) (inode : Inode) (map : ℕ → ℕ) (n : ℕ) where
  IsMapped-flat :
      (rounds k : ℕ) (s : Copy)
      → (0 < s.left → IsAt n k s)
      → IsMapped inode map n s.mem
      → IsMapped inode map n (flat (write_chunk buf) map rounds k s).mem
  IsMapped-flat zero k s at mapped = unfold flat in mapped
  IsMapped-flat (suc rounds) k s at mapped = elim (zero-or-pos s.left) [
    | inl none ↦ rw (flat_stop (write_chunk buf) map (suc rounds) k s none) mapped
    | inr more ↦ rw (flat_step (write_chunk buf) map rounds k s more) (
        IsMapped-flat rounds (k + 1) (write_chunk buf (map k) s)
          (IsAt-chunk (write_chunk buf) (write_chunk-IsChunk buf) n k (map k) s (at more))
          (IsMapped-write_chunk buf inode map n k s more (at more) mapped))
  ]

  module _ (mem : Memory) (offset nbyte : ℕ) (mapped : IsMapped inode map n mem)
      (fits : offset + nbyte ≤ n * 4096) (narrow : IsNarrow offset) where
    -- For a range within the file, and a block number that does not wrap into level 1,
    -- `__write_dblock` leaves the block map of the file as it was.
    pub IsMapped-write_dblock : IsMapped inode map n (write_dblock buf inode mem offset nbyte).mem
    IsMapped-write_dblock =
        rw (write_dblock-flat buf inode map n mem offset nbyte mapped fits narrow) (
          IsMapped-flat (1053745 - offset / 4096) (offset / 4096) (start mem offset nbyte)
            (λ _. IsAt-start buf inode map n mem offset nbyte mapped fits) mapped)

-- The inode after a write at time `now` and, as `vsfs_read` sets it, the access at `later`.
abbrev pub reread : (now later : ℕ) → Inode → Copy → Inode
reread now later inode copy = record (resized now inode copy) { atime = later }

-- Bytes written to a file are read back: after `__write_dblock` of 1 byte or more within the
-- file's blocks, no two of them the same, and below 4 GiB, at a block number that does not wrap
-- into level 1, `__read_dblock` of as many bytes at the same offset fills the buffer with the
-- bytes written, changes no byte behind them, returns their number and ends behind them.
pub read_dblock-write_dblock :
    (now later : ℕ) (buf : ℕ → ℕ) (inode : Inode) (map : ℕ → ℕ) (n : ℕ) (mem : Memory)
    (offset nbyte : ℕ) (out : Memory)
    → IsMapped inode map n mem
    → IsDistinct map n
    → offset + nbyte ≤ n * 4096
    → IsNarrow offset
    → 0 < nbyte
    → offset + nbyte < 2 ^ 32
    → let copy = write_dblock buf inode mem offset nbyte in
      let got = read_dblock (reread now later inode copy) copy.mem offset nbyte out in
      ((t : ℕ) → t < nbyte → got.buf t ≡ buf t)
      × ((t : ℕ) → nbyte ≤ t → got.buf t ≡ out t)
      × (got.result ≡ to_int nbyte)
      × (got.offset ≡ offset + nbyte)
read_dblock-write_dblock now later buf inode map n mem offset nbyte out mapped distinct fits narrow
      some_byte small =
    let copy = write_dblock buf inode mem offset nbyte in
    let w = write_dblock_lem buf inode map n mem offset nbyte mapped distinct fits narrow in
    let kept = IsMapped-write_dblock buf inode map n mem offset nbyte mapped fits narrow in
    let size : file_size (reread now later inode copy) ≡ offset + nbyte =
      unfold file_size in ground (arith, w.pos) in
    let whole : leb (offset + nbyte) (file_size (reread now later inode copy)) ≡ true =
      le→leb _ _ (omega (arith, size)) in
    let got =
      read_dblock-IsPadded (reread now later inode copy) copy.mem offset nbyte out
        (omega (arith, size)) narrow (omega arith) (omega (arith, size)) in
    let z : (t : ℕ) → 0 + t ≡ t = λ t. omega arith in
    let same : (t : ℕ)
        → t < nbyte
        → file_block (reread now later inode copy) copy.mem ((offset + t) / 4096)
          ≡ map ((offset + t) / 4096) =
      λ t h. unfold file_block in kept.agrees ((offset + t) / 4096) (omega arith) in
    let full = rw whole at got in
    (
      λ t h.
          full.bytes t h
          ∙ ap (λ (b : ℕ). copy.mem (b * 4096 + (offset + t) % 4096)) (same t h)
          ∙ w.inside t h
          ∙ ap buf (z t),
      full.rest,
      full.result,
      full.offset,
    )
