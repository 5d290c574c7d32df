-- ===== src/FileIo/Sequence.antt =====
-- `vsfs_write`, `vsfs_lseek` back to the start, and `vsfs_read`, through one descriptor.
use test_vsfs.Prelude.{ℕ, ◌+◌, ◌*◌, ◌≤◌, ◌<◌, ◌≡◌, ◌≢◌, refl, arith, eq→==, ◌∙◌, ap}
use test_vsfs.Word.{ℤ, to_int}
use test_vsfs.Memory.{Memory}
use test_vsfs.Layout.{Inode}
use test_vsfs.Blocks.Map.{IsMapped}
use test_vsfs.State.{FdEntry, Vsfs, done}
use test_vsfs.Session.{o_wronly}
use test_vsfs.FileIo.{Copy, IsNarrow}
use test_vsfs.FileIo.Target.{IsOpen, file_of}
use test_vsfs.FileIo.Write.{write_dblock, written, vsfs_write}
use test_vsfs.FileIo.Write.Fits.{resized, after_write, HasRoom, vsfs_write-fits}
use test_vsfs.FileIo.Write.Laws.{IsDistinct, write_dblock_lem}
use test_vsfs.FileIo.Read.{Readed, read_dblock, file_size, vsfs_read}
use test_vsfs.FileIo.Read.Opened.{after_read, vsfs_read-open}
use test_vsfs.FileIo.Seek.{seek_set, set_offset, vsfs_lseek}
use test_vsfs.FileIo.Seek.Laws.{vsfs_lseek_within}
use test_vsfs.FileIo.RoundTrip.{reread, read_dblock-write_dblock}

-- The file of the descriptor: `map` gives its first `n` blocks, none twice and none a pointer
-- block, and the next `nbyte` bytes lie in them.
pub record IsSound (map : ℕ → ℕ) (n nbyte : ℕ) (e : FdEntry) (s : Vsfs) : Type 0 where
  pub mapped : IsMapped (file_of e s) map n s.disk.data_reg
  pub distinct : IsDistinct map n
  pub fits : (s.op_ftable e.ptr).offset + nbyte ≤ n * 4096
  pub narrow : IsNarrow (s.op_ftable e.ptr).offset

-- What the three calls give.
pub record IsReadBack (now later fd nbyte : ℕ) (buf : ℕ → ℕ) (out : Memory) (e : FdEntry) (s : Vsfs)
    : Type 0 where
  pub wrote : Vsfs
  pub sought : Vsfs
  pub final : Vsfs
  pub got : Memory
  pub write : vsfs_write now fd buf nbyte s ≡ done (wrote, to_int nbyte)
  pub seek :
      vsfs_lseek fd (s.op_ftable e.ptr).offset seek_set wrote
      ≡ done (sought, (s.op_ftable e.ptr).offset)
  pub read : vsfs_read later fd nbyte out sought ≡ done (final, to_int nbyte, got)
  pub bytes : (t : ℕ) → t < nbyte → got t ≡ buf t
  pub rest : (t : ℕ) → nbyte ≤ t → got t ≡ out t

module _ (now later fd nbyte : ℕ) (buf : ℕ → ℕ) (out : Memory) (e : FdEntry) (s : Vsfs)
    (map : ℕ → ℕ) (n : ℕ) (has : HasRoom fd nbyte e s) (sound : IsSound map n nbyte e s)
    (some_byte : 0 < nbyte) where
  abbrev o : ℕ
  o = (s.op_ftable e.ptr).offset

  abbrev copy : Copy
  copy = write_dblock buf (file_of e s) s.disk.data_reg o nbyte

  abbrev s1 : Vsfs
  s1 = after_write now e.ptr copy s

  abbrev s2 : Vsfs
  s2 = set_offset e.ptr o s1

  is_open1 : IsOpen fd e s1
  is_open1 = record { optab = has.is_open.optab; sb = has.is_open.sb; found = has.is_open.found }

  is_open2 : IsOpen fd e s2
  is_open2 = record { optab = has.is_open.optab; sb = has.is_open.sb; found = has.is_open.found }

  file1 : file_of e s1 ≡ resized now (file_of e s) copy
  file1 =
      let nr = (s.op_ftable e.ptr).inode_nr in simp (eq→== e.ptr e.ptr refl, eq→== nr nr refl) refl

  file2 : file_of e s2 ≡ resized now (file_of e s) copy
  file2 =
      let nr = (s.op_ftable e.ptr).inode_nr in simp (eq→== e.ptr e.ptr refl, eq→== nr nr refl) refl

  offset2 : (s2.op_ftable e.ptr).offset ≡ o
  offset2 = simp (eq→== e.ptr e.ptr refl) refl

  whole : written copy ≡ to_int nbyte
  whole =
      let w =
        write_dblock_lem buf (file_of e s) map n s.disk.data_reg o nbyte sound.mapped sound.distinct
          sound.fits sound.narrow in
      let z : copy.copied ≡ nbyte = omega (arith, w.copied) in rw (eq→== copy.left 0 w.left, z) refl

  size1 : file_size (resized now (file_of e s) copy) ≡ o + nbyte
  unfolding file_size
  size1 =
      let w =
        write_dblock_lem buf (file_of e s) map n s.disk.data_reg o nbyte sound.mapped sound.distinct
          sound.fits sound.narrow in
      ground (arith, w.pos, has.below_limit)

  seek_back : vsfs_lseek fd o seek_set s1 ≡ done (s2, o)
  seek_back =
      let size : file_size (file_of e s1) ≡ o + nbyte = ap file_size file1 ∙ size1 in
      vsfs_lseek_within fd o e s1 is_open1 (omega (arith, size))
        (omega (arith, size, has.below_limit))

  -- Through a descriptor that is open for reading and writing, with the file's blocks there
  -- already, not exactly 5169, no two the same, below 4 GiB and at a block number that does not wrap into level 1:
  -- `vsfs_write` of 1 byte or more returns their number, `vsfs_lseek` back returns the old offset,
  -- and `vsfs_read` of as many bytes returns their number and fills the buffer with the bytes
  -- written, and changes no byte behind them.
  pub vsfs_read-vsfs_write : e.flags ≢ o_wronly → IsReadBack now later fd nbyte buf out e s
  vsfs_read-vsfs_write readable =
      let back =
        read_dblock-write_dblock now later buf (file_of e s) map n s.disk.data_reg o nbyte out
          sound.mapped sound.distinct sound.fits sound.narrow some_byte has.below_limit in
      let got = read_dblock (reread now later (file_of e s) copy) copy.mem o nbyte out in
      let same =
        ap
          (λ (i : Inode).
            read_dblock (record i { atime = later }) copy.mem (s2.op_ftable e.ptr).offset nbyte out)
          file2
        ∙ ap (λ (p : ℕ). read_dblock (reread now later (file_of e s) copy) copy.mem p nbyte out)
            offset2 in
      record {
        wrote = s1;
        sought = s2;
        final = after_read later e.ptr got s2;
        got = got.buf;
        write = vsfs_write-fits now fd nbyte buf e s has ∙ ap (λ r. done (s1, r)) whole;
        seek = seek_back;
        read =
            vsfs_read-open later fd nbyte out e s2 is_open2 readable
            ∙ ap (λ (g : Readed). done (after_read later e.ptr g s2, g.result, g.buf)) same
            ∙ ap (λ (r : ℤ). done (after_read later e.ptr got s2, r, got.buf)) back.2;
        bytes = back.0;
        rest = back.1;
      }
