-- ===== src/Examples/Files.antt =====
-- Reads, writes and seeks in a file of one block.
use test_vsfs.Prelude.{
  false, ℕ, ◌+◌, ◌-◌, ◌%◌, ◌<◌, ◌≤◌, ◌≡◌, refl, arith, inl, ◌⊎◌, leb, if◌then◌else◌,
}
use test_vsfs.Word.{to_int}
use test_vsfs.Blocks.{file_block, needed_blocks}
use test_vsfs.Blocks.Map.{IsMapped, file_block-l1}
use test_vsfs.State.{Vsfs, done}
use test_vsfs.Session.{find_target, find_fd}
use test_vsfs.FileIo.{start, IsNarrow}
use test_vsfs.FileIo.Target.{IsOpen, file_of}
use test_vsfs.FileIo.Write.Wrapped.{write_dblock_wrapped}
use test_vsfs.FileIo.Write.{write_chunk, write_dblock}
use test_vsfs.FileIo.Write.Laws.{IsDistinct, IsWritten, write_dblock_lem}
use test_vsfs.FileIo.Write.Fits.{HasRoom}
use test_vsfs.FileIo.Read.{file_size, read_dblock}
use test_vsfs.FileIo.Read.Laws.{IsPadded, read_dblock-IsPadded}
use test_vsfs.FileIo.Seek.{vsfs_lseek, seek_set, seek_cur, seek_error}
use test_vsfs.FileIo.Seek.Laws.{IsExtended, vsfs_lseek_past, vsfs_lseek_bounds}
use test_vsfs.FileIo.RoundTrip.{reread, IsMapped-write_dblock, read_dblock-write_dblock}
use test_vsfs.FileIo.Sequence.{IsSound, IsReadBack, vsfs_read-vsfs_write}
use test_vsfs.Examples.{small_file, small_state, only_fd, listing}

-- The text that is written.
abbrev text : ℕ → ℕ
text i = b'a' + i % 26

abbrev five : ℕ → ℕ
five _ = 5

small_file-IsMapped : IsMapped small_file five 1 listing
small_file-IsMapped = record {
  agrees = λ j l. file_block-l1 small_file listing j (omega arith);
  apart2 = λ j k h l b c e. omega arith;
  apart3 = λ j k h b c e. omega arith;
  apart_root = λ j k h b c e. omega arith;
  within = omega arith;
}

five-IsDistinct : IsDistinct five 1
five-IsDistinct i j h l ne e = ne (omega arith)

narrow : IsNarrow 10
narrow = inl (omega arith)

write_dblock_lem_example :
    IsWritten text five (start listing 10 200) (write_dblock text small_file listing 10 200)
write_dblock_lem_example =
    write_dblock_lem text small_file five 1 listing 10 200 small_file-IsMapped five-IsDistinct
      (omega arith) narrow

IsMapped-write_dblock_example :
    IsMapped small_file five 1 (write_dblock text small_file listing 10 200).mem
IsMapped-write_dblock_example =
    IsMapped-write_dblock text small_file five 1 listing 10 200 small_file-IsMapped (omega arith)
      narrow

size_100 : file_size small_file ≡ 100
unfolding file_size
size_100 = refl

-- 90 bytes of the file, and 110 zeros.
read_dblock-IsPadded_example :
    IsPadded listing
      (file_block small_file listing)
      10
      200
      (if leb (10 + 200) (file_size small_file) then 200 else file_size small_file - 10)
      text
      (read_dblock small_file listing 10 200 text)
read_dblock-IsPadded_example =
    read_dblock-IsPadded small_file listing 10 200 text (omega (arith, size_100)) narrow
      (omega arith) (omega (arith, size_100))

read_dblock-write_dblock_example :
    let copy = write_dblock text small_file listing 10 200 in
    let got = read_dblock (reread 7 8 small_file copy) copy.mem 10 200 five in
    ((t : ℕ) → t < 200 → got.buf t ≡ text t)
    × ((t : ℕ) → 200 ≤ t → got.buf t ≡ five t)
    × (got.result ≡ to_int 200)
    × (got.offset ≡ 10 + 200)
read_dblock-write_dblock_example =
    read_dblock-write_dblock 7 8 text small_file five 1 listing 10 200 five small_file-IsMapped
      five-IsDistinct (omega arith) narrow (omega arith) (omega arith)

only_fd-IsOpen : IsOpen 1 only_fd small_state
only_fd-IsOpen = record { optab = refl; sb = refl; found = unfold find_target find_fd in refl }

only_fd-HasRoom : HasRoom 1 200 only_fd small_state
only_fd-HasRoom = record {
  is_open = only_fd-IsOpen;
  cached = refl;
  writable = λ e. omega arith;
  below_limit = omega arith;
  enough = unfold needed_blocks in omega arith;
  not_root = λ e. omega arith;
  in_word = omega arith;
}

small_state-IsSound : IsSound five 1 200 only_fd small_state
small_state-IsSound = record {
  mapped = small_file-IsMapped;
  distinct = five-IsDistinct;
  fits = omega arith;
  narrow = narrow;
}

vsfs_read-vsfs_write_example : IsReadBack 7 8 1 200 text five only_fd small_state
vsfs_read-vsfs_write_example =
    vsfs_read-vsfs_write 7 8 1 200 text five only_fd small_state five 1 only_fd-HasRoom
      small_state-IsSound (omega arith) (λ e. omega arith)

vsfs_lseek_past_example :
    (s' : Vsfs) × (vsfs_lseek 1 9000 seek_set small_state ≡ done (s', 9000))
    × IsExtended only_fd 9000 s'
vsfs_lseek_past_example =
    vsfs_lseek_past 1 9000 only_fd small_state only_fd-IsOpen refl (omega (arith, size_100))
      (omega arith) (omega arith)

vsfs_lseek_bounds_example :
    (s' : Vsfs) × (r : ℕ) × (vsfs_lseek 1 30 seek_cur small_state ≡ done (s', r))
    × ((r ≡ seek_error) ⊎ (r ≡ (s'.op_ftable 0).offset))
    × ((s'.op_ftable 0).offset ≤ file_size (file_of only_fd s'))
vsfs_lseek_bounds_example =
    vsfs_lseek_bounds 1 30 seek_cur only_fd small_state only_fd-IsOpen (inl refl)
      (omega (arith, size_100))

-- Offset 256 MiB and 10.
write_dblock_wrapped_example :
    write_dblock text small_file listing 268435466 200
    ≡ write_chunk text 5 (start listing 268435466 200)
write_dblock_wrapped_example =
    write_dblock_wrapped text small_file listing 268435466 200 0 (omega arith) (omega arith)
      (omega arith) (omega arith)

abbrev uncached : Vsfs
uncached = record small_state { cached_mapped = false }
