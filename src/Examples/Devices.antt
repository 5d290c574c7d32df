-- ===== src/Examples/Devices.antt =====
-- A device whose blocks are functions, and runs of the operations on it.
use test_vsfs.Prelude.{
  ℕ, ◌+◌, ◌-◌, ◌*◌, ◌/◌, ◌%◌, ◌^◌, ◌<◌, ◌≡◌, ◌≢◌, refl, ap, arith, ltb, leb, ◌&&◌, ◌==◌, inl,
  if◌then◌else◌, [], ◌∷◌, true,
}
use test_vsfs.Word.{ℤ, to_int, minus_one}
use test_vsfs.Memory.{load32}
use test_vsfs.Layout.{Inode}
use test_vsfs.Blocks.{file_block, needed_blocks}
use test_vsfs.Blocks as Shared
use test_vsfs.Blocks.Map.{IsMapped, file_block-l1}
use test_vsfs.State.{table, at_end, done, fault}
use test_vsfs.Session.{find_target, find_fd}
use test_vsfs.FileIo.Write.{write_dblock}
use test_vsfs.FileIo.Write.Laws.{IsDistinct}
use test_vsfs.FileIo.Seek.{seek_set}
use test_vsfs.Spdk.{Nvme, IsReliable}
use test_vsfs.Device.{File, region}
use test_vsfs.Device.Alloc.{alloc_block}
use test_vsfs.Device.Alloc.Laws as AllocLaws
use test_vsfs.Device.Alloc.Whole.{alloc_block-shared}
use test_vsfs.Device.Info.{get_inode_info}
use test_vsfs.Device.Info.Laws.{IsWord, get_inode_info-file_block}
use test_vsfs.Device.Write as DeviceWrite
use test_vsfs.Device.Write.Laws as WriteLaws
use test_vsfs.Device.Write.Whole as WriteWhole
use test_vsfs.Device.Read.{read_dblock}
use test_vsfs.Device.Read.Aligned.{taken, IsLast, read_dblock-IsLast}
use test_vsfs.Device.RoundTrip.{read_dblock-stored}
use test_vsfs.Directory as Directory
use test_vsfs.Directory.Search.{has_name}
use test_vsfs.Device.State.{InodeReg, Mounted, Scratch, null_reg, cached_reg, stale_reg}
use test_vsfs.Device.Directory.{find_entry, name_taken, vsfs_creat}
use test_vsfs.Device.Directory.Search.{find_entry-shared}
use test_vsfs.Device.Directory.Creat.{vsfs_creat_twice}
use test_vsfs.Device.Files.{vsfs_write, vsfs_lseek, vsfs_read}
use test_vsfs.Device.Files.Target.{IsReady}
use test_vsfs.Device.Files.Store.{IsFiled, vsfs_write-IsFiled}
use test_vsfs.Device.Files.Rewind.{vsfs_read-rewound}
use test_vsfs.Device.Files.Extend.{IsDoubled, vsfs_lseek-IsDoubled}
use test_vsfs.Examples.{small_root, small_file, small_cached, only_fd, all_well}

-- Sector `b` of the namespace `ns` is `ns b`.
abbrev pub disk : Nvme
disk = record {
  Ns = ℕ → ℕ → ℕ;
  cmd_read = λ ns lba count. (0, λ i. ns (lba + i / 512) (i % 512));
  cmd_write = λ ns payload lba count. (
    0,
    λ at i. if leb lba at && ltb at (lba + count) then payload ((at - lba) * 512 + i) else ns at i,
  );
}

pub disk-IsReliable : IsReliable disk
disk-IsReliable = record {
  reads = λ ns lba count h. refl;
  writes = λ ns payload lba count h. refl;
  written = λ ns payload lba count at i h l.
      let e : at + i / 512 ≡ at = omega arith in
      let f : i % 512 ≡ i = omega arith in rw (e, f) refl;
  sectors = λ ns lba count i h.
      let e : lba + i / 512 + i % 512 / 512 ≡ lba + i / 512 = omega arith in
      let f : i % 512 % 512 ≡ i % 512 = omega arith in rw (e, f) refl;
}

-- Block 7 of the data region begins with the pointer 9.
abbrev blocks_9 : ℕ → ℕ → ℕ
blocks_9 b i = if b == 16464 then (if i == 0 then 9 else 0) else 0

abbrev text : ℕ → ℕ
text i = b'a' + i % 26

abbrev zeros : ℕ → ℕ
zeros _ = 0

-- A file of 50 blocks: the last of them has its number in a pointer block.
abbrev tall : Inode
tall = record small_root { blocks = 50; l2 = λ _. 7 }

tall-IsWord : IsWord tall (region disk 2051 blocks_9)
tall-IsWord = record {
  l2 = λ i h. omega arith;
  l3 = omega arith;
  entry = λ i h. unfold load32 region in ground arith;
}

get_inode_info-file_block_example :
    (get_inode_info disk 2051 blocks_9 zeros text text 3 tall).block 49
    ≡ file_block tall (region disk 2051 blocks_9) 49
get_inode_info-file_block_example =
    get_inode_info-file_block disk disk-IsReliable 2051 (omega arith) blocks_9 tall tall-IsWord
      zeros text text 3 49 (omega arith) (omega arith)

-- The blocks 5, 6, and so on.
abbrev from_five : ℕ → ℕ
from_five k = k + 5

from_five-IsDistinct : IsDistinct from_five 3
from_five-IsDistinct i j h l ne e = ne (omega arith)

from_five-word : (k : ℕ) → k < 3 → from_five k < 2 ^ 32
from_five-word k h = omega arith

write_dblock-IsStored_example :
    WriteWhole.IsStored disk 2051 text from_five blocks_9 5 5000
      (DeviceWrite.write_dblock disk 2051 text from_five blocks_9 zeros 5 5000)
write_dblock-IsStored_example =
    WriteWhole.write_dblock-IsStored disk disk-IsReliable 2051 (omega arith) text from_five 3
      from_five-word blocks_9 zeros 5 5000 (omega arith) (omega arith) from_five-IsDistinct

abbrev three_blocks : Inode
three_blocks = record small_root { mode = 7; blocks = 3; size = 0; l1 = from_five }

three_blocks-IsMapped : IsMapped three_blocks from_five 3 (region disk 2051 blocks_9)
three_blocks-IsMapped = record {
  agrees = λ j l. file_block-l1 three_blocks (region disk 2051 blocks_9) j (omega arith);
  apart2 = λ j k h l b c e. omega arith;
  apart3 = λ j k h b c e. omega arith;
  apart_root = λ j k h b c e. omega arith;
  within = omega arith;
}

write_dblock-shared_example :
    WriteLaws.IsSame disk disk-IsReliable 2051
      (omega arith)
      text
      (DeviceWrite.write_dblock disk 2051 text from_five blocks_9 zeros 5 5000)
      (write_dblock text three_blocks (region disk 2051 blocks_9) 5 5000)
write_dblock-shared_example =
    WriteWhole.write_dblock-shared disk disk-IsReliable 2051 (omega arith) text from_five 3
      from_five-word blocks_9 zeros 5 5000 (omega arith) (omega arith) three_blocks
      three_blocks-IsMapped (inl (omega arith))

-- An open file of three blocks, with 9000 bytes.
abbrev open_file : File
open_file = record {
  size = 9000;
  mode = 7;
  blocks = 3;
  block = from_five;
  inode = 3;
  atime = 0;
  ctime = 0;
  mtime = 0;
}

-- Both blocks are read, and the second is what the buffer has.
read_dblock-IsLast_example :
    IsLast disk 2051 blocks_9 open_file
      (taken 9000 100 8000)
      ((100 + taken 9000 100 8000 - 1) / 4096)
      100
      8000
      text
      (read_dblock disk 2051 blocks_9 open_file 100 8000 text)
read_dblock-IsLast_example =
    read_dblock-IsLast disk disk-IsReliable 2051 (omega arith) blocks_9 open_file from_five-word
      (omega arith) 100 8000 text (omega arith) (omega arith) (omega arith) (omega arith)

read_dblock-stored_example :
    (read_dblock disk 2051
        (DeviceWrite.write_dblock disk 2051 text from_five blocks_9 zeros 4096 4000).ns
        open_file
        4096
        4000
        zeros).buf
      26
    ≡ b'a'
read_dblock-stored_example =
    read_dblock-stored disk disk-IsReliable 2051 (omega arith) open_file from_five-word
      (omega arith) from_five-IsDistinct (omega arith) blocks_9 text zeros zeros 4096 4000
      (omega arith) (omega arith) (omega arith) 26 (omega arith)

alloc_block-shared_example :
    (let on_device = alloc_block disk 2051 small_file small_cached blocks_9 text text 60 in
      let shared = Shared.alloc_block small_file (region disk 2051 blocks_9) small_cached 60 in
      AllocLaws.IsSame disk disk-IsReliable 2051 (omega arith) on_device.0 shared.0
      × (on_device.1 ≡ shared.1))
alloc_block-shared_example =
    alloc_block-shared disk disk-IsReliable 2051 (omega arith) small_file small_cached blocks_9 text
      text 60 (λ i h. omega arith) (omega arith) (omega arith)

-- A file with three blocks and no bytes yet, open at its start.
abbrev mounted : Mounted (ℕ → ℕ → ℕ)
mounted = record {
  ns = blocks_9;
  cached = record small_cached { inode_reg = λ _. three_blocks };
  inode_reg = cached_reg;
  op_counter = 1;
  op_ftable = λ _. record {
    offset = 0;
    inode_nr = 3;
    ptr_counter = 1;
    lock = 0;
    file_ptr = record open_file { size = 0 };
  };
  fd_table = table (only_fd ∷ []) at_end;
  cached_mapped = true;
  optab_mapped = true;
}

abbrev scratch : Scratch
scratch = record { array = zeros; ptr_reg = text; l3_ptr_reg = text; dma_buf = text }

mounted-IsReady : IsReady 1 only_fd mounted
mounted-IsReady = record {
  optab = refl;
  copy = refl;
  found = unfold find_target find_fd in refl;
  flags = refl;
}

vsfs_write-IsFiled_example :
    (d : Mounted (ℕ → ℕ → ℕ)) × (vsfs_write disk 7 scratch 1 text 200 mounted
      ≡ done (d, to_int 200))
    × IsFiled disk text 200 0 mounted d
vsfs_write-IsFiled_example =
    vsfs_write-IsFiled disk 7 scratch 1 only_fd text 200 mounted mounted-IsReady disk-IsReliable
      (omega arith) 3 (omega arith) from_five-word from_five-IsDistinct (omega arith) (omega arith)
      (unfold needed_blocks in omega arith)

vsfs_read-rewound_example :
    (s1 s2 s3 : Mounted (ℕ → ℕ → ℕ)) × (r : ℤ) × (vsfs_write disk 7 scratch 1 text 200 mounted
      ≡ done (s1, r))
    × (vsfs_lseek disk scratch 1 0 seek_set s1 ≡ done (s2, 0))
    × (vsfs_read disk 7 1 200 zeros s2 ≡ done (s3, minus_one, zeros))
vsfs_read-rewound_example =
    vsfs_read-rewound disk 7 scratch 1 only_fd text 200 mounted mounted-IsReady refl (omega arith)
      (unfold needed_blocks in omega arith) 200 zeros

vsfs_lseek-IsDoubled_example :
    (d : Mounted (ℕ → ℕ → ℕ)) × (vsfs_lseek disk scratch 1 20000 seek_set mounted ≡ done (d, 20000))
    × IsDoubled disk disk-IsReliable scratch mounted (omega arith) 0 20000 d
vsfs_lseek-IsDoubled_example =
    vsfs_lseek-IsDoubled disk disk-IsReliable scratch mounted (omega arith) 1 only_fd 20000
      mounted-IsReady refl (λ i h. omega arith) (omega arith) refl (omega arith) (omega arith)
      (omega arith) (omega arith)

abbrev code : InodeReg → ℕ
code null_reg = 0
code cached_reg = 1
code stale_reg = 2

cached-not_stale : cached_reg ≢ stale_reg
cached-not_stale e = absurd (omega (arith, ap code e))

find_entry-shared_example :
    (find_entry disk 2051 blocks_9 small_root text (b'a' ∷ []) 40 0
      ≡ Directory.find_entry small_root (region disk 2051 blocks_9) (b'a' ∷ []) 40 0)
    × (name_taken disk 2051 blocks_9 small_root text (b'a' ∷ []) 40 0
        ≡ has_name (region disk 2051 blocks_9) (b'a' ∷ []) 40 0)
find_entry-shared_example =
    find_entry-shared disk disk-IsReliable 2051 (omega arith) blocks_9 (b'a' ∷ []) (omega arith)
      small_root 40 (omega arith) (λ k h. refl) text

vsfs_creat_twice_example :
    (d : Mounted (ℕ → ℕ → ℕ)) × (r : ℤ) × (vsfs_creat disk all_well scratch text
        (b'a' ∷ [])
        2
        mounted
      ≡ done (d, r))
    × (vsfs_creat disk all_well scratch text (b'b' ∷ []) 0 d ≡ fault)
vsfs_creat_twice_example =
    vsfs_creat_twice disk all_well scratch text (b'a' ∷ []) 2 mounted (omega arith) refl
      cached-not_stale all_well scratch text (b'b' ∷ []) 0 (omega arith) refl
