-- ===== src/Examples.antt =====
-- Concrete states and runs of the operations.
mod Maps
mod Files
mod Descriptors
mod Images
mod Devices
mod Mounts
mod Shells
use test_vsfs.Prelude.{ℕ, ◌==◌, if◌then◌else◌, List, [], ◌∷◌, true}
use test_vsfs.Memory.{Memory}
use test_vsfs.Layout.{SbInfo, Inode, Disk, Cached}
use test_vsfs.State.{OpEntry, FdEntry, at_end, table, Vsfs, Env}

abbrev pub small_sbi : SbInfo
small_sbi = record {
  magic = 0xf0000000;
  nr_blocks = 2084;
  ofs_ibitmap = 1;
  ofs_iregion = 2;
  ofs_dbitmap = 2050;
  ofs_dregion = 2051;
  nr_ibitmap_blocks = 1;
  nr_iregion_blocks = 2048;
  nr_dbitmap_blocks = 1;
  nr_dregion_blocks = 8;
  nr_free_inodes = 1;
  nr_free_dblock = 1;
}

-- A free map with number 3 alone free.
abbrev pub only_three : ℕ → ℕ
only_three c = if c == 0 then 8 else 0

abbrev pub small_root : Inode
small_root = record {
  mode = 15;
  blocks = 1;
  size = 1;
  l1 = λ k. k;
  l2 = λ _. 0;
  l3 = λ _. 0;
  atime = 0;
  ctime = 0;
  mtime = 0;
}

-- A file with the one block 5, and 100 bytes.
abbrev pub small_file : Inode
small_file = record small_root { mode = 7; size = 100; l1 = λ _. 5 }

abbrev pub small_cached : Cached
small_cached = record {
  sbi = small_sbi;
  ibitmap = only_three;
  inode_reg = λ _. small_file;
  dbitmap = only_three;
}

-- Inode 3 has the name `a`.
abbrev pub listing : Memory
listing a = if a == 0 then 3 else if a == 2 then b'a' else 0

abbrev pub only_fd : FdEntry
only_fd = record { index = 1; ptr = 0; path = 0 ∷ 3 ∷ []; flags = 2 }

-- One process that has the file open, at offset 10.
abbrev pub small_state : Vsfs
small_state = record {
  disk = record { inode_reg = λ i. if i == 0 then small_root else small_file; data_reg = listing };
  cached = small_cached;
  op_counter = 1;
  op_ftable = λ _. record { offset = 10; inode_nr = 3; ptr_counter = 1; lock = 0 };
  fd_table = table (only_fd ∷ []) at_end;
  sb_mapped = true;
  cached_mapped = true;
  optab_mapped = true;
}

abbrev pub all_well : Env
all_well = record {
  sb_opens = true;
  cached_opens = true;
  optab_opens = true;
  table_alloc = true;
  entry_alloc = true;
  path_alloc = true;
  step_alloc = true;
  stale_flags = 0;
  now = 7;
}
