-- ===== src/Mount/Init.antt =====
-- `init_vsfs` of src/ufs/vsfs_init.c: the regions written to a device, one behind the other.
pub mod Chain
pub mod Laws
use test_vsfs.Prelude.{ℕ, ◌+◌, ◌*◌, ◌/◌, ◌-◌, ◌^◌, Bool, true, ltb, ◌==◌, [], ◌∷◌, if◌then◌else◌}
use test_vsfs.Word.{ℤ, pos, u32, u64, sub32}
use test_vsfs.Memory.{Memory, memset, store16, store32, strcpy}
use test_vsfs.Layout.{SbInfo, block_size}
use test_vsfs.State.{Run, done, fault}
use test_vsfs.Spdk.{Nvme, write_spdk}
use test_vsfs.Format.{write_superblock}
use test_vsfs.Mount.{sb_bytes}

-- A writer's end: the device and `*lba_cnt` where it succeeds, or the device where it fails.
-- `crashed` is a use of a null pointer, or `free` of a buffer that is not from `malloc`.
pub data Progress (Ns : Type 0) : Type 0 where
  written : Ns → (lba_cnt : ℕ) → Progress Ns
  failed : Ns → Progress Ns
  crashed : Progress Ns

infixl 5 ◌>>=◌
abbrev pub ◌>>=◌ : {Ns : Type 0} → Progress Ns → (Ns × ℕ → Progress Ns) → Progress Ns
written ns lba >>= f = f (ns, lba)
failed ns >>= f = failed ns
crashed >>= f = crashed

-- A buffer of `alloc_dma_buffer`, which is zeroed.
abbrev pub zeroed : Memory
zeroed _ = 0

-- The superblock of a device of `device_size` units of `block_size` bytes.
unfoldable pub device_superblock : (sector_size device_size : ℕ) → SbInfo
device_superblock sector_size device_size = write_superblock (u64 (sector_size * device_size))

-- The root: drwx, one block, the entries `.` and `..`.
unfoldable pub root_bytes : Memory
root_bytes =
    store32 (store32 (store32 (store32 (memset zeroed 0 0 block_size) 0 0x0f) 4 1) 8 2) 12 0

-- All bits are set but the first. The word of 64 bits is stored as its two halves.
pub first_bytes : Memory
first_bytes = store32 (store32 (memset zeroed 0 0xff block_size) 0 0xfffffffe) 4 0xffffffff

-- The entries `.` and `..` of inode 0.
pub directory_bytes : Memory
directory_bytes =
    strcpy (store16 (strcpy (store16 zeroed 0 0) 2 (b'.' ∷ [])) 256 0) 258 (b'.' ∷ b'.' ∷ [])

-- Which of the calls of `alloc_dma_buffer` give a buffer.
pub record Buffers : Type 0 where
  pub superblock : Bool
  pub inode_bitmap : Bool
  pub root : Bool
  pub inodes : Bool
  pub data_bitmap : Bool
  pub more_bitmap : Bool
  pub directory : Bool

module _ (nvme : Nvme) where
  -- `write_spdk` at `*lba_cnt`, which then moves behind the blocks.
  pub write_next : (buf : Memory) → (num : ℕ) → nvme.Ns × ℕ → Progress nvme.Ns
  write_next buf num (ns, lba) =
      let (rc, ns') = write_spdk nvme ns buf lba num in
      if rc == 0 then written ns' (u64 (lba + num)) else failed ns'

  -- The same where the buffer was tested, or was not and is filled at once.
  pub tested : (given : Bool) (buf : Memory) → (num : ℕ) → nvme.Ns × ℕ → Progress nvme.Ns
  tested given buf num (ns, lba) = if given then write_next buf num (ns, lba) else failed ns

  pub untested : (given : Bool) (buf : Memory) → (num : ℕ) → nvme.Ns × ℕ → Progress nvme.Ns
  untested given buf num (ns, lba) =
      if given
      then write_next buf num (ns, lba)
      else if u32 (num * block_size) == 0
      then write_next zeroed num (ns, lba)
      else crashed

  -- `write_superblock`. Where the write fails, the buffer goes to `free`.
  pub put_superblock : (given : Bool) → SbInfo → nvme.Ns × ℕ → Progress nvme.Ns
  put_superblock given info (ns, lba) = elim (tested given (sb_bytes info) 1 (ns, lba)) [
    | written ns' lba' ↦ written ns' lba'
    | failed ns' ↦ if given then crashed else failed ns'
    | crashed ↦ crashed
  ]

  pub write_inode_bitmap : Buffers → nvme.Ns × ℕ → Progress nvme.Ns
  write_inode_bitmap b = tested b.inode_bitmap first_bytes 1

  pub write_inode_region : Buffers → SbInfo → nvme.Ns × ℕ → Progress nvme.Ns
  write_inode_region b info at = do
    rest ← tested b.root root_bytes 1 at
    untested b.inodes (memset zeroed 0 0 (u32 (sub32 info.nr_iregion_blocks 1 * block_size)))
        (sub32 info.nr_iregion_blocks 1) rest

  pub write_data_bitmap : Buffers → SbInfo → nvme.Ns × ℕ → Progress nvme.Ns
  write_data_bitmap b info at = do
    rest ← tested b.data_bitmap first_bytes 1 at
    untested b.more_bitmap
        (memset zeroed 0 0xff (u32 (sub32 info.nr_dbitmap_blocks 1 * block_size)))
        (sub32 info.nr_dbitmap_blocks 1) rest

  pub write_data_region : Buffers → nvme.Ns × ℕ → Progress nvme.Ns
  write_data_region b = tested b.directory directory_bytes 1

  -- The calls of `init_vsfs` in their order.
  pub write_regions : Buffers → SbInfo → nvme.Ns → Progress nvme.Ns
  write_regions b info ns = do
    at_ibitmap ← put_superblock b.superblock info (ns, 0)
    at_iregion ← write_inode_bitmap b at_ibitmap
    at_dbitmap ← write_inode_region b info at_iregion
    at_dregion ← write_data_bitmap b info at_dbitmap
    write_data_region b at_dregion

  -- `init_vsfs`. `EXIT_FAILURE` is 1.
  pub init_vsfs : Buffers → (sector_size device_size : ℕ) → nvme.Ns → Run (nvme.Ns × ℤ)
  unfolding write_regions
  init_vsfs b sector_size device_size ns =
      elim (write_regions b (device_superblock sector_size device_size) ns) [
        | written ns' lba ↦ done (ns', pos 0)
        | failed ns' ↦ done (ns', pos 1)
        | crashed ↦ fault
      ]
