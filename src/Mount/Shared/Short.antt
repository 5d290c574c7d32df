-- ===== src/Mount/Shared/Short.antt =====
-- The object that src/shm/shm_mount.c makes is not a `struct vsfs_cached_data`.
use test_vsfs.Prelude.{
  ℕ, ◌+◌, ◌-◌, ◌*◌, ◌/◌, ◌^◌, ◌≤◌, ◌<◌, ◌≡◌, refl, arith, ◌∙◌, ap, some, eq→==, ◌==◌, true, Bool,
}
use test_vsfs.Word.{pos, u32}
use test_vsfs.Memory.{Memory, load32}
use test_vsfs.Memory.Laws.{memcpy-inside}
use test_vsfs.Layout.{SbInfo, vsfs_magic}
use test_vsfs.State.{done}
use test_vsfs.Format.{idiv_ceil, write_superblock}
use test_vsfs.Mount.{sb_word, sb_bytes, load_sbi, Object, resize}
use test_vsfs.Mount.Attach.{Answers}
use test_vsfs.Mount.Attach.Filled.{load_sbi_ap}
use test_vsfs.Mount.Attach.Laws.{IsWilling, no_files, creat_open_file_table-no_files}
use test_vsfs.Mount.Fresh.{load_sbi-sb_bytes}
use test_vsfs.Mount.Shared.{
  struct_inode_reg, struct_dbitmap, fill_cached, bitmap_total_size, make_shm_cached, mount,
}

-- The object ends before the member `dbitmap` of the struct, and it has the free map of the blocks
-- where the struct has the inodes.
pub record IsShort (info : SbInfo) (ptr : Memory) (o : Object) : Type 0 where
  pub ends : o.size ≤ struct_dbitmap
  pub misplaced :
      (i : ℕ)
      → i < info.nr_dbitmap_blocks * 4096
      → o.bytes (struct_inode_reg + i) ≡ ptr (info.ofs_dbitmap * 4096 + i)

module _ (st_size : ℕ) (big : 2052 ≤ st_size / 4096) (small : st_size / 4096 < 2 ^ 26) where
  abbrev info : SbInfo
  info = write_superblock st_size

  word : (k : ℕ) → sb_word info k < 2 ^ 32
  unfolding sb_word write_superblock
  word k = ground arith

  few : info.nr_dbitmap_blocks ≤ 2048
  unfolding write_superblock idiv_ceil
  few = ground arith

  one : info.nr_ibitmap_blocks ≡ 1
  unfolding write_superblock
  one = refl

  at_dbitmap : info.ofs_dbitmap ≡ 2050
  unfolding write_superblock
  at_dbitmap = omega arith

  module _ (env : Answers) (ptr : Memory) (o : Object) (w : IsWilling env)
      (head : (i : ℕ) → i < 48 → ptr i ≡ sb_bytes info i) where
    loaded : load_sbi ptr 0 ≡ info
    loaded = load_sbi_ap ptr (sb_bytes info) head ∙ load_sbi-sb_bytes info word

    magic : (load32 ptr 0 == vsfs_magic) ≡ true
    unfolding load_sbi write_superblock
    magic = eq→== (load32 ptr 0) vsfs_magic (ap (λ (i : SbInfo). i.magic) loaded)

    abbrev sized : Object
    sized = resize o (48 + bitmap_total_size info)

    abbrev copy : Object
    copy = record sized { bytes = fill_cached info ptr sized.bytes }

    make_shm_cached-copy : make_shm_cached env ptr o ≡ (copy, true)
    unfolding make_shm_cached
    make_shm_cached-copy = rw loaded (simp (w.name, w.opens, w.sizes, w.maps) refl)

    mount-copy : mount env ptr o ≡ done (copy, some no_files, pos 0)
    unfolding mount
    mount-copy =
        rw (make_shm_cached-copy, magic, creat_open_file_table-no_files env w, mount)
          (simp (w.block)
            (ap (λ (r : Object × Bool). done (r.0, some no_files, pos 0)) make_shm_cached-copy))

    misplaced :
        (i : ℕ)
        → i < info.nr_dbitmap_blocks * 4096
        → copy.bytes (struct_inode_reg + i) ≡ ptr (info.ofs_dbitmap * 4096 + i)
    unfolding fill_cached
    misplaced i h =
        let long : u32 (info.nr_dbitmap_blocks * 4096) ≡ info.nr_dbitmap_blocks * 4096 =
          omega (arith, few) in
        let e : 48 + 4096 + i - (48 + 4096) ≡ i = omega arith in
        rw (one, at_dbitmap, long)
          (memcpy-inside _ (48 + 4096) (λ k. ptr (2050 * 4096 + k)) (info.nr_dbitmap_blocks * 4096)
              (48 + 4096 + i) (omega arith) (omega arith)
            ∙ ap (λ (k : ℕ). ptr (2050 * 4096 + k)) e)

  -- `mount` of an image of 2052 to 2 ^ 26 - 1 blocks with the superblock that `shm_mkfs` writes
  -- succeeds, where the system gives what it is asked for; but the shared object ends before the
  -- place of `dbitmap` in `struct vsfs_cached_data`, and at the place of `inode_reg` it has the
  -- free map of the data blocks.
  pub mount-IsShort :
      (env : Answers) (ptr : Memory) (o : Object)
      → IsWilling env
      → ((i : ℕ) → i < 48 → ptr i ≡ sb_bytes info i)
      → (o' : Object) × (mount env ptr o ≡ done (o', some no_files, pos 0)) × IsShort info ptr o'
  unfolding mount
  mount-IsShort env ptr o w head = (
    copy env ptr o w head,
    mount-copy env ptr o w head,
    record { ends = omega (arith, few, one); misplaced = misplaced env ptr o w head },
  )
