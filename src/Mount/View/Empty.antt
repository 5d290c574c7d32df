-- ===== src/Mount/View/Empty.antt =====
-- A device that was formatted and mounted, as the operations see it: an empty file system.
use test_vsfs.Prelude.{
  ℕ, ◌+◌, ◌-◌, ◌*◌, ◌/◌, ◌^◌, ◌≤◌, ◌<◌, ◌≡◌, refl, arith, ◌∙◌, ap, sym, some, ◌==◌, if◌then◌else◌,
  lt→ltb, ◌⊎◌, inl, inr,
}
use test_vsfs.Word.{pos, u64}
use test_vsfs.Memory.{load32}
use test_vsfs.Layout.{SbInfo, Cached, nr_inodes}
use test_vsfs.State.{done}
use test_vsfs.Spdk.{Nvme, IsReliable}
use test_vsfs.Format.{write_superblock}
use test_vsfs.Format.Regions.{IsLaidOut, write_superblock-IsLaidOut}
use test_vsfs.Bitmap.Search.{free_at, IsWords}
use test_vsfs.Bitmap.Counts.{IsCounted, count_free}
use test_vsfs.Bitmap.Handed.{first_word, free_at-first_word, count_free-first_word, IsHanded}
use test_vsfs.Mount.{Object}
use test_vsfs.Mount.Init.{device_superblock, root_bytes, Buffers, init_vsfs}
use test_vsfs.Mount.Init.Chain.{first_taken, HasBuffers}
use test_vsfs.Mount.Attach.{Answers, mount_vsfs}
use test_vsfs.Mount.Attach.Laws.{IsWilling, no_files}
use test_vsfs.Mount.Fresh.{IsFresh, mount_vsfs-init_vsfs}
use test_vsfs.Mount.View.{load_inode, cached_data}
use test_vsfs.Mount.View.Words.{
  load32-bytes, load32-first_taken, load32-root_bytes, root_bytes-past,
}

-- What the operations find: all blocks but the first are free, all inodes but the root's are free,
-- the counters are right, and the root is a directory of two entries in block 0.
pub record IsEmpty (cd : Cached) : Type 0 where
  pub blocks : IsHanded cd.sbi.nr_dregion_blocks 0 cd
  pub counted : IsCounted cd
  pub inodes : (j : ℕ) → j < nr_inodes → free_at cd.ibitmap j ≡ (if j == 0 then 0 else 1)
  pub inodes_counted : cd.sbi.nr_free_inodes ≡ count_free cd.ibitmap nr_inodes
  pub root :
      ((cd.inode_reg 0).size ≡ 2) × ((cd.inode_reg 0).blocks ≡ 1) × ((cd.inode_reg 0).l1 0 ≡ 0)
  pub others :
      (i : ℕ) → 0 < i → i < nr_inodes → ((cd.inode_reg i).size ≡ 0) × ((cd.inode_reg i).blocks ≡ 0)

module _ (nvme : Nvme) (reliable : IsReliable nvme) (b : Buffers) (env : Answers)
    (sector_size device_size : ℕ) (ns : nvme.Ns) (o : Object) where
  abbrev info : SbInfo
  info = device_superblock sector_size device_size

  module _ (o' : Object) (sized : o'.size ≡ 48 + (2049 + info.nr_dbitmap_blocks) * 4096)
      (f : IsFresh nvme reliable b env sector_size device_size ns o o'.bytes)
      (laid : IsLaidOut (u64 (sector_size * device_size) / 4096) info) where
    abbrev cd : Cached
    cd = cached_data o'

    view_sbi : cd.sbi ≡ info
    unfolding cached_data
    view_sbi = f.sbi

    view_ibitmap : (c : ℕ) → c < 1024 → cd.ibitmap c ≡ first_word c
    unfolding cached_data
    view_ibitmap c h =
        load32-bytes o'.bytes first_taken (48 + c * 4) (c * 4) (λ i l.
          let e : 48 + c * 4 + i ≡ 48 + (c * 4 + i) = omega arith in
          ap o'.bytes e ∙ f.ibitmap (c * 4 + i) (omega arith))
        ∙ load32-first_taken c

    view_dbitmap : (c : ℕ) → c < info.nr_dbitmap_blocks * 1024 → cd.dbitmap c ≡ first_word c
    unfolding cached_data
    view_dbitmap c h = rw (lt→ltb (8392752 + c * 4) o'.size (omega (arith, sized))) (
        load32-bytes o'.bytes first_taken (8392752 + c * 4) (c * 4) (λ i l.
          let e : 8392752 + c * 4 + i ≡ 48 + 2049 * 4096 + (c * 4 + i) = omega arith in
          ap o'.bytes e ∙ f.dbitmap (c * 4 + i) (omega arith))
        ∙ load32-first_taken c)

    view-IsWords : IsWords cd.dbitmap
    unfolding cached_data
    view-IsWords c = elim (within c) [
      | inl h ↦ ground (arith, view_dbitmap c h)
      | inr h ↦ ground (arith, sized)
    ]
      where
        within : (k : ℕ) → (k < info.nr_dbitmap_blocks * 1024) ⊎ (info.nr_dbitmap_blocks * 1024 ≤ k)
        within k = omega arith

    view_root :
        ((cd.inode_reg 0).size ≡ 2) × ((cd.inode_reg 0).blocks ≡ 1) × ((cd.inode_reg 0).l1 0 ≡ 0)
    unfolding cached_data load_inode
    view_root =
        let part : (k : ℕ) → k < 4000 → load32 o'.bytes (48 + 4096 + k) ≡ load32 root_bytes k =
          λ k h. load32-bytes o'.bytes root_bytes (48 + 4096 + k) k (λ i l.
            let e : 48 + 4096 + k + i ≡ 48 + 4096 + (k + i) = omega arith in
            ap o'.bytes e ∙ f.root (k + i) (omega arith)) in
        (
          part 8 (omega arith) ∙ load32-root_bytes.0,
          part 4 (omega arith) ∙ load32-root_bytes.1,
          part 12 (omega arith) ∙ load32-root_bytes.2,
        )

    -- Behind the root's members all bytes of the inodes are zero.
    view_zero : (a : ℕ) → 4160 ≤ a → a < 8392752 → o'.bytes a ≡ 0
    view_zero a h l = elim (side a) [
      | inl low ↦
          let e : a ≡ 48 + 4096 + (a - 4144) = omega arith in
          ap o'.bytes e
          ∙ f.root (a - 4144) (omega arith)
          ∙ root_bytes-past (a - 4144) (omega arith) (omega arith)
      | inr high ↦
          let e : a ≡ 48 + 8192 + (a - 8240) = omega arith in
          ap o'.bytes e ∙ f.inodes (a - 8240) (omega arith)
    ]
      where
        side : (k : ℕ) → (k < 8240) ⊎ (8240 ≤ k)
        side k = omega arith

    view_others :
        (i : ℕ)
        → 0 < i
        → i < nr_inodes
        → ((cd.inode_reg i).size ≡ 0) × ((cd.inode_reg i).blocks ≡ 0)
    unfolding cached_data load_inode load32
    view_others i h l =
        let zero_word : (k : ℕ) → k < 252 → load32 o'.bytes (4144 + i * 256 + k) ≡ 0 = λ k small.
          load32-bytes o'.bytes (λ _. 0) (4144 + i * 256 + k) 0
            (λ j low. view_zero (4144 + i * 256 + k + j) (omega arith) (omega arith)) in
        (zero_word 8 (omega arith), zero_word 4 (omega arith))

    view_blocks :
        (j : ℕ) → j < cd.sbi.nr_dregion_blocks → free_at cd.dbitmap j ≡ (if j == 0 then 0 else 1)
    view_blocks j h =
        let size : cd.sbi.nr_dregion_blocks ≡ info.nr_dregion_blocks =
          ap (λ (s : SbInfo). s.nr_dregion_blocks) view_sbi in
        free_at-first_word cd.dbitmap (info.nr_dbitmap_blocks * 1024) view_dbitmap j
          (omega (arith, size, laid.enough_bits, h))

    view_counter : cd.sbi.nr_free_dblock ≡ cd.sbi.nr_dregion_blocks - 1
    view_counter =
        let size : cd.sbi.nr_dregion_blocks ≡ info.nr_dregion_blocks =
          ap (λ (s : SbInfo). s.nr_dregion_blocks) view_sbi in
        let left : cd.sbi.nr_free_dblock ≡ info.nr_free_dblock =
          ap (λ (s : SbInfo). s.nr_free_dblock) view_sbi in
        omega (arith, size, left, laid.free)

    view-IsEmpty : IsEmpty cd
    unfolding device_superblock write_superblock
    view-IsEmpty =
        let free_inodes = free_at-first_word cd.ibitmap 1024 view_ibitmap in
        let inodes_left : cd.sbi.nr_free_inodes ≡ nr_inodes - 1 =
          ap (λ (s : SbInfo). s.nr_free_inodes) view_sbi in
        record {
          blocks = record {
            region = refl;
            counted = omega (arith, view_counter);
            words = view-IsWords;
            blocks = λ j h. ground (arith, view_blocks j h);
          };
          counted =
              view_counter
              ∙ sym (count_free-first_word cd.dbitmap cd.sbi.nr_dregion_blocks view_blocks);
          inodes = λ j h. free_inodes j h;
          inodes_counted =
              inodes_left ∙ sym (count_free-first_word cd.ibitmap nr_inodes free_inodes);
          root = view_root;
          others = view_others;
        }

  -- A reliable device of at least 34819 and fewer than 2 ^ 32 blocks, counted as `init_vsfs` counts
  -- them, is formatted by `init_vsfs` and mounted by `mount_vsfs`, both without a fault where the
  -- system gives what it is asked for. The operations then find an empty file system in the shared
  -- object: both free maps have every number free but 0, both counters of the superblock say how
  -- many are, the root is an inode of two entries in block 0, and the other inodes have no block.
  pub mount_vsfs-IsEmpty :
      34819 ≤ u64 (sector_size * device_size) / 4096
      → u64 (sector_size * device_size) / 4096 < 2 ^ 32
      → HasBuffers b
      → IsWilling env
      → (ns' : nvme.Ns) × (o' : Object) × (init_vsfs nvme b sector_size device_size ns
          ≡ done (ns', pos 0))
        × (mount_vsfs nvme env ns' o ≡ done (o', some no_files, pos 0))
        × IsEmpty (cached_data o')
  unfolding device_superblock
  mount_vsfs-IsEmpty big small given w =
      let (ns', o', ran, mounted, sized, f) =
        mount_vsfs-init_vsfs nvme reliable b env sector_size device_size ns o big small given w in
      (
        ns',
        o',
        ran,
        mounted,
        view-IsEmpty o' sized f
            (write_superblock-IsLaidOut (u64 (sector_size * device_size)) (omega arith) small),
      )
