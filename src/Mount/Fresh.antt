-- ===== src/Mount/Fresh.antt =====
-- A device that was formatted and then mounted.
use test_vsfs.Prelude.{
  ℕ, ◌+◌, ◌*◌, ◌/◌, ◌%◌, ◌^◌, ◌≤◌, ◌<◌, ◌≡◌, refl, arith, ◌∙◌, ap, sym, subst, some, lt→ltb,
}
use test_vsfs.Word.{pos, u64}
use test_vsfs.Memory.{Memory, byte_of, load32}
use test_vsfs.Layout.{SbInfo}
use test_vsfs.State.{done}
use test_vsfs.Spdk.{Nvme, IsReliable}
use test_vsfs.Device.{region}
use test_vsfs.Format.{idiv_ceil, write_superblock}
use test_vsfs.Mount.{sb_word, sb_bytes, load_sbi, Object}
use test_vsfs.Mount.Init.{device_superblock, root_bytes, Buffers, init_vsfs}
use test_vsfs.Mount.Init.Chain.{first_taken, IsGeometry, HasBuffers}
use test_vsfs.Mount.Init.Laws.{init_vsfs-IsFormatted}
use test_vsfs.Mount.Attach.{Answers, mount_vsfs}
use test_vsfs.Mount.Attach.Filled.{load_sbi_ap}
use test_vsfs.Mount.Attach.Laws.{IsWilling, no_files, device_sbi, mount_vsfs-IsCopy}

-- A struct that was stored is loaded.
module _ (info : SbInfo) (words : (k : ℕ) → sb_word info k < 2 ^ 32) where
  sb_byte : (k j : ℕ) → k < 12 → j < 4 → sb_bytes info (4 * k + j) ≡ byte_of (sb_word info k) j
  unfolding sb_bytes
  sb_byte k j h l =
      let q : (4 * k + j) / 4 ≡ k = omega arith in
      let r : (4 * k + j) % 4 ≡ j = omega arith in
      rw (lt→ltb (4 * k + j) 48 (omega arith), q, r) refl

  load32-sb_bytes : (k : ℕ) → k < 12 → load32 (sb_bytes info) (4 * k) ≡ sb_word info k
  unfolding load32
  load32-sb_bytes k h =
      let e : 4 * k ≡ 4 * k + 0 = omega arith in
      let first : sb_bytes info (4 * k) ≡ byte_of (sb_word info k) 0 =
        ap (sb_bytes info) e ∙ sb_byte k 0 h (omega arith) in
      rw
        (
          first,
          sb_byte k 1 h (omega arith),
          sb_byte k 2 h (omega arith),
          sb_byte k 3 h (omega arith),
        )
        (omega (arith, words k))

  pub load_sbi-sb_bytes : load_sbi (sb_bytes info) 0 ≡ info
  unfolding load_sbi sb_word
  load_sbi-sb_bytes =
      rw
        (
          load32-sb_bytes 0 (omega arith),
          load32-sb_bytes 1 (omega arith),
          load32-sb_bytes 2 (omega arith),
          load32-sb_bytes 3 (omega arith),
          load32-sb_bytes 4 (omega arith),
          load32-sb_bytes 5 (omega arith),
          load32-sb_bytes 6 (omega arith),
          load32-sb_bytes 7 (omega arith),
          load32-sb_bytes 8 (omega arith),
          load32-sb_bytes 9 (omega arith),
          load32-sb_bytes 10 (omega arith),
          load32-sb_bytes 11 (omega arith),
        )
        refl

module _ (sector_size device_size : ℕ) (big : 34819 ≤ u64 (sector_size * device_size) / 4096)
    (small : u64 (sector_size * device_size) / 4096 < 2 ^ 32) where
  pub device_superblock-word :
      (k : ℕ) → sb_word (device_superblock sector_size device_size) k < 2 ^ 32
  unfolding sb_word device_superblock write_superblock
  device_superblock-word k = ground arith

  pub device_superblock-IsGeometry : IsGeometry (device_superblock sector_size device_size)
  unfolding device_superblock write_superblock idiv_ceil
  device_superblock-IsGeometry = record {
    magic = refl;
    ofs_ibitmap = refl;
    ofs_iregion = refl;
    ofs_dbitmap = omega arith;
    ofs_dregion = ground arith;
    nr_ibitmap_blocks = refl;
    nr_iregion_blocks = refl;
    more = ground arith;
    few = ground arith;
  }

module _ (nvme : Nvme) (reliable : IsReliable nvme) (b : Buffers) (env : Answers)
    (sector_size device_size : ℕ) (ns : nvme.Ns) (o : Object) where
  abbrev info : SbInfo
  info = device_superblock sector_size device_size

  -- The shared object of a device that was just formatted.
  pub record IsFresh (m : Memory) : Type 0 where
    pub sbi : load_sbi m 0 ≡ info
    pub ibitmap : (i : ℕ) → i < 4096 → m (48 + i) ≡ first_taken i
    pub root : (i : ℕ) → i < 4096 → m (48 + 4096 + i) ≡ root_bytes i
    pub inodes : (i : ℕ) → i < 2047 * 4096 → m (48 + 8192 + i) ≡ 0
    pub dbitmap :
        (i : ℕ) → i < info.nr_dbitmap_blocks * 4096 → m (48 + 2049 * 4096 + i) ≡ first_taken i

  -- The object is what `init_vsfs` wrote, read region by region.
  pub mount_vsfs-init_vsfs :
      34819 ≤ u64 (sector_size * device_size) / 4096
      → u64 (sector_size * device_size) / 4096 < 2 ^ 32
      → HasBuffers b
      → IsWilling env
      → (ns' : nvme.Ns) × (o' : Object) × (init_vsfs nvme b sector_size device_size ns
          ≡ done (ns', pos 0))
        × (mount_vsfs nvme env ns' o ≡ done (o', some no_files, pos 0))
        × (o'.size ≡ 48 + (2049 + info.nr_dbitmap_blocks) * 4096)
        × IsFresh o'.bytes
  mount_vsfs-init_vsfs big small given w =
      let g = device_superblock-IsGeometry sector_size device_size big small in
      let (ns', ran, f) =
        init_vsfs-IsFormatted nvme reliable b sector_size device_size ns given g in
      let same : device_sbi nvme ns' ≡ info =
        load_sbi_ap (region nvme 0 ns') (sb_bytes info) (λ i h. f.sb i (omega arith))
        ∙ load_sbi-sb_bytes info (device_superblock-word sector_size device_size big small) in
      let (o', mounted, c) =
        mount_vsfs-IsCopy nvme reliable env w ns' o (subst IsGeometry (sym same) g) in
      let blocks : (device_sbi nvme ns').nr_dbitmap_blocks ≡ info.nr_dbitmap_blocks =
        ap (λ (i : SbInfo). i.nr_dbitmap_blocks) same in
      (
        ns',
        o',
        ran,
        mounted,
        omega (arith, c.size, blocks),
        record {
          sbi = load_sbi_ap o'.bytes (region nvme 0 ns') (c.parts).sb_part ∙ same;
          ibitmap = λ i h. (c.parts).ibitmap_part i h ∙ f.ibitmap i h;
          root = λ i h. (c.parts).iregion_part i (omega arith) ∙ f.root i h;
          inodes = λ i h.
              let e : 48 + 8192 + i ≡ 48 + 4096 + (4096 + i) = omega arith in
              let e' : 2 * 4096 + (4096 + i) ≡ 3 * 4096 + i = omega arith in
              ap o'.bytes e
              ∙ (c.parts).iregion_part (4096 + i) (omega arith)
              ∙ ap (region nvme 0 ns') e'
              ∙ f.inodes i h;
          dbitmap = λ i h. (c.parts).dbitmap_part i (omega (arith, blocks)) ∙ f.dbitmap i h;
        },
      )
