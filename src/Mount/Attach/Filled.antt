-- ===== src/Mount/Attach/Filled.antt =====
-- What the copies into the shared object leave in it.
use test_vsfs.Prelude.{ℕ, ◌+◌, ◌-◌, ◌*◌, ◌≤◌, ◌<◌, ◌≡◌, refl, arith, ◌∙◌, ap, inl}
use test_vsfs.Memory.{Memory, memcpy, load32}
use test_vsfs.Memory.Laws.{memcpy-inside, memcpy-outside}
use test_vsfs.Layout.{SbInfo}
use test_vsfs.Mount.{load_sbi}
use test_vsfs.Mount.Init.Chain.{IsGeometry}
use test_vsfs.Mount.Attach.{dbitmap_size, cached_iregion, cached_dbitmap, fill_cached}

-- Two memories with the same struct at their start.
module _ (m m' : Memory) (h : (i : ℕ) → i < 48 → m i ≡ m' i) where
  load32_ap : (a : ℕ) → a + 4 ≤ 48 → load32 m a ≡ load32 m' a
  unfolding load32
  load32_ap a l =
      rw
        (
          h a (omega arith),
          h (a + 1) (omega arith),
          h (a + 2) (omega arith),
          h (a + 3) (omega arith),
        )
        refl

  pub load_sbi_ap : load_sbi m 0 ≡ load_sbi m' 0
  unfolding load_sbi
  load_sbi_ap =
      rw
        (
          load32_ap 0 (omega arith),
          load32_ap 4 (omega arith),
          load32_ap 8 (omega arith),
          load32_ap 12 (omega arith),
          load32_ap 16 (omega arith),
          load32_ap 20 (omega arith),
          load32_ap 24 (omega arith),
          load32_ap 28 (omega arith),
          load32_ap 32 (omega arith),
          load32_ap 36 (omega arith),
          load32_ap 40 (omega arith),
          load32_ap 44 (omega arith),
        )
        refl

-- The four parts of the shared object, `n` the blocks of the free map of the data region.
pub record IsFilled (n : ℕ) (sb ibitmap inode_reg dbitmap : Memory) (m : Memory) : Type 0 where
  pub sb_part : (i : ℕ) → i < 48 → m i ≡ sb i
  pub ibitmap_part : (i : ℕ) → i < 4096 → m (48 + i) ≡ ibitmap i
  pub iregion_part : (i : ℕ) → i < 2048 * 4096 → m (48 + 4096 + i) ≡ inode_reg i
  pub dbitmap_part : (i : ℕ) → i < n * 4096 → m (48 + 2049 * 4096 + i) ≡ dbitmap i

module _ (info : SbInfo) (g : IsGeometry info) where
  at_iregion : cached_iregion info ≡ 48 + 4096
  at_iregion = rw g.nr_ibitmap_blocks refl

  at_dbitmap : cached_dbitmap info ≡ 48 + 2049 * 4096
  at_dbitmap = rw (g.nr_ibitmap_blocks, g.nr_iregion_blocks) refl

  pub fill_cached-IsFilled :
      (sb ibitmap inode_reg dbitmap m : Memory)
      → IsFilled info.nr_dbitmap_blocks sb ibitmap inode_reg dbitmap
          (fill_cached info sb ibitmap inode_reg dbitmap m)
  unfolding fill_cached
  fill_cached-IsFilled sb ibitmap inode_reg dbitmap m =
      let n = info.nr_dbitmap_blocks in
      let long : dbitmap_size info ≡ n * 4096 = omega (arith, g.few) in
      let m0 = memcpy m 0 sb 48 in
      let m1 = memcpy m0 48 ibitmap 4096 in
      let m2 = memcpy m1 (48 + 4096) inode_reg (2048 * 4096) in
      let over2 : (a : ℕ)
          → a < 48 + 4096
          → memcpy m2 (48 + 2049 * 4096) dbitmap (n * 4096) a ≡ m1 a =
        λ a h.
          memcpy-outside m2 (48 + 2049 * 4096) dbitmap (n * 4096) a (inl (omega arith))
          ∙ memcpy-outside m1 (48 + 4096) inode_reg (2048 * 4096) a (inl h) in
      rw (at_dbitmap, at_iregion, long, g.nr_ibitmap_blocks, g.nr_iregion_blocks)
        (record {
          sb_part = λ i h.
              let e : i - 0 ≡ i = omega arith in
              over2 i (omega arith)
              ∙ memcpy-outside m0 48 ibitmap 4096 i (inl h)
              ∙ memcpy-inside m 0 sb 48 i (omega arith) h
              ∙ ap sb e;
          ibitmap_part = λ i h.
              let e : 48 + i - 48 ≡ i = omega arith in
              over2 (48 + i) (omega arith)
              ∙ memcpy-inside m0 48 ibitmap 4096 (48 + i) (omega arith) (omega arith)
              ∙ ap ibitmap e;
          iregion_part = λ i h.
              let e : 48 + 4096 + i - (48 + 4096) ≡ i = omega arith in
              memcpy-outside m2 (48 + 2049 * 4096) dbitmap (n * 4096) (48 + 4096 + i)
                (inl (omega arith))
              ∙ memcpy-inside m1 (48 + 4096) inode_reg (2048 * 4096) (48 + 4096 + i) (omega arith)
                  (omega arith)
              ∙ ap inode_reg e;
          dbitmap_part = λ i h.
              let e : 48 + 2049 * 4096 + i - (48 + 2049 * 4096) ≡ i = omega arith in
              memcpy-inside m2 (48 + 2049 * 4096) dbitmap (n * 4096) (48 + 2049 * 4096 + i)
                (omega arith) (omega arith)
              ∙ ap dbitmap e;
        })
