-- ===== src/Mount/Init/Laws.antt =====
-- What `init_vsfs` leaves on a device that keeps what is written to it.
use test_vsfs.Prelude.{
  ℕ, ◌+◌, ◌-◌, ◌*◌, ◌≤◌, ◌<◌, ◌≡◌, refl, arith, ◌∙◌, ap, false, ◌==◌, inl, inr, ◌⊎◌,
}
use test_vsfs.Word.{pos}
use test_vsfs.Memory.{memcpy, memset}
use test_vsfs.Layout.{SbInfo}
use test_vsfs.State.{done}
use test_vsfs.Spdk.{Nvme, IsReliable}
use test_vsfs.Device.{region}
use test_vsfs.Mount.{sb_bytes}
use test_vsfs.Mount.Init.{
  zeroed, device_superblock, root_bytes, first_bytes, directory_bytes, Buffers, init_vsfs,
}
use test_vsfs.Mount.Init.Chain.{
  first_taken, first_bytes-first_taken, IsGeometry, HasBuffers, write_regions-after, after, here,
  past,
}

module _ (nvme : Nvme) where
  -- The regions on the device; `ns` is the device before.
  pub record IsFormatted (info : SbInfo) (ns ns' : nvme.Ns) : Type 0 where
    pub sb : (i : ℕ) → i < 4096 → region nvme 0 ns' i ≡ sb_bytes info i
    pub ibitmap : (i : ℕ) → i < 4096 → region nvme 0 ns' (1 * 4096 + i) ≡ first_taken i
    pub root : (i : ℕ) → i < 4096 → region nvme 0 ns' (2 * 4096 + i) ≡ root_bytes i
    pub inodes : (i : ℕ) → i < 2047 * 4096 → region nvme 0 ns' (3 * 4096 + i) ≡ 0
    pub dbitmap :
        (i : ℕ)
        → i < info.nr_dbitmap_blocks * 4096
        → region nvme 0 ns' (2050 * 4096 + i) ≡ first_taken i
    pub directory :
        (i : ℕ)
        → i < 4096
        → region nvme 0 ns' ((2050 + info.nr_dbitmap_blocks) * 4096 + i) ≡ directory_bytes i
    pub rest :
        (a : ℕ)
        → (2051 + info.nr_dbitmap_blocks) * 4096 ≤ a
        → region nvme 0 ns' a ≡ region nvme 0 ns a

module _ (nvme : Nvme) (reliable : IsReliable nvme) where
  module _ (info : SbInfo) (ns : nvme.Ns) (g : IsGeometry info) where
    abbrev at : ℕ → ℕ → ℕ
    at k = region nvme 0 (after nvme reliable info ns k)

    abbrev more : ℕ
    more = info.nr_dbitmap_blocks - 1

    -- Below the data region, only the writes up to the sixth count.
    from_sixth : (a : ℕ) → a < (2051 + more) * 4096 → at 7 a ≡ at 6 a
    unfolding after
    from_sixth a h =
        past nvme reliable (after nvme reliable info ns 6) directory_bytes (2051 + more) 1
          (omega (arith, g.few)) (omega arith) (omega arith) a (inl h)

    from_fifth : (a : ℕ) → a < 2051 * 4096 → at 7 a ≡ at 5 a
    unfolding after
    from_fifth a h =
        from_sixth a (omega arith)
        ∙ past nvme reliable (after nvme reliable info ns 5) (memset zeroed 0 0xff (more * 4096))
            2051 more (omega arith) (omega (arith, g.more)) (omega (arith, g.few)) a (inl h)

    from_fourth : (a : ℕ) → a < 2050 * 4096 → at 7 a ≡ at 4 a
    unfolding after
    from_fourth a h =
        from_fifth a (omega arith)
        ∙ past nvme reliable (after nvme reliable info ns 4) first_bytes 2050 1 (omega arith)
            (omega arith) (omega arith) a (inl h)

    from_third : (a : ℕ) → a < 3 * 4096 → at 7 a ≡ at 3 a
    unfolding after
    from_third a h =
        from_fourth a (omega arith)
        ∙ past nvme reliable (after nvme reliable info ns 3) (memset zeroed 0 0 (2047 * 4096)) 3
            2047 (omega arith) (omega arith) (omega arith) a (inl h)

    from_second : (a : ℕ) → a < 2 * 4096 → at 7 a ≡ at 2 a
    unfolding after
    from_second a h =
        from_third a (omega arith)
        ∙ past nvme reliable (after nvme reliable info ns 2) root_bytes 2 1 (omega arith)
            (omega arith) (omega arith) a (inl h)

    from_first : (a : ℕ) → a < 4096 → at 7 a ≡ at 1 a
    unfolding after
    from_first a h =
        from_second a (omega arith)
        ∙ past nvme reliable (after nvme reliable info ns 1) first_bytes 1 1 (omega arith)
            (omega arith) (omega arith) a (inl h)

    all_ones : (len i : ℕ) → i < len → memset zeroed 0 0xff len i ≡ 0xff
    unfolding memset memcpy
    all_ones len i h = ground arith

    all_zeros : (len i : ℕ) → memset zeroed 0 0 len i ≡ 0
    unfolding memset memcpy
    all_zeros len i = ground arith

    after-dbitmap :
        (i : ℕ) → i < info.nr_dbitmap_blocks * 4096 → at 7 (2050 * 4096 + i) ≡ first_taken i
    unfolding after
    after-dbitmap i h = elim (side i) [
      | inl low ↦
          from_fifth (2050 * 4096 + i) (omega arith)
          ∙ here nvme reliable (after nvme reliable info ns 4) first_bytes 2050 1 (omega arith)
              (omega arith) (omega arith) i (omega arith)
          ∙ first_bytes-first_taken i low
      | inr high ↦
          let e : 2050 * 4096 + i ≡ 2051 * 4096 + (i - 4096) = omega arith in
          let ne : (i == 0) ≡ false = ground arith in
          from_sixth (2050 * 4096 + i) (omega (arith, g.more))
          ∙ ap (at 6) e
          ∙ here nvme reliable (after nvme reliable info ns 5) (memset zeroed 0 0xff (more * 4096))
              2051 more (omega arith) (omega (arith, g.more)) (omega (arith, g.few)) (i - 4096)
              (omega (arith, g.more))
          ∙ all_ones (more * 4096) (i - 4096) (omega (arith, g.more))
          ∙ rw ne refl
    ]
      where
        side : (k : ℕ) → (k < 4096) ⊎ (4096 ≤ k)
        side k = omega arith

    after-rest : (a : ℕ) → (2051 + info.nr_dbitmap_blocks) * 4096 ≤ a → at 7 a ≡ region nvme 0 ns a
    unfolding after
    after-rest a h =
        past nvme reliable (after nvme reliable info ns 6) directory_bytes (2051 + more) 1
          (omega (arith, g.few)) (omega arith) (omega arith) a (inr (omega (arith, g.more)))
        ∙ past nvme reliable (after nvme reliable info ns 5) (memset zeroed 0 0xff (more * 4096))
            2051 more (omega arith) (omega (arith, g.more)) (omega (arith, g.few)) a
            (inr (omega (arith, g.more)))
        ∙ past nvme reliable (after nvme reliable info ns 4) first_bytes 2050 1 (omega arith)
            (omega arith) (omega arith) a (inr (omega arith))
        ∙ past nvme reliable (after nvme reliable info ns 3) (memset zeroed 0 0 (2047 * 4096)) 3
            2047 (omega arith) (omega arith) (omega arith) a (inr (omega arith))
        ∙ past nvme reliable (after nvme reliable info ns 2) root_bytes 2 1 (omega arith)
            (omega arith) (omega arith) a (inr (omega arith))
        ∙ past nvme reliable (after nvme reliable info ns 1) first_bytes 1 1 (omega arith)
            (omega arith) (omega arith) a (inr (omega arith))
        ∙ past nvme reliable ns (sb_bytes info) 0 1 (omega arith) (omega arith) (omega arith) a
            (inr (omega arith))

    after-IsFormatted : IsFormatted nvme info ns (after nvme reliable info ns 7)
    unfolding after
    after-IsFormatted = record {
      sb = λ i h.
          let e : i ≡ 0 * 4096 + i = omega arith in
          from_first i h
          ∙ ap (at 1) e
          ∙ here nvme reliable ns (sb_bytes info) 0 1 (omega arith) (omega arith) (omega arith) i
              (omega arith);
      ibitmap = λ i h.
          from_second (1 * 4096 + i) (omega arith)
          ∙ here nvme reliable (after nvme reliable info ns 1) first_bytes 1 1 (omega arith)
              (omega arith) (omega arith) i (omega arith)
          ∙ first_bytes-first_taken i h;
      root = λ i h.
          from_third (2 * 4096 + i) (omega arith)
          ∙ here nvme reliable (after nvme reliable info ns 2) root_bytes 2 1 (omega arith)
              (omega arith) (omega arith) i (omega arith);
      inodes = λ i h.
          from_fourth (3 * 4096 + i) (omega arith)
          ∙ here nvme reliable (after nvme reliable info ns 3) (memset zeroed 0 0 (2047 * 4096)) 3
              2047 (omega arith) (omega arith) (omega arith) i (omega arith)
          ∙ all_zeros (2047 * 4096) i;
      dbitmap = after-dbitmap;
      directory = λ i h.
          let e : (2050 + info.nr_dbitmap_blocks) * 4096 + i ≡ (2051 + more) * 4096 + i =
            omega (arith, g.more) in
          ap (at 7) e
          ∙ here nvme reliable (after nvme reliable info ns 6) directory_bytes (2051 + more) 1
              (omega (arith, g.few)) (omega arith) (omega arith) i (omega arith);
      rest = after-rest;
    }

  -- `init_vsfs` with every buffer it asks for, on a device with room for more than one block of
  -- free map.
  pub init_vsfs-IsFormatted :
      (b : Buffers) (sector_size device_size : ℕ) (ns : nvme.Ns)
      → HasBuffers b
      → IsGeometry (device_superblock sector_size device_size)
      → (ns' : nvme.Ns) × (init_vsfs nvme b sector_size device_size ns ≡ done (ns', pos 0))
        × IsFormatted nvme (device_superblock sector_size device_size) ns ns'
  unfolding init_vsfs
  init_vsfs-IsFormatted b sector_size device_size ns h g =
      let info = device_superblock sector_size device_size in
      (
        after nvme reliable info ns 7,
        rw (write_regions-after nvme reliable b info ns h g, init_vsfs) refl,
        after-IsFormatted info ns g,
      )
