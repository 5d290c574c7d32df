-- ===== src/Mount/Attach/Kept.antt =====
-- What stays of a mounted device over `unmount_vsfs` and another `mount_vsfs`.
use test_vsfs.Prelude.{
  ℕ, ◌+◌, ◌-◌, ◌*◌, ◌≤◌, ◌<◌, ◌≡◌, refl, arith, ◌∙◌, ap, sym, subst, some, ◌⊎◌, inl, inr,
}
use test_vsfs.Word.{pos, u32}
use test_vsfs.Memory.{Memory, memcpy}
use test_vsfs.Memory.Laws.{memcpy-inside}
use test_vsfs.Layout.{SbInfo}
use test_vsfs.State.{done}
use test_vsfs.Spdk.{Nvme, IsReliable, write_spdk}
use test_vsfs.Device.{region}
use test_vsfs.Mount.{load_sbi, Object}
use test_vsfs.Mount.Blocks.{write_spdk-code}
use test_vsfs.Mount.Init.{zeroed}
use test_vsfs.Mount.Init.Chain.{IsGeometry, here, past}
use test_vsfs.Mount.Attach.{Answers, write_sb_cached_to_ssd, mount_vsfs, unmount_vsfs}
use test_vsfs.Mount.Attach.Filled.{load_sbi_ap}
use test_vsfs.Mount.Attach.Laws.{IsWilling, no_files, IsCopy, device_sbi, mount_vsfs-IsCopy}

module _ (nvme : Nvme) (reliable : IsReliable nvme) (env : Answers) (w : IsWilling env)
    (ns : nvme.Ns) (o : Object) (g : IsGeometry (load_sbi o.bytes 0)) where
  abbrev info : SbInfo
  info = load_sbi o.bytes 0

  abbrev n : ℕ
  n = info.nr_dbitmap_blocks

  -- The parts of the object that are written.
  part : (start len : ℕ) → Memory
  part start len = memcpy zeroed 0 (λ i. o.bytes (start + i)) len

  part-bytes : (start len i : ℕ) → i < len → part start len i ≡ o.bytes (start + i)
  unfolding part
  part-bytes start len i h =
      let e : i - 0 ≡ i = omega arith in
      memcpy-inside zeroed 0 (λ k. o.bytes (start + k)) len i (omega arith) (omega arith)
      ∙ ap (λ (k : ℕ). o.bytes (start + k)) e

  -- The device after each of the three writes.
  ns0 : nvme.Ns
  ns0 = (write_spdk nvme ns (part 48 4096) 1 1).1

  ns1 : nvme.Ns
  ns1 = (write_spdk nvme ns0 (part (48 + 2049 * 4096) (n * 4096)) 2050 n).1

  ns2 : nvme.Ns
  ns2 = (write_spdk nvme ns1 (part (48 + 4096) (2048 * 4096)) 2 2048).1

  unmount_vsfs-ns2 : unmount_vsfs nvme env o ns ≡ done (ns2, pos 0)
  unfolding unmount_vsfs write_sb_cached_to_ssd ns0 ns1 ns2 part
  unmount_vsfs-ns2 =
      let long : u32 (n * 4096) ≡ n * 4096 = omega (arith, g.few) in
      rw
        (
          g.ofs_ibitmap,
          g.nr_ibitmap_blocks,
          g.ofs_iregion,
          g.nr_iregion_blocks,
          g.ofs_dbitmap,
          long,
          write_spdk-code nvme reliable ns (part 48 4096) 1 1 (omega arith) (omega arith)
              (omega arith),
          write_spdk-code nvme reliable ns0 (part (48 + 2049 * 4096) (n * 4096)) 2050 n
              (omega arith) (omega (arith, g.more)) (omega (arith, g.few)),
          write_spdk-code nvme reliable ns1 (part (48 + 4096) (2048 * 4096)) 2 2048 (omega arith)
              (omega arith) (omega arith),
        )
        (simp (w.name, w.opens, w.maps, w.buffers) refl)

  abbrev at : ℕ → ℕ
  at = region nvme 0 ns2

  sb-kept : (i : ℕ) → i < 4096 → at i ≡ region nvme 0 ns i
  unfolding ns0 ns1 ns2
  sb-kept i h =
      past nvme reliable ns1 (part (48 + 4096) (2048 * 4096)) 2 2048 (omega arith) (omega arith)
        (omega arith) i (inl (omega arith))
      ∙ past nvme reliable ns0 (part (48 + 2049 * 4096) (n * 4096)) 2050 n (omega arith)
          (omega (arith, g.more)) (omega (arith, g.few)) i (inl (omega arith))
      ∙ past nvme reliable ns (part 48 4096) 1 1 (omega arith) (omega arith) (omega arith) i
          (inl (omega arith))

  ibitmap-kept : (i : ℕ) → i < 4096 → at (1 * 4096 + i) ≡ o.bytes (48 + i)
  unfolding ns0 ns1 ns2
  ibitmap-kept i h =
      past nvme reliable ns1 (part (48 + 4096) (2048 * 4096)) 2 2048 (omega arith) (omega arith)
        (omega arith) (1 * 4096 + i) (inl (omega arith))
      ∙ past nvme reliable ns0 (part (48 + 2049 * 4096) (n * 4096)) 2050 n (omega arith)
          (omega (arith, g.more)) (omega (arith, g.few)) (1 * 4096 + i) (inl (omega arith))
      ∙ here nvme reliable ns (part 48 4096) 1 1 (omega arith) (omega arith) (omega arith) i
          (omega arith)
      ∙ part-bytes 48 4096 i h

  dbitmap-kept : (i : ℕ) → i < n * 4096 → at (2050 * 4096 + i) ≡ o.bytes (48 + 2049 * 4096 + i)
  unfolding ns0 ns1 ns2
  dbitmap-kept i h =
      past nvme reliable ns1 (part (48 + 4096) (2048 * 4096)) 2 2048 (omega arith) (omega arith)
        (omega arith) (2050 * 4096 + i) (inr (omega arith))
      ∙ here nvme reliable ns0 (part (48 + 2049 * 4096) (n * 4096)) 2050 n (omega arith)
          (omega (arith, g.more)) (omega (arith, g.few)) i h
      ∙ part-bytes (48 + 2049 * 4096) (n * 4096) i h

  iregion-kept : (i : ℕ) → i < 2048 * 4096 → at (2 * 4096 + i) ≡ o.bytes (48 + 4096 + i)
  unfolding ns0 ns1 ns2
  iregion-kept i h =
      here nvme reliable ns1 (part (48 + 4096) (2048 * 4096)) 2 2048 (omega arith) (omega arith)
        (omega arith) i h
      ∙ part-bytes (48 + 4096) (2048 * 4096) i h

  -- The object after another mount.
  pub record IsRestored (m : Memory) : Type 0 where
    pub same : (a : ℕ) → 48 ≤ a → a < 48 + (2049 + n) * 4096 → m a ≡ o.bytes a
    pub counters :
        ((load_sbi m 0).nr_free_inodes ≡ (device_sbi nvme ns).nr_free_inodes)
        × ((load_sbi m 0).nr_free_dblock ≡ (device_sbi nvme ns).nr_free_dblock)

  same :
      (o'' : Object)
      → IsCopy nvme (device_sbi nvme ns2).nr_dbitmap_blocks ns2 o''
      → (device_sbi nvme ns2).nr_dbitmap_blocks ≡ n
      → (a : ℕ) → 48 ≤ a
      → a < 48 + (2049 + n) * 4096
      → o''.bytes a ≡ o.bytes a
  same o'' c all a low high = elim (side a low) [
    | inl first ↦
        let e : a ≡ 48 + (a - 48) = omega arith in
        ap o''.bytes e
        ∙ (c.parts).ibitmap_part (a - 48) (omega arith)
        ∙ ibitmap-kept (a - 48) (omega arith)
        ∙ sym (ap o.bytes e)
    | inr (inl second) ↦
        let e : a ≡ 48 + 4096 + (a - 4144) = omega arith in
        ap o''.bytes e
        ∙ (c.parts).iregion_part (a - 4144) (omega arith)
        ∙ iregion-kept (a - 4144) (omega arith)
        ∙ sym (ap o.bytes e)
    | inr (inr third) ↦
        let e : a ≡ 48 + 2049 * 4096 + (a - 8392752) = omega arith in
        ap o''.bytes e
        ∙ (c.parts).dbitmap_part (a - 8392752) (omega (arith, all))
        ∙ dbitmap-kept (a - 8392752) (omega arith)
        ∙ sym (ap o.bytes e)
  ]
    where
      side : (k : ℕ) → 48 ≤ k → (k < 4144) ⊎ (((4144 ≤ k) × (k < 8392752)) ⊎ (8392752 ≤ k))
      side k h = omega arith

  -- Where the superblock of the device has the offsets and the sizes of the one in the shared
  -- object `o`, `unmount_vsfs` and then `mount_vsfs`, into any object, succeed; both free maps and
  -- the inodes are then as they were in `o`, but the counts of free inodes and blocks are those of
  -- the device's superblock, which `unmount_vsfs` does not write. The device is reliable and its
  -- system gives what it is asked for.
  pub mount_vsfs-unmount_vsfs :
      (o' : Object)
      → IsGeometry (device_sbi nvme ns)
      → (device_sbi nvme ns).nr_dbitmap_blocks ≡ n
      → (ns' : nvme.Ns) × (o'' : Object) × (unmount_vsfs nvme env o ns ≡ done (ns', pos 0))
        × (mount_vsfs nvme env ns' o' ≡ done (o'', some no_files, pos 0))
        × IsRestored o''.bytes
  mount_vsfs-unmount_vsfs o' gd blocks =
      let sb : device_sbi nvme ns2 ≡ device_sbi nvme ns =
        load_sbi_ap (region nvme 0 ns2) (region nvme 0 ns) (λ i h. sb-kept i (omega arith)) in
      let (o'', mounted, c) =
        mount_vsfs-IsCopy nvme reliable env w ns2 o' (subst IsGeometry (sym sb) gd) in
      let all : (device_sbi nvme ns2).nr_dbitmap_blocks ≡ n =
        ap (λ (i : SbInfo). i.nr_dbitmap_blocks) sb ∙ blocks in
      let copied : load_sbi o''.bytes 0 ≡ device_sbi nvme ns =
        load_sbi_ap o''.bytes (region nvme 0 ns2) (c.parts).sb_part ∙ sb in
      (
        ns2,
        o'',
        unmount_vsfs-ns2,
        mounted,
        record {
          same = λ a low high. same o'' c all a low high;
          counters = (
            ap (λ (i : SbInfo). i.nr_free_inodes) copied,
            ap (λ (i : SbInfo). i.nr_free_dblock) copied,
          );
        },
      )
