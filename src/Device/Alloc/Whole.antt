-- ===== src/Device/Alloc/Whole.antt =====
-- `__alloc_block` of src/inc/vsfsio_spdk.h and that of src/inc/vsfsio.h, for files whose pointers
-- stay within level 2.
use test_vsfs.Prelude.{
  ℕ, ◌+◌, ◌-◌, ◌/◌, ◌%◌, ◌^◌, ◌≤◌, ◌<◌, ◌≡◌, refl, arith, ◌∙◌, ap, ◌==◌, inl, inr, ◌⊎◌, lt→leb,
  le→leb, eq→==, ne→==, if◌then◌else◌, zero-or-pos,
}
use test_vsfs.Word.{u16, sub32}
use test_vsfs.Memory.{Memory}
use test_vsfs.Layout.{Inode, Cached}
use test_vsfs.Blocks.{Alloc, alloc_l1}
use test_vsfs.Blocks as Shared
use test_vsfs.Blocks.Count.{alloc_l1-Grown, alloc_l2-Grown}
use test_vsfs.Spdk.{Nvme, IsReliable}
use test_vsfs.Device.{region}
use test_vsfs.Device.Alloc.{Stage, alloc_level2, alloc_level1, alloc_block}
use test_vsfs.Device.Alloc.Laws.{
  with_mem, IsWide, IsSame, alloc_l1-IsBlind, alloc_l1-l2, IsSame-blind, IsSame-alloc_l2,
}

abbrev result_code : Alloc → ℕ
result_code p = if p.count_down == 0 then 0 else 1

module _ (nvme : Nvme) (reliable : IsReliable nvme) (ofs : ℕ) (small : ofs < 2 ^ 32) where
  IsSame-alloc_level2 :
      (s : Stage nvme.Ns) (a : Alloc)
      → IsSame nvme reliable ofs small s a
      → 49 ≤ a.inode.blocks
      → a.inode.blocks + a.count_down ≤ 5169
      → IsSame nvme reliable ofs small (alloc_level2 nvme ofs s) (Shared.alloc_level2 a)
  unfolding alloc_level2 Shared.alloc_level2
  IsSame-alloc_level2 s a same lo hi =
      let k = a.inode.blocks - 49 in
      let b : s.here.inode.blocks ≡ a.inode.blocks = ap (λ (p : Alloc). p.inode.blocks) same.vars in
      let e : sub32 a.inode.blocks 49 ≡ k = omega arith in
      let e1 : u16 (k / 1024) ≡ k / 1024 = omega arith in
      let e2 : u16 (k % 1024) ≡ k % 1024 = omega arith in
      let e' : sub32 s.here.inode.blocks 49 ≡ k = omega (arith, b) in
      let g =
        alloc_l2-Grown (5 - k / 1024) (k / 1024) (k % 1024) (5169 - a.inode.blocks) a (omega arith)
          (omega arith) (omega arith) in
      let done =
        IsSame-alloc_l2 nvme reliable ofs small (5 - k / 1024) (k / 1024) (k % 1024) s a same
          (omega arith) (omega arith) in
      let z =
        eq→== (Shared.alloc_l2 (5 - k / 1024) (k / 1024) (k % 1024) a).count_down 0
          (omega (arith, g.down)) in
      let z' = ap (λ (p : Alloc). p.count_down == 0) done.vars ∙ z in rw (e, e', e1, e2, z, z') done

  IsSame-alloc_level1 :
      (s : Stage nvme.Ns) (a : Alloc)
      → IsSame nvme reliable ofs small s a
      → a.inode.blocks < 49
      → a.inode.blocks + a.count_down ≤ 5169
      → IsSame nvme reliable ofs small (alloc_level1 nvme ofs s) (Shared.alloc_level1 a)
  unfolding alloc_level1 Shared.alloc_level1
  IsSame-alloc_level1 s a same lo hi =
      let i = a.inode.blocks in
      let b : s.here.inode.blocks ≡ i = ap (λ (p : Alloc). p.inode.blocks) same.vars in
      let e : u16 i ≡ i = omega arith in
      let e' : u16 s.here.inode.blocks ≡ i = omega (arith, b) in
      let g = alloc_l1-Grown (49 - i) i a (omega arith) in
      let d = alloc_l1 (49 - i) i a in
      let done =
        IsSame-blind nvme reliable ofs small (alloc_l1 (49 - i) i) (alloc_l1-IsBlind (49 - i) i) s a
          same (rw (alloc_l1-l2 (49 - i) i a) same.wide) in
      let c = ap (λ (p : Alloc). p.count_down == 0) done.vars in
      elim (zero-or-pos d.count_down) [
        | inl none ↦ let z = eq→== d.count_down 0 none in rw (e, e', z, c ∙ z) done
        | inr more ↦
            let z = ne→== d.count_down 0 (omega arith) in
            rw (e, e', z, c ∙ z)
              (IsSame-alloc_level2 _ d done (omega (arith, g.down, g.sum)) (omega (arith, g.sum)))
      ]

  -- For a device that keeps what is written to it, and a file of less than 5169 blocks that gets at
  -- most to 5169, the end of level 2, with pointers of 32 bits in its inode: `__alloc_block` of the device gives the
  -- result, the inode, the copy of the superblock and bitmaps, and the data region that
  -- `__alloc_block` of shared memory gives, whatever the buffers hold before.
  pub alloc_block-shared :
      (inode : Inode) (cached : Cached) (ns : nvme.Ns) (ptr_reg l3_ptr_reg : Memory)
      → (need_alloc : ℕ) → IsWide inode
      → inode.blocks < 5169
      → inode.blocks + need_alloc ≤ 5169
      → (let on_device = alloc_block nvme ofs inode cached ns ptr_reg l3_ptr_reg need_alloc in
          let shared = Shared.alloc_block inode (region nvme ofs ns) cached need_alloc in
          IsSame nvme reliable ofs small on_device.0 shared.0 × (on_device.1 ≡ shared.1))
  unfolding alloc_block Shared.alloc_block
  alloc_block-shared inode cached ns ptr_reg l3_ptr_reg need_alloc wide below fits =
      let high = lt→leb 5169 inode.blocks below in
      elim (side inode.blocks) [
        | inl lo ↦
            let low = lt→leb 49 inode.blocks lo in
            let done = IsSame-alloc_level1 s a begin lo fits in rw (high, low) (done, code done)
        | inr mid ↦
            let low = le→leb 49 inode.blocks mid in
            let done = IsSame-alloc_level2 s a begin mid fits in rw (high, low) (done, code done)
      ]
    where
      a : Alloc
      a = record {
        inode = inode;
        mem = region nvme ofs ns;
        cached = cached;
        count_down = need_alloc;
      }

      s : Stage nvme.Ns
      s = record { here = with_mem a ptr_reg; ns = ns; l3_ptr_reg = l3_ptr_reg }

      begin : IsSame nvme reliable ofs small s a
      begin = record { vars = refl; mem = λ x. refl; wide = wide }

      side : (n : ℕ) → (n < 49) ⊎ (49 ≤ n)
      side n = omega arith

      code :
          {s' : Stage nvme.Ns} {a' : Alloc}
          → IsSame nvme reliable ofs small s' a'
          → result_code s'.here ≡ result_code a'
      code same = ap result_code same.vars
