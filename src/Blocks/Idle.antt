-- ===== src/Blocks/Idle.antt =====
-- `__alloc_block` when no block is asked for.
use test_vsfs.Prelude.{
  ℕ, zero, suc, ◌-◌, ◌/◌, ◌%◌, ◌^◌, ◌<◌, ◌≡◌, ◌≢◌, refl, arith, leb, inl, inr, Bool-cases, true,
  leb→le, le→leb, ◌⊎◌, ◌==◌, ==→eq, ==→ne, ap,
}
use test_vsfs.Word.{u16, sub32}
use test_vsfs.Memory.{Memory}
use test_vsfs.Layout.{Inode, Cached}
use test_vsfs.Bitmap.{get_free_dblock}
use test_vsfs.Blocks.{
  Alloc, alloc_l1, alloc_l2, alloc_l3, root_l3, alloc_level3, alloc_level2, alloc_level1,
  alloc_block,
}
use test_vsfs.Blocks.Count.{asked, root_l3-Grown}

alloc_l3-idle :
    (l3_ptr rounds i start : ℕ) (s : Alloc)
    → s.count_down ≡ 0
    → alloc_l3 l3_ptr rounds i start s ≡ s
unfolding alloc_l3
alloc_l3-idle l3_ptr zero i start s e = refl
alloc_l3-idle l3_ptr (suc rounds) i start s e = ground arith

alloc_l2-idle : (rounds i start : ℕ) (s : Alloc) → s.count_down ≡ 0 → alloc_l2 rounds i start s ≡ s
unfolding alloc_l2
alloc_l2-idle zero i start s e = refl
alloc_l2-idle (suc rounds) i start s e = ground arith

alloc_l1-idle : (rounds i : ℕ) (s : Alloc) → s.count_down ≡ 0 → alloc_l1 rounds i s ≡ s
unfolding alloc_l1
alloc_l1-idle zero i s e = refl
alloc_l1-idle (suc rounds) i s e = ground arith

root_l3-idle : (real_blocks : ℕ) (s : Alloc) → real_blocks ≢ 0 → root_l3 real_blocks s ≡ s
unfolding root_l3
root_l3-idle real_blocks s ne = ground arith

module _ (s : Alloc) (idle : s.count_down ≡ 0) where
  alloc_level2-idle : alloc_level2 s ≡ s
  unfolding alloc_level2
  alloc_level2-idle =
      let k = sub32 s.inode.blocks 49 in
      rw (alloc_l2-idle (5 - u16 (k / 1024)) (u16 (k / 1024)) (u16 (k % 1024)) s idle)
        (ground arith)

  alloc_level1-idle : alloc_level1 s ≡ s
  unfolding alloc_level1
  alloc_level1-idle =
      let i = u16 s.inode.blocks in rw (alloc_l1-idle (49 - i) i s idle) (ground arith)

  alloc_level3-idle : 5169 < s.inode.blocks → s.inode.blocks < 2 ^ 32 → alloc_level3 s ≡ s
  unfolding alloc_level3
  alloc_level3-idle above small =
      let k = sub32 s.inode.blocks 5169 in
      let ne : k ≢ 0 = omega arith in
      rw (root_l3-idle k s ne) (
        alloc_l3-idle (s.inode.l3 0) (1024 - u16 (k / 1024)) (u16 (k / 1024)) (u16 (k % 1024)) s
          idle)

-- Asked for no block, `__alloc_block` returns 0, takes none and changes nothing, unless the file
-- has exactly the 5169 blocks of levels 1 and 2.
pub alloc_block-idle :
    (inode : Inode) (mem : Memory) (cached : Cached)
    → inode.blocks ≢ 5169
    → inode.blocks < 2 ^ 32
    → alloc_block inode mem cached 0
      ≡ (record { inode = inode; mem = mem; cached = cached; count_down = 0 }, 0)
unfolding alloc_block
alloc_block-idle inode mem cached ne small = elim (Bool-cases (leb 5169 inode.blocks)) [
  | inl high ↦
      let lo = leb→le _ _ high in
      rw (high, alloc_level3-idle (asked inode mem cached 0) refl (omega arith) small) refl
  | inr low ↦ rw low (elim (Bool-cases (leb 49 inode.blocks)) [
    | inl mid ↦ rw (mid, alloc_level2-idle (asked inode mem cached 0) refl) refl
    | inr l1 ↦ rw (l1, alloc_level1-idle (asked inode mem cached 0) refl) refl
  ])
]

alloc_level3-root :
    (s : Alloc) → s.count_down ≡ 0 → s.inode.blocks ≡ 5169 → alloc_level3 s ≡ root_l3 0 s
unfolding alloc_level3
alloc_level3-root s idle e =
    let k : sub32 s.inode.blocks 5169 ≡ 0 = omega arith in
    let g = root_l3-Grown 0 s in
    rw k (alloc_l3-idle ((root_l3 0 s).inode.l3 0) 1024 0 0 (root_l3 0 s) (omega (arith, g.down)))

-- Asked for no block at exactly 5169 blocks, `__alloc_block` returns 0 and takes a block for
-- `l3[0]` all the same.
alloc_block_root :
    (inode : Inode) (mem : Memory) (cached : Cached)
    → inode.blocks ≡ 5169
    → let (s, result) = alloc_block inode mem cached 0 in
      (result ≡ 0)
      × (s.cached ≡ (get_free_dblock cached).0)
      × (s.inode.l3 0 ≡ (get_free_dblock cached).1)
      × (s.inode.blocks ≡ 5169)
unfolding alloc_block root_l3
alloc_block_root inode mem cached e =
    let high : leb 5169 inode.blocks ≡ true = le→leb _ _ (omega arith) in
    rw (high, alloc_level3-root (asked inode mem cached 0) refl e) (refl, refl, refl, e)

-- Asked for no block, `__alloc_block` returns 0, takes none and changes nothing, unless the file
-- has exactly the 5169 blocks of levels 1 and 2: then it returns 0 too, but it takes a block for
-- `l3[0]`. The number of blocks fits in 32 bits.
pub alloc_block_nothing :
    (inode : Inode) (mem : Memory) (cached : Cached)
    → inode.blocks < 2 ^ 32
    → let (s, result) = alloc_block inode mem cached 0 in
      ((inode.blocks ≢ 5169)
        × (result ≡ 0)
        × (s ≡ record { inode = inode; mem = mem; cached = cached; count_down = 0 }))
      ⊎ ((inode.blocks ≡ 5169)
          × (result ≡ 0)
          × (s.cached ≡ (get_free_dblock cached).0)
          × (s.inode.l3 0 ≡ (get_free_dblock cached).1)
          × (s.inode.blocks ≡ 5169))
alloc_block_nothing inode mem cached small = elim (Bool-cases (inode.blocks == 5169)) [
  | inl full ↦
      let e = ==→eq inode.blocks 5169 full in
      let (result, taken, l3, blocks) = alloc_block_root inode mem cached e in
      inr (e, result, taken, l3, blocks)
  | inr other ↦
      let ne = ==→ne inode.blocks 5169 other in
      let same = alloc_block-idle inode mem cached ne small in
      inl (ne, ap (λ r. r.1) same, ap (λ r. r.0) same)
]
