-- ===== src/Blocks/Direct.antt =====
-- `__alloc_block` for the blocks that the inode itself points to: no pointer block is written.
use test_vsfs.Prelude.{
  ℕ, zero, suc, ◌+◌, ◌≤◌, ◌≡◌, refl, arith, ltb, inl, inr, Bool-cases, ap, sym, subst,
}
use test_vsfs.Memory.{Memory}
use test_vsfs.Layout.{Inode, Cached}
use test_vsfs.Blocks.{Alloc, fill_l1, alloc_l1, alloc_level1, alloc_block}
use test_vsfs.Blocks.Count.{alloc_l1-Grown}

alloc_l1-mem : (rounds i : ℕ) (s : Alloc) → (alloc_l1 rounds i s).mem ≡ s.mem
unfolding alloc_l1 fill_l1
alloc_l1-mem zero i s = refl
alloc_l1-mem (suc rounds) i s = elim (Bool-cases (ltb 0 s.count_down)) [
  | inl more ↦ rw more (alloc_l1-mem rounds (i + 1) (fill_l1 i s))
  | inr none ↦ rw none refl
]

alloc_block_none :
    (inode : Inode) (mem : Memory) (cached : Cached) (n : ℕ)
    → n ≤ 49
    → (alloc_block (record inode { blocks = 0 }) mem cached n).0.mem ≡ mem
unfolding alloc_block alloc_level1
alloc_block_none inode mem cached n few =
    let s : Alloc = record {
      inode = record inode { blocks = 0 };
      mem = mem;
      cached = cached;
      count_down = n;
    } in
    let all : (alloc_l1 49 0 s).count_down ≡ 0 =
      let g = alloc_l1-Grown 49 0 s (omega arith) in omega (arith, g.down) in
    rw all (alloc_l1-mem 49 0 s)

-- Up to 49 blocks of a file that has none leave the data region as it was.
pub alloc_block-mem :
    (inode : Inode) (mem : Memory) (cached : Cached) (n : ℕ)
    → inode.blocks ≡ 0
    → n ≤ 49
    → (alloc_block inode mem cached n).0.mem ≡ mem
alloc_block-mem inode mem cached n e few =
    subst (λ (i : Inode). (alloc_block i mem cached n).0.mem ≡ mem)
      (sym (ap (λ (b : ℕ). record inode { blocks = b }) e))
      (alloc_block_none inode mem cached n few)
