-- ===== src/Blocks/Count.antt =====
-- How many blocks `__alloc_block` adds to a file: the counters `inode->blocks` and `count_down`.
use test_vsfs.Prelude.{
  ℕ, zero, suc, ◌+◌, ◌-◌, ◌*◌, ◌/◌, ◌%◌, ◌^◌, ◌≤◌, ◌<◌, ◌≡◌, refl, arith, ltb, leb, ◌==◌,
  if◌then◌else◌, inl, inr, zero-or-pos, Bool-cases, true, false, leb→le, leb→lt,
}
use test_vsfs.Word.{u16, sub32}
use test_vsfs.Memory.{Memory, load32}
use test_vsfs.Layout.{Inode, Cached, pointer_addr}
use test_vsfs.Blocks.{
  Alloc, fill_l1, alloc_l1, fill_pointer, alloc_pointers, new_l2, enter_l2, alloc_l2, new_l3,
  enter_l3, alloc_l3, root_l3, alloc_level3, alloc_level2, alloc_level1, alloc_block,
}

-- `r` rounds, or as many as were asked for, and a block of the file for each.
pub record Grown (r : ℕ) (s d : Alloc) : Type 0 where
  pub down : d.count_down ≡ s.count_down - r
  pub sum : d.inode.blocks + d.count_down ≡ s.inode.blocks + s.count_down

-- The counter of blocks stays within its 32 bits.
abbrev pub Small : Alloc → Type 0
Small s = s.inode.blocks + s.count_down < 2 ^ 32

Grown-refl : (r : ℕ) (s : Alloc) → s.count_down ≡ 0 → Grown r s s
Grown-refl r s e = record { down = omega arith; sum = refl }

Grown-join : (q r m : ℕ) (s t d : Alloc) → q + r ≡ m → Grown q s t → Grown r t d → Grown m s d
Grown-join q r m s t d e g h = record {
  down = omega (arith, g.down, h.down);
  sum = omega (arith, g.sum, h.sum);
}

fill_l1-Grown : (i : ℕ) (s : Alloc) → 0 < s.count_down → Small s → Grown 1 s (fill_l1 i s)
unfolding fill_l1
fill_l1-Grown i s h small = record { down = refl; sum = omega arith }

fill_pointer-Grown :
    (blk j : ℕ) (s : Alloc) → 0 < s.count_down → Small s → Grown 1 s (fill_pointer blk j s)
unfolding fill_pointer
fill_pointer-Grown blk j s h small = record { down = refl; sum = omega arith }

pub alloc_l1-Grown : (rounds i : ℕ) (s : Alloc) → Small s → Grown rounds s (alloc_l1 rounds i s)
unfolding alloc_l1
alloc_l1-Grown zero i s small = record { down = omega arith; sum = refl }
alloc_l1-Grown (suc rounds) i s small = elim (Bool-cases (ltb 0 s.count_down)) [
  | inl more ↦
      let g = fill_l1-Grown i s (ground arith) small in
      let h = alloc_l1-Grown rounds (i + 1) (fill_l1 i s) (omega (arith, g.sum)) in
      rw more (Grown-join 1 rounds (suc rounds) s (fill_l1 i s) _ (omega arith) g h)
  | inr none ↦ rw none (Grown-refl (suc rounds) s (ground arith))
]

alloc_pointers-Grown :
    (blk rounds j : ℕ) (s : Alloc) → Small s → Grown rounds s (alloc_pointers blk rounds j s)
unfolding alloc_pointers
alloc_pointers-Grown blk zero j s small = record { down = omega arith; sum = refl }
alloc_pointers-Grown blk (suc rounds) j s small = elim (Bool-cases (ltb 0 s.count_down)) [
  | inl more ↦
      let g = fill_pointer-Grown blk j s (ground arith) small in
      let h =
        alloc_pointers-Grown blk rounds (j + 1) (fill_pointer blk j s) (omega (arith, g.sum)) in
      rw more (Grown-join 1 rounds (suc rounds) s (fill_pointer blk j s) _ (omega arith) g h)
  | inr none ↦ rw none (Grown-refl (suc rounds) s (ground arith))
]

-- A pointer block is no block of the file.
enter_l2-Grown : (i start : ℕ) (s : Alloc) → Grown 0 s (enter_l2 i start s)
unfolding enter_l2 new_l2
enter_l2-Grown i start s = record { down = ground arith; sum = ground arith }

enter_l3-Grown : (l3_ptr i start : ℕ) (s : Alloc) → Grown 0 s (enter_l3 l3_ptr i start s)
unfolding enter_l3 new_l3
enter_l3-Grown l3_ptr i start s = record { down = ground arith; sum = ground arith }

pub root_l3-Grown : (real_blocks : ℕ) (s : Alloc) → Grown 0 s (root_l3 real_blocks s)
unfolding root_l3
root_l3-Grown real_blocks s = record { down = ground arith; sum = ground arith }

-- One pointer block, from its entry `start` on, and then the rest.
through :
    (blk start rest m : ℕ) (s entered d : Alloc)
    → Small s
    → start < 1024
    → 1024 - start + rest ≡ m
    → Grown 0 s entered
    → (let filled = alloc_pointers blk (1024 - start) start entered in
        Small filled → Grown rest filled d)
    → Grown m s d
through blk start rest m s entered d small l e g h =
    let f = alloc_pointers-Grown blk (1024 - start) start entered (omega (arith, g.sum)) in
    Grown-join 0 m m s entered d (omega arith) g
      (Grown-join (1024 - start) rest m entered _ d e f (h (omega (arith, g.sum, f.sum))))

pub alloc_l2-Grown :
    (rounds i start m : ℕ) (s : Alloc)
    → Small s
    → start < 1024
    → m + start ≡ rounds * 1024
    → Grown m s (alloc_l2 rounds i start s)
unfolding alloc_l2
alloc_l2-Grown zero i start m s small l e = record { down = omega arith; sum = refl }
alloc_l2-Grown (suc rounds) i start m s small l e = elim (Bool-cases (ltb 0 s.count_down)) [
  | inl more ↦
      let entered = enter_l2 i start s in
      rw more (
        through (entered.inode.l2 i) start (rounds * 1024) m s entered _ small l (omega arith)
          (enter_l2-Grown i start s)
          (λ small'.
            alloc_l2-Grown rounds (i + 1) 0 (rounds * 1024) _ small' (omega arith) (omega arith)))
  | inr none ↦ rw none (Grown-refl m s (ground arith))
]

alloc_l3-Grown :
    (l3_ptr rounds i start m : ℕ) (s : Alloc)
    → Small s
    → start < 1024
    → m + start ≡ rounds * 1024
    → Grown m s (alloc_l3 l3_ptr rounds i start s)
unfolding alloc_l3
alloc_l3-Grown l3_ptr zero i start m s small l e = record { down = omega arith; sum = refl }
alloc_l3-Grown l3_ptr (suc rounds) i start m s small l e = elim (Bool-cases (ltb 0 s.count_down)) [
  | inl more ↦
      let entered = enter_l3 l3_ptr i start s in
      rw more (
        through (load32 entered.mem (pointer_addr l3_ptr i)) start (rounds * 1024) m s entered _
          small l (omega arith) (enter_l3-Grown l3_ptr i start s)
          (λ small'.
            alloc_l3-Grown l3_ptr rounds (i + 1) 0 (rounds * 1024) _ small' (omega arith)
              (omega arith)))
  | inr none ↦ rw none (Grown-refl m s (ground arith))
]

-- A file with `s.inode.blocks` blocks has room for this many more.
abbrev room : Alloc → ℕ
room s = 1053745 - s.inode.blocks

module _ (s : Alloc) (small : Small s) where
  alloc_level3-Grown :
      5169 ≤ s.inode.blocks → s.inode.blocks ≤ 1053745 → Grown (room s) s (alloc_level3 s)
  unfolding alloc_level3
  alloc_level3-Grown lo hi =
      let k = s.inode.blocks - 5169 in
      let e : sub32 s.inode.blocks 5169 ≡ k = omega arith in
      let e1 : u16 (k / 1024) ≡ k / 1024 = omega arith in
      let e2 : u16 (k % 1024) ≡ k % 1024 = omega arith in
      let g = root_l3-Grown k s in
      rw (e, e1, e2)
        (Grown-join 0 (room s) (room s) s (root_l3 k s) _ (omega arith) g (
          alloc_l3-Grown ((root_l3 k s).inode.l3 0) (1024 - k / 1024) (k / 1024) (k % 1024) (room s)
            (root_l3 k s) (omega (arith, g.sum)) (omega arith) (omega arith)))

  -- From a level to the next, which starts where this one is full.
  go_on :
      (next : Alloc → Alloc) (r : ℕ) (d : Alloc)
      → r ≤ room s
      → Grown r s d
      → (0 < d.count_down → Grown (room s - r) d (next d))
      → Grown (room s) s (if d.count_down == 0 then d else next d)
  go_on next r d le g h = elim (zero-or-pos d.count_down) [
    | inl none ↦
        let e : (d.count_down == 0) ≡ true = ground arith in
        rw e (
          Grown-join r (room s - r) (room s) s d d (omega arith) g (Grown-refl (room s - r) d none))
    | inr more ↦
        let e : (d.count_down == 0) ≡ false = ground arith in
        rw e (Grown-join r (room s - r) (room s) s d _ (omega arith) g (h more))
  ]

alloc_level2-Grown :
    (s : Alloc)
    → Small s
    → 49 ≤ s.inode.blocks
    → s.inode.blocks < 5169
    → Grown (room s) s (alloc_level2 s)
unfolding alloc_level2
alloc_level2-Grown s small lo hi =
    let k = s.inode.blocks - 49 in
    let e : sub32 s.inode.blocks 49 ≡ k = omega arith in
    let e1 : u16 (k / 1024) ≡ k / 1024 = omega arith in
    let e2 : u16 (k % 1024) ≡ k % 1024 = omega arith in
    let d = alloc_l2 (5 - k / 1024) (k / 1024) (k % 1024) s in
    let g : Grown (5169 - s.inode.blocks) s d =
      alloc_l2-Grown (5 - k / 1024) (k / 1024) (k % 1024) (5169 - s.inode.blocks) s small
        (omega arith) (omega arith) in
    rw (e, e1, e2)
      (go_on s small alloc_level3 (5169 - s.inode.blocks) d (omega arith) g (λ more.
        let full : d.inode.blocks ≡ 5169 = omega (arith, g.down, g.sum) in
        let same : room d ≡ room s - (5169 - s.inode.blocks) = omega (arith, full) in
        rw same at (
          alloc_level3-Grown d (omega (arith, g.sum)) (omega (arith, full)) (omega (arith, full)))))

alloc_level1-Grown : (s : Alloc) → Small s → s.inode.blocks < 49 → Grown (room s) s (alloc_level1 s)
unfolding alloc_level1
alloc_level1-Grown s small hi =
    let e1 : u16 s.inode.blocks ≡ s.inode.blocks = omega arith in
    let r = 49 - s.inode.blocks in
    let d = alloc_l1 r s.inode.blocks s in
    let g = alloc_l1-Grown r s.inode.blocks s small in
    rw e1 (
      go_on s small alloc_level2 r d (omega arith) g (λ more.
        let full : d.inode.blocks ≡ 49 = omega (arith, g.down, g.sum) in
        let same : room d ≡ room s - r = omega (arith, full) in
        rw same at (
          alloc_level2-Grown d (omega (arith, g.sum)) (omega (arith, full)) (omega (arith, full)))))

module _ (inode : Inode) (mem : Memory) (cached : Cached) (need_alloc : ℕ) where
  abbrev pub asked : Alloc
  asked = record { inode = inode; mem = mem; cached = cached; count_down = need_alloc }

  abbrev final : Alloc
  final =
      if leb 5169 inode.blocks
      then alloc_level3 asked
      else if leb 49 inode.blocks
      then alloc_level2 asked
      else alloc_level1 asked

  final-Grown :
      inode.blocks ≤ 1053745 → need_alloc < 2 ^ 31 → Grown (1053745 - inode.blocks) asked final
  final-Grown within small = elim (Bool-cases (leb 5169 inode.blocks)) [
    | inl high ↦ rw high (alloc_level3-Grown asked (omega arith) (leb→le _ _ high) within)
    | inr low ↦ rw low (elim (Bool-cases (leb 49 inode.blocks)) [
      | inl mid ↦ rw mid (alloc_level2-Grown asked (omega arith) (leb→le _ _ mid) (leb→lt _ _ low))
      | inr l1 ↦ rw l1 (alloc_level1-Grown asked (omega arith) (leb→lt _ _ l1))
    ])
  ]

-- The counters after `__alloc_block`, and the result that it returns by them, up to the limit of the
-- three levels.
pub record IsAllocated (before need : ℕ) (r : Alloc × ℕ) : Type 0 where
  pub blocks : r.0.inode.blocks ≡ (if leb (before + need) 1053745 then before + need else 1053745)
  pub left : r.0.count_down ≡ before + need - 1053745
  pub result : r.1 ≡ (if leb (before + need) 1053745 then 0 else 1)

-- The counters after `__alloc_block`, whether or not a block was free, for a file within the limit
-- of the three levels and less than 2 ^ 31 blocks to add.
pub alloc_block-IsAllocated :
    (inode : Inode) (mem : Memory) (cached : Cached) (need_alloc : ℕ)
    → inode.blocks ≤ 1053745
    → need_alloc < 2 ^ 31
    → IsAllocated inode.blocks need_alloc (alloc_block inode mem cached need_alloc)
unfolding alloc_block
alloc_block-IsAllocated inode mem cached need_alloc within small =
    let grown = final-Grown inode mem cached need_alloc within small in
    record {
      blocks = ground (arith, grown.down, grown.sum);
      left = omega (arith, grown.down);
      result = ground (arith, grown.down);
    }
