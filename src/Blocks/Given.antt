-- ===== src/Blocks/Given.antt =====
-- Which blocks `__alloc_block` gives to a file, up to the 49 of the inode itself.
use test_vsfs.Prelude.{
  ℕ, zero, suc, ◌+◌, ◌-◌, ◌*◌, ◌^◌, ◌≤◌, ◌<◌, ◌≡◌, refl, arith, ltb, leb, ◌==◌, inl, inr,
  Bool-cases, true, false, ap, subst, ◌∙◌, ◌⊎◌, lt→leb, zero-or-pos, eq→==,
}
use test_vsfs.Word.{u16}
use test_vsfs.Memory.{Memory}
use test_vsfs.Layout.{Inode, Cached}
use test_vsfs.Bitmap.{get_free_dblock}
use test_vsfs.Bitmap.Search.{free_at, IsWords}
use test_vsfs.Bitmap.FirstFree.{get_free_dblock-cases, dblock_words}
use test_vsfs.Bitmap.Handed.{IsHanded, get_free_dblock_next}
use test_vsfs.Blocks.{Alloc, fill_l1, alloc_l1, alloc_level1, alloc_block}

-- `n` calls of `get_free_dblock`, of which call `k` returns `v k`, where the copy is as `P k` says.
module _ (P : ℕ → Cached → Type 0) (v : ℕ → ℕ) (n : ℕ)
    (step : (k : ℕ)
      → k < n
      → (c : Cached) → P k c
      → ((get_free_dblock c).1 ≡ v k) × P (k + 1) (get_free_dblock c).0) where
  pub record IsGiven (i k : ℕ) (s d : Alloc) : Type 0 where
    pub blocks : d.inode.blocks ≡ s.inode.blocks + s.count_down
    pub down : d.count_down ≡ 0
    pub new : (j : ℕ) → j < s.count_down → d.inode.l1 (i + j) ≡ v (k + j)
    pub old : (j : ℕ) → (j < i) ⊎ (i + s.count_down ≤ j) → d.inode.l1 j ≡ s.inode.l1 j
    pub cached : P n d.cached
    pub mem : d.mem ≡ s.mem

  pub alloc_l1-IsGiven :
      (rounds i k : ℕ) (s : Alloc)
      → s.count_down + k ≡ n
      → s.count_down ≤ rounds
      → s.inode.blocks + s.count_down < 2 ^ 32
      → P k s.cached
      → IsGiven i k s (alloc_l1 rounds i s)
  unfolding alloc_l1 fill_l1
  alloc_l1-IsGiven zero i k s all le small p = record {
    blocks = omega arith;
    down = omega arith;
    new = λ j h. absurd (omega arith);
    old = λ j h. refl;
    cached = let e : k ≡ n = omega arith in subst (λ (m : ℕ). P m s.cached) e p;
    mem = refl;
  }
  alloc_l1-IsGiven (suc rounds) i k s all le small p = elim (Bool-cases (ltb 0 s.count_down)) [
    | inl more ↦
        let (value, p') = step k (ground arith) s.cached p in
        let rest =
          alloc_l1-IsGiven rounds (i + 1) (k + 1) (fill_l1 i s) (ground arith) (omega arith)
            (ground arith) p' in
        rw more (record {
          blocks = ground (arith, rest.blocks);
          down = rest.down;
          new = λ j h. elim (zero-or-pos j) [
            | inl e ↦
                let here : i + j ≡ i = omega arith in
                let first : k + j ≡ k = omega arith in
                let kept = rest.old i (inl (omega arith)) in
                rw (here, first) (kept ∙ rw (eq→== i i refl) value)
            | inr h' ↦
                let here : i + j ≡ i + 1 + (j - 1) = omega arith in
                let later : k + j ≡ k + 1 + (j - 1) = omega arith in
                rw (here, later) (rest.new (j - 1) (omega arith))
          ];
          old = λ j h.
              let other : (j == i) ≡ false = ground arith in
              rest.old j (ground arith) ∙ rw other refl;
          cached = rest.cached;
          mem = rest.mem;
        })
    | inr none ↦ rw none (record {
      blocks = ground arith;
      down = ground arith;
      new = λ j h. absurd (ground arith);
      old = λ j h. refl;
      cached = let e : k ≡ n = ground arith in subst (λ (m : ℕ). P m s.cached) e p;
      mem = refl;
    })
  ]

-- What `n` blocks more are: the result is 0, pointer `inode.blocks + j` is `number j`, and the other
-- pointers and the data region are as they were.
pub record IsExtended (inode : Inode) (mem : Memory) (n : ℕ) (number : ℕ → ℕ) (r : Alloc × ℕ)
    : Type 0 where
  pub result : r.1 ≡ 0
  pub blocks : r.0.inode.blocks ≡ inode.blocks + n
  pub new : (j : ℕ) → j < n → r.0.inode.l1 (inode.blocks + j) ≡ number j
  pub old : (j : ℕ) → (j < inode.blocks) ⊎ (inode.blocks + n ≤ j) → r.0.inode.l1 j ≡ inode.l1 j
  pub region : r.0.mem ≡ mem

module _ (inode : Inode) (mem : Memory) (cached : Cached) (n : ℕ) (room : inode.blocks + n ≤ 49)
    (some_asked : 0 < n) where
  abbrev asked : Alloc
  asked = record { inode = inode; mem = mem; cached = cached; count_down = n }

  abbrev final : Alloc
  final = alloc_l1 (49 - inode.blocks) inode.blocks asked

  alloc_block-l1 : final.count_down ≡ 0 → alloc_block inode mem cached n ≡ (final, 0)
  unfolding alloc_block alloc_level1
  alloc_block-l1 e =
      let a : leb 5169 inode.blocks ≡ false = lt→leb _ _ (omega arith) in
      let b : leb 49 inode.blocks ≡ false = lt→leb _ _ (omega arith) in
      let c : u16 inode.blocks ≡ inode.blocks = omega arith in
      let d : (final.count_down == 0) ≡ true = ground (arith, e) in
      rw (a, b, c) (rw d (simp d refl))

  alloc_block-given :
      (P : ℕ → Cached → Type 0) (v : ℕ → ℕ)
      → ((k : ℕ)
          → k < n
          → (c : Cached) → P k c
          → ((get_free_dblock c).1 ≡ v k) × P (k + 1) (get_free_dblock c).0)
      → P 0 cached
      → IsExtended inode mem n v (alloc_block inode mem cached n)
        × P n (alloc_block inode mem cached n).0.cached
  alloc_block-given P v step p =
      let g =
        alloc_l1-IsGiven P v n step (49 - inode.blocks) inode.blocks 0 asked (omega arith)
          (omega arith) (omega arith) p in
      rw (alloc_block-l1 g.down) (
        record {
          result = refl;
          blocks = g.blocks;
          new = λ j h. let e : 0 + j ≡ j = omega arith in g.new j h ∙ ap v e;
          old = g.old;
          region = g.mem;
        },
        g.cached,
      )

  -- Where the blocks up to `k` are taken and no other, `__alloc_block`, asked for blocks that the
  -- inode itself has room for and the device has, returns 0. The file's new blocks are `k + 1` and
  -- so on in their order, which were free and are taken then; the blocks that it had, the data
  -- region and the other blocks of the device are as they were, and the superblock counts what is
  -- left. The data region has at most 2 ^ 17 blocks.
  pub alloc_block-IsHanded :
      (size k : ℕ)
      → size ≤ 2 ^ 17
      → IsHanded size k cached
      → k + n < size
      → IsExtended inode mem n (λ j. k + j + 1) (alloc_block inode mem cached n)
        × IsHanded size (k + n) (alloc_block inode mem cached n).0.cached
  alloc_block-IsHanded size k small handed left =
      alloc_block-given (λ j c. IsHanded size (k + j) c) (λ j. k + j + 1)
        (λ j h c is.
          let (value, next) = get_free_dblock_next size (k + j) c small is (omega arith) in
          let e : k + j + 1 ≡ k + (j + 1) = omega arith in
          (value, subst (λ (i : ℕ). IsHanded size i (get_free_dblock c).0) e next))
        (let e : k ≡ k + 0 = omega arith in subst (λ (i : ℕ). IsHanded size i cached) e handed)

  -- On a device with no free block, `__alloc_block`, asked for blocks that the inode itself has room
  -- for, returns 0 all the same: each new block of the file is block 0, the root directory's, and
  -- nothing is taken. The data region has from 1 to 2 ^ 17 blocks, and no bit is set in the words
  -- that `get_free_dblock` goes through.
  pub alloc_block_full :
      IsWords cached.dbitmap
      → 0 < cached.sbi.nr_dregion_blocks
      → cached.sbi.nr_dregion_blocks ≤ 2 ^ 17
      → ((j : ℕ) → j < dblock_words cached * 32 → free_at cached.dbitmap j ≡ 0)
      → IsExtended inode mem n (λ _. 0) (alloc_block inode mem cached n)
        × ((alloc_block inode mem cached n).0.cached ≡ cached)
  alloc_block_full words blocks small full =
      let none : get_free_dblock cached ≡ (cached, 0) =
        elim (get_free_dblock-cases cached words small (full 0 (omega arith))) [
          | inl (e, none_free) ↦ e
          | inr (g, first, bound) ↦
              absurd (omega (arith, g.was_free, full (get_free_dblock cached).1 bound))
        ] in
      alloc_block-given (λ _ c. c ≡ cached) (λ _. 0)
        (λ j h c e.
          let same : get_free_dblock c ≡ (cached, 0) = ap get_free_dblock e ∙ none in
          (ap (λ r. r.1) same, ap (λ r. r.0) same))
        refl
