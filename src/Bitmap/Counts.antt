-- ===== src/Bitmap/Counts.antt =====
-- The counter of free blocks against the bits of the free map.
use test_vsfs.Prelude.{
  ℕ, zero, suc, ◌+◌, ◌^◌, ◌≤◌, ◌<◌, ◌≡◌, refl, arith, ltb, ◌==◌, if◌then◌else◌, inl, inr, ◌↔◌,
}
use test_vsfs.Word.{u32}
use test_vsfs.Layout.{Cached}
use test_vsfs.Bitmap.{get_free_dblock, put_dblock}
use test_vsfs.Bitmap.Search.{free_at, IsWords, free_at-set_bit}
use test_vsfs.Bitmap.FirstFree.{IsGrant, get_free_dblock-cases}
use test_vsfs.Bitmap.Bits.{bit-le-one}

-- How many of the first `n` numbers are free.
unfoldable pub count_free : (ℕ → ℕ) → ℕ → ℕ
count_free freemap zero = 0
count_free freemap (suc n) = count_free freemap n + free_at freemap n

-- The superblock counts the free blocks that the device has.
abbrev pub IsCounted : Cached → Type 0
IsCounted cd = cd.sbi.nr_free_dblock ≡ count_free cd.dbitmap cd.sbi.nr_dregion_blocks

count_free-le : (freemap : ℕ → ℕ) (n : ℕ) → count_free freemap n ≤ n
unfolding count_free free_at
count_free-le freemap zero = omega arith
count_free-le freemap (suc n) = omega (arith, count_free-le freemap n, bit-le-one)

count_free-change :
    (old new : ℕ → ℕ) (b v n : ℕ)
    → ((j : ℕ) → free_at new j ≡ (if j == b then v else free_at old j))
    → count_free new n + (if ltb b n then free_at old b else 0)
      ≡ count_free old n + (if ltb b n then v else 0)
unfolding count_free
count_free-change old new b v zero change = ground arith
count_free-change old new b v (suc n) change =
    ground (arith, count_free-change old new b v n change, change n)

pub free_at-put_dblock :
    (cd : Cached) (b j : ℕ)
    → free_at (put_dblock cd b).dbitmap j ≡ (if j == b then 1 else free_at cd.dbitmap j)
unfolding put_dblock
free_at-put_dblock cd b j = free_at-set_bit cd.dbitmap b j

put_dblock_counter :
    (cd : Cached) (b : ℕ)
    → ((put_dblock cd b).sbi.nr_free_dblock ≡ u32 (cd.sbi.nr_free_dblock + 1))
      × ((put_dblock cd b).sbi.nr_dregion_blocks ≡ cd.sbi.nr_dregion_blocks)
unfolding put_dblock
put_dblock_counter cd b = (refl, refl)

-- A grant of a block of the device keeps the counter of free blocks right.
pub IsCounted-IsGrant :
    (cd cd' : Cached) (b : ℕ)
    → cd.sbi.nr_dregion_blocks ≤ 2 ^ 17
    → IsCounted cd
    → IsGrant cd cd' b
    → b < cd.sbi.nr_dregion_blocks
    → IsCounted cd'
IsCounted-IsGrant cd cd' b small counted g within =
    let change = count_free-change cd.dbitmap cd'.dbitmap b 0 cd.sbi.nr_dregion_blocks g.left in
    let le = count_free-le cd.dbitmap cd.sbi.nr_dregion_blocks in
    rw g.region (ground (arith, g.counted, g.was_free))

module _ (cd : Cached) (small : cd.sbi.nr_dregion_blocks ≤ 2 ^ 17) (counted : IsCounted cd) where
  -- With block 0 taken and at most 2 ^ 17 blocks in the data region, `get_free_dblock` keeps the
  -- counter of free blocks right, if what it returns is below the number of blocks of the device.
  pub IsCounted-get_free_dblock :
      IsWords cd.dbitmap
      → free_at cd.dbitmap 0 ≡ 0
      → (get_free_dblock cd).1 < cd.sbi.nr_dregion_blocks
      → IsCounted (get_free_dblock cd).0
  IsCounted-get_free_dblock words root within = elim (get_free_dblock-cases cd words small root) [
    | inl (e, none_free) ↦ rw e counted
    | inr (g, first, bound) ↦ IsCounted-IsGrant cd _ _ small counted g within
  ]

  module _ (b : ℕ) (within : b < cd.sbi.nr_dregion_blocks) where
    put_change :
        count_free (put_dblock cd b).dbitmap cd.sbi.nr_dregion_blocks + free_at cd.dbitmap b
        ≡ count_free cd.dbitmap cd.sbi.nr_dregion_blocks + 1
    put_change =
        let change =
          count_free-change cd.dbitmap (put_dblock cd b).dbitmap b 1 cd.sbi.nr_dregion_blocks
            (free_at-put_dblock cd b) in
        ground arith

    -- With at most 2 ^ 17 blocks in the data region and the counter of free blocks right, it is
    -- right after `put_dblock` of a block of the device exactly when that block was taken.
    pub IsCounted-put_dblock : IsCounted (put_dblock cd b) ↔ (free_at cd.dbitmap b ≡ 0)
    IsCounted-put_dblock =
        let (c, r) = put_dblock_counter cd b in
        let le = count_free-le cd.dbitmap cd.sbi.nr_dregion_blocks in
        rw r (rw c (λ h. omega (arith, put_change), λ h. omega (arith, put_change)))
