-- ===== src/Bitmap/FirstFree.antt =====
-- The operations on the free maps, against the map read as a set of free numbers.
use test_vsfs.Prelude.{
  ℕ, ◌*◌, ◌/◌, ◌^◌, ◌≤◌, ◌<◌, ◌≡◌, refl, ◌≢◌, arith, ◌==◌, if◌then◌else◌, ◌⊎◌, inl, inr, ap,
}
use test_vsfs.Word.{u32, sub32}
use test_vsfs.Layout.{Cached}
use test_vsfs.Bitmap.{Found, get_first_free_bit, get_free_dblock, claim_dblock}
use test_vsfs.Bitmap.Search.{
  free_at, IsWords, IsFirstFree, scan-cases, free_at-zero, IsFirstFree-Stopped,
}

-- Nothing is free among the first `limit` words, and nothing is changed.
pub record IsNoneFree (freemap : ℕ → ℕ) (limit : ℕ) (r : Found) : Type 0 where
  pub none_free : (j : ℕ) → j < limit * 32 → free_at freemap j ≡ 0
  pub result : r ≡ record { freemap = freemap; index = 0 }

-- For a map of at most 2 ^ 27 words, `get_first_free_bit` returns the lowest free number of the
-- map and clears its bit and no other; if no number is free, it returns 0 and leaves the map.
pub get_first_free_bit-cases :
    (freemap : ℕ → ℕ) (size : ℕ)
    → IsWords freemap
    → size ≤ 2 ^ 29
    → IsNoneFree freemap (size / 4) (get_first_free_bit freemap size)
      ⊎ IsFirstFree freemap (size / 4) (get_first_free_bit freemap size)
unfolding get_first_free_bit
get_first_free_bit-cases freemap size words small =
    let limit_eq : u32 (size / 4) ≡ size / 4 = omega arith in
    rw limit_eq (elim (scan-cases freemap (size / 4) 0 (size / 4) (omega arith)) [
      | inl x ↦ inl (record {
        none_free = λ j h.
            free_at-zero freemap (j / 32) j refl (x.zeros (j / 32) (omega arith) (omega arith));
        result = x.result;
      })
      | inr s ↦ inr (IsFirstFree-Stopped freemap (size / 4) _ (omega arith) words s)
    ])

-- What a caller may rely on after a block was taken: `b` was free, and only `b` is taken.
pub record IsGrant (cd cd' : Cached) (b : ℕ) : Type 0 where
  pub not_zero : b ≢ 0
  pub was_free : free_at cd.dbitmap b ≡ 1
  pub left : (j : ℕ) → free_at cd'.dbitmap j ≡ (if j == b then 0 else free_at cd.dbitmap j)
  pub counted : cd'.sbi.nr_free_dblock ≡ sub32 cd.sbi.nr_free_dblock 1
  pub region : cd'.sbi.nr_dregion_blocks ≡ cd.sbi.nr_dregion_blocks
  pub inodes : cd'.ibitmap ≡ cd.ibitmap

-- The words that `get_free_dblock` goes through: 1024 for each block of the data region.
abbrev pub dblock_words : Cached → ℕ
dblock_words cd = 1024 * cd.sbi.nr_dregion_blocks

IsGrant-claim :
    (cd : Cached) (limit : ℕ) (r : Found)
    → free_at cd.dbitmap 0 ≡ 0
    → IsFirstFree cd.dbitmap limit r
    → IsGrant cd (claim_dblock cd r).0 r.index
unfolding claim_dblock
IsGrant-claim cd limit r root f =
    let ne : r.index ≢ 0 = used_zero in
    record {
      not_zero = ne;
      was_free = f.was_free;
      left = f.left;
      counted = ground arith;
      region = ground arith;
      inodes = refl;
    }
  where
    used_zero : r.index ≢ 0
    used_zero e = omega (arith, f.was_free, root, ap (free_at cd.dbitmap) e)

module _ (cd : Cached) (words : IsWords cd.dbitmap) (small : cd.sbi.nr_dregion_blocks ≤ 2 ^ 17)
    (root : free_at cd.dbitmap 0 ≡ 0) where
  -- With block 0 taken and at most 2 ^ 17 blocks in the data region, `get_free_dblock` takes the
  -- lowest free block and counts it, or returns 0 and changes nothing when no bit of the words
  -- that it goes through is set.
  pub get_free_dblock-cases :
      ((get_free_dblock cd ≡ (cd, 0))
        × ((j : ℕ) → j < dblock_words cd * 32 → free_at cd.dbitmap j ≡ 0))
      ⊎ (IsGrant cd (get_free_dblock cd).0 (get_free_dblock cd).1
          × ((j : ℕ) → j < (get_free_dblock cd).1 → free_at cd.dbitmap j ≡ 0)
          × ((get_free_dblock cd).1 < dblock_words cd * 32))
  unfolding get_free_dblock
  get_free_dblock-cases = elim (get_first_free_bit-cases cd.dbitmap size words (omega arith)) [
    | inl x ↦ inl (rw x.result, λ j h. x.none_free j (omega arith))
    | inr f ↦ inr (IsGrant-claim cd (size / 4) _ root f, f.first, omega (arith, f.within))
  ]
    where
      size : ℕ
      size = u32 (4096 * cd.sbi.nr_dregion_blocks)

  -- With no block of the device free and a bit set behind them, below the words that it goes
  -- through, `get_free_dblock` returns a block past the end of the device. This holds for at most
  -- 2 ^ 17 blocks.
  pub get_free_dblock_past :
      (j : ℕ)
      → ((i : ℕ) → i < cd.sbi.nr_dregion_blocks → free_at cd.dbitmap i ≡ 0)
      → j < dblock_words cd * 32
      → free_at cd.dbitmap j ≡ 1
      → cd.sbi.nr_dregion_blocks ≤ (get_free_dblock cd).1
  get_free_dblock_past j full within free = elim get_free_dblock-cases [
    | inl (e, none_free) ↦ absurd (omega (arith, none_free j within, free))
    | inr (g, first, bound) ↦ elim (below_or (get_free_dblock cd).1 cd.sbi.nr_dregion_blocks) [
      | inl l ↦ absurd (omega (arith, g.was_free, full (get_free_dblock cd).1 l))
      | inr past ↦ past
    ]
  ]
    where
      below_or : (a b : ℕ) → (a < b) ⊎ (b ≤ a)
      below_or a b = omega arith
