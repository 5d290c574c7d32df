-- ===== src/Examples/Maps.antt =====
-- The free maps and the block map at concrete places.
use test_vsfs.Prelude.{ℕ, zero, suc, ◌+◌, ◌%◌, ◌<◌, ◌≤◌, inl, inr, ◌≡◌, ◌≢◌, refl, arith, ◌⊎◌}
use test_vsfs.Layout.{Inode}
use test_vsfs.Bitmap.{get_first_free_bit, get_free_dblock, bit}
use test_vsfs.Bitmap.Bits.{bit-zero}
use test_vsfs.Bitmap.Search.{free_at, IsWords, IsFirstFree}
use test_vsfs.Layout.{Cached}
use test_vsfs.Bitmap.FirstFree.{
  get_free_dblock_past, IsNoneFree, get_first_free_bit-cases, get_free_dblock-cases,
}
use test_vsfs.Bitmap.Counts.{IsCounted, count_free, IsCounted-get_free_dblock}
use test_vsfs.Bitmap.Handed.{
  first_word, free_at-first_word, after_grants, IsHanded, get_free_dblock-IsHanded,
}
use test_vsfs.Blocks.{alloc_block}
use test_vsfs.Blocks.Given.{IsExtended, alloc_block-IsHanded, alloc_block_full}
use test_vsfs.Blocks.Idle.{alloc_block_nothing}
use test_vsfs.Examples.{small_sbi, only_three, small_cached, small_file, listing}

only_three-IsWords : IsWords only_three
only_three-IsWords c = ground arith

small_cached-IsCounted : IsCounted small_cached
unfolding count_free free_at bit
small_cached-IsCounted = refl

zero_taken : free_at only_three 0 ≡ 0
unfolding free_at bit
zero_taken = refl

get_first_free_bit-cases_example :
    IsNoneFree only_three 1024 (get_first_free_bit only_three 4096)
    ⊎ IsFirstFree only_three 1024 (get_first_free_bit only_three 4096)
get_first_free_bit-cases_example =
    get_first_free_bit-cases only_three 4096 only_three-IsWords (omega arith)

three_free : free_at only_three 3 ≡ 1
unfolding free_at bit
three_free = refl

takes_three : (get_free_dblock small_cached).1 < 8
takes_three =
    elim (get_free_dblock-cases small_cached only_three-IsWords (omega arith) zero_taken) [
      | inl (e, none_free) ↦ absurd (omega (arith, none_free 3 (omega arith), three_free))
      | inr (g, first, within) ↦ elim (here_or_above (get_free_dblock small_cached).1) [
        | inl le ↦ omega arith
        | inr above ↦ absurd (omega (arith, first 3 above, three_free))
      ]
    ]
  where
    here_or_above : (b : ℕ) → (b ≤ 3) ⊎ (3 < b)
    here_or_above b = omega arith

IsCounted-get_free_dblock_example : IsCounted (get_free_dblock small_cached).0
IsCounted-get_free_dblock_example =
    IsCounted-get_free_dblock small_cached (omega arith) small_cached-IsCounted only_three-IsWords
      zero_taken takes_three

abbrev full_file : Inode
full_file = record small_file { blocks = 5169 }

alloc_block_nothing_example :
    let (s, result) = alloc_block full_file listing small_cached 0 in
    ((full_file.blocks ≢ 5169)
      × (result ≡ 0)
      × (s ≡ record { inode = full_file; mem = listing; cached = small_cached; count_down = 0 }))
    ⊎ ((full_file.blocks ≡ 5169)
        × (result ≡ 0)
        × (s.cached ≡ (get_free_dblock small_cached).0)
        × (s.inode.l3 0 ≡ (get_free_dblock small_cached).1)
        × (s.inode.blocks ≡ 5169))
alloc_block_nothing_example = alloc_block_nothing full_file listing small_cached (omega arith)

-- The device has blocks 0 to 2; bit 3 is set.
abbrev full_cached : Cached
full_cached = record small_cached { sbi = record small_sbi { nr_dregion_blocks = 3 } }

none_below_three : (i : ℕ) → i < 3 → free_at only_three i ≡ 0
unfolding free_at bit
none_below_three zero h = refl
none_below_three (suc zero) h = refl
none_below_three (suc (suc zero)) h = refl
none_below_three (suc (suc (suc i))) h = absurd (omega arith)

get_free_dblock_past_example : 3 ≤ (get_free_dblock full_cached).1
get_free_dblock_past_example =
    get_free_dblock_past full_cached only_three-IsWords (omega arith) zero_taken 3 none_below_three
      (omega arith) three_free

-- A free map of 40 blocks with block 0 taken.
abbrev forty : Cached
forty = record small_cached {
  sbi = record small_sbi { nr_dregion_blocks = 40; nr_free_dblock = 39 };
  dbitmap = first_word;
}

forty-IsHanded : IsHanded 40 0 forty
forty-IsHanded = record {
  region = refl;
  counted = refl;
  words = λ c. ground arith;
  blocks = λ j h. ground (arith, free_at-first_word first_word 2 (λ c k. refl) j (omega arith));
}

alloc_block-IsHanded_example :
    let r = alloc_block small_file listing forty 3 in
    IsExtended small_file listing 3 (λ j. 0 + j + 1) r × IsHanded 40 (0 + 3) r.0.cached
alloc_block-IsHanded_example =
    alloc_block-IsHanded small_file listing forty 3 (omega arith) (omega arith) 40 0 (omega arith)
      forty-IsHanded (omega arith)

-- A free map with no block left.
abbrev none_left : Cached
none_left = record small_cached { dbitmap = λ _. 0 }

none_left-free : (j : ℕ) → free_at none_left.dbitmap j ≡ 0
unfolding free_at
none_left-free j = bit-zero (j % 32)

alloc_block_full_example :
    let r = alloc_block small_file listing none_left 3 in
    IsExtended small_file listing 3 (λ _. 0) r × (r.0.cached ≡ none_left)
alloc_block_full_example =
    alloc_block_full small_file listing none_left 3 (omega arith) (omega arith) (λ c. omega arith)
      (omega arith) (omega arith) (λ j h. none_left-free j)

get_free_dblock-IsHanded_example :
    ((get_free_dblock (after_grants 35 forty)).1 ≡ 36)
    × IsHanded 40 36 (get_free_dblock (after_grants 35 forty)).0
get_free_dblock-IsHanded_example =
    get_free_dblock-IsHanded 40 forty (omega arith) forty-IsHanded 35 (omega arith)
