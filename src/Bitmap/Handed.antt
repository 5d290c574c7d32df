-- ===== src/Bitmap/Handed.antt =====
-- The blocks that `get_free_dblock` hands out of an unused free map, one call after the other.
use test_vsfs.Prelude.{
  ℕ, zero, suc, ◌+◌, ◌-◌, ◌*◌, ◌/◌, ◌%◌, ◌^◌, ◌≤◌, ◌<◌, ◌≡◌, refl, arith, leb, ◌==◌, if◌then◌else◌,
  ◌⊎◌, inl, inr, ◌∙◌, subst,
}
use native.Mathlib.Nat.{pow-suc}
use test_vsfs.Layout.{Cached}
use test_vsfs.Bitmap.{bit, ffs, scan, get_first_free_bit, get_free_dblock, claim_dblock}
use test_vsfs.Bitmap.Bits.{clear_bit-le}
use test_vsfs.Bitmap.Search.{free_at, IsWords}
use test_vsfs.Bitmap.FirstFree.{get_free_dblock-cases}
use test_vsfs.Bitmap.Counts.{count_free}

-- All bits are set but the first.
abbrev pub first_word : ℕ → ℕ
first_word c = if c == 0 then 0xfffffffe else 0xffffffff

bit-ones : (k n w : ℕ) → w + 1 ≡ 2 ^ n → k < n → bit w k ≡ 1
unfolding bit
bit-ones zero zero w e h = absurd (omega arith)
bit-ones zero (suc n) w e h = omega (arith, pow-suc 2 n)
bit-ones (suc k) zero w e h = absurd (omega arith)
bit-ones (suc k) (suc n) w e h = bit-ones k n (w / 2) (omega (arith, pow-suc 2 n)) (omega arith)

bit-all_but_first : (k : ℕ) → k < 32 → bit 0xfffffffe k ≡ (if k == 0 then 0 else 1)
unfolding bit
bit-all_but_first zero h = refl
bit-all_but_first (suc k) h = ground (arith, bit-ones k 31 0x7fffffff refl (omega arith))

-- A map with such words has every number free but the first.
pub free_at-first_word :
    (freemap : ℕ → ℕ) (words : ℕ)
    → ((c : ℕ) → c < words → freemap c ≡ first_word c)
    → (j : ℕ) → j < words * 32
    → free_at freemap j ≡ (if j == 0 then 0 else 1)
unfolding free_at
free_at-first_word freemap words given j h =
    let e = given (j / 32) (omega arith) in
    let ones = bit-ones (j % 32) 32 0xffffffff refl (omega arith) in
    let low = bit-all_but_first (j % 32) (omega arith) in rw e (ground arith)

pub count_free-first_word :
    (freemap : ℕ → ℕ) (n : ℕ)
    → ((j : ℕ) → j < n → free_at freemap j ≡ (if j == 0 then 0 else 1))
    → count_free freemap n ≡ n - 1
unfolding count_free
count_free-first_word freemap zero given = refl
count_free-first_word freemap (suc n) given =
    ground
      (arith, count_free-first_word freemap n (λ j h. given j (omega arith)), given n (omega arith))

IsWords-scan :
    (freemap : ℕ → ℕ)
    → IsWords freemap
    → (rounds count : ℕ) → IsWords (scan freemap rounds count).freemap
unfolding scan
IsWords-scan freemap words zero count c = words c
IsWords-scan freemap words (suc rounds) count c = ground (
  arith,
  IsWords-scan freemap words rounds (count + 1) c,
  words c,
  words count,
  clear_bit-le (freemap count) (ffs 32 (freemap count)),
)

pub IsWords-get_free_dblock :
    (cd : Cached) → IsWords cd.dbitmap → IsWords (get_free_dblock cd).0.dbitmap
unfolding get_free_dblock claim_dblock get_first_free_bit
IsWords-get_free_dblock cd words = IsWords-scan cd.dbitmap words _ 0

-- The state after `k` calls.
unfoldable pub after_grants : ℕ → Cached → Cached
after_grants zero cd = cd
after_grants (suc k) cd = (get_free_dblock (after_grants k cd)).0

-- The blocks up to `k` are taken and no other, and the superblock counts the rest.
pub record IsHanded (size k : ℕ) (cd : Cached) : Type 0 where
  pub region : cd.sbi.nr_dregion_blocks ≡ size
  pub counted : cd.sbi.nr_free_dblock ≡ size - 1 - k
  pub words : IsWords cd.dbitmap
  pub blocks : (j : ℕ) → j < size → free_at cd.dbitmap j ≡ (if leb j k then 0 else 1)

module _ (size k : ℕ) (cd : Cached) (small : size ≤ 2 ^ 17) (s : IsHanded size k cd)
    (room : k + 1 < size) where
  -- The lowest free block is the next one.
  next_block :
      (b : ℕ) → free_at cd.dbitmap b ≡ 1 → ((j : ℕ) → j < b → free_at cd.dbitmap j ≡ 0) → b ≡ k + 1
  next_block b free first = elim (order b) [
    | inl below ↦ absurd (ground (arith, s.blocks b (omega arith), free))
    | inr (inl e) ↦ e
    | inr (inr above) ↦ absurd (ground (arith, s.blocks (k + 1) room, first (k + 1) above))
  ]
    where
      order : (i : ℕ) → (i < k + 1) ⊎ ((i ≡ k + 1) ⊎ (k + 1 < i))
      order i = omega arith

  pub get_free_dblock_next :
      ((get_free_dblock cd).1 ≡ k + 1) × IsHanded size (k + 1) (get_free_dblock cd).0
  get_free_dblock_next =
      elim (get_free_dblock-cases cd s.words (omega (arith, s.region))
        (ground (arith, s.blocks 0 (omega arith)))) [
          | inl (e, none_free) ↦
              absurd
                (ground (arith, none_free (k + 1) (omega (arith, s.region)), s.blocks (k + 1) room))
          | inr (g, first, bound) ↦
              let e = next_block (get_free_dblock cd).1 g.was_free first in
              (
                e,
                record {
                  region = g.region ∙ s.region;
                  counted = omega (arith, g.counted, s.counted);
                  words = IsWords-get_free_dblock cd s.words;
                  blocks = λ j h. ground (arith, g.left j, s.blocks j h, e);
                },
              )
        ]

module _ (size : ℕ) (cd : Cached) (small : size ≤ 2 ^ 17) (unused : IsHanded size 0 cd) where
  after_grants-IsHanded : (k : ℕ) → k < size → IsHanded size k (after_grants k cd)
  unfolding after_grants
  after_grants-IsHanded zero h = unused
  after_grants-IsHanded (suc k) h =
      let e : k + 1 ≡ suc k = omega arith in
      subst (λ (i : ℕ). IsHanded size i (get_free_dblock (after_grants k cd)).0) e
        (get_free_dblock_next size k (after_grants k cd) small
          (after_grants-IsHanded k (omega arith)) (omega arith)).1

  -- Out of a free map in which only block 0 is taken, with the superblock's count right, call
  -- number `k + 1` of `get_free_dblock` returns block `k + 1`, as long as the device has it, and the
  -- superblock then counts what is left: no block is handed out twice. The data region has at most
  -- 2 ^ 17 blocks.
  pub get_free_dblock-IsHanded :
      (k : ℕ)
      → k + 1 < size
      → ((get_free_dblock (after_grants k cd)).1 ≡ k + 1)
        × IsHanded size (k + 1) (get_free_dblock (after_grants k cd)).0
  get_free_dblock-IsHanded k room =
      get_free_dblock_next size k (after_grants k cd) small (after_grants-IsHanded k (omega arith))
        room
