-- ===== src/Bitmap/Search.antt =====
-- `get_first_free_bit`: what the search returns, and what it leaves of the map.
use test_vsfs.Prelude.{
  ℕ, zero, suc, ◌+◌, ◌*◌, ◌/◌, ◌%◌, ◌^◌, ◌≤◌, ◌<◌, ◌≡◌, refl, ◌≢◌, arith, ◌==◌, if◌then◌else◌, ◌⊎◌,
  inl, inr, Bool-cases, ap, ==→eq, ==→ne, ◌∙◌,
}
use test_vsfs.Word.{u32}
use test_vsfs.Layout.{put}
use test_vsfs.Bitmap.{bit, clear_bit, set_bit, ffs, Found, scan}
use test_vsfs.Bitmap.Bits.{bit-clear_bit, bit-set_bit, bit-zero, IsLowest, ffs-IsLowest}

-- Whether inode or block `i` is free, 1 or 0.
unfoldable pub free_at : (ℕ → ℕ) → ℕ → ℕ
free_at freemap i = bit (freemap (i / 32)) (i % 32)

-- Each word of the map is a `uint32_t`.
abbrev pub IsWords : (ℕ → ℕ) → Type 0
IsWords freemap = (c : ℕ) → freemap c < 2 ^ 32

-- The search stopped at word `word`, the first that is not zero.
pub record Stopped (freemap : ℕ → ℕ) (lo hi : ℕ) (r : Found) : Type 0 where
  pub word : ℕ
  pub from : lo ≤ word
  pub until : word < hi
  pub not_zero : freemap word ≢ 0
  pub zeros : (c : ℕ) → lo ≤ c → c < word → freemap c ≡ 0
  pub result : r ≡ record {
    freemap = put freemap word (clear_bit (freemap word) (ffs 32 (freemap word)));
    index = u32 (word * 32 + ffs 32 (freemap word));
  }

-- The search came to the end of the map.
pub record Exhausted (freemap : ℕ → ℕ) (lo hi : ℕ) (r : Found) : Type 0 where
  pub zeros : (c : ℕ) → lo ≤ c → c < hi → freemap c ≡ 0
  pub result : r ≡ record { freemap = freemap; index = 0 }

module _ (freemap : ℕ → ℕ) where
  scan_zero :
      (rounds count : ℕ)
      → freemap count ≡ 0
      → scan freemap (suc rounds) count ≡ scan freemap rounds (count + 1)
  unfolding scan
  scan_zero rounds count h = ground arith

  scan_stop :
      (rounds count : ℕ)
      → freemap count ≢ 0
      → scan freemap (suc rounds) count ≡ record {
        freemap = put freemap count (clear_bit (freemap count) (ffs 32 (freemap count)));
        index = u32 (count * 32 + ffs 32 (freemap count));
      }
  unfolding scan
  scan_stop rounds count h = ground arith

  zeros_from :
      (lo hi : ℕ)
      → freemap lo ≡ 0
      → ((c : ℕ) → lo + 1 ≤ c → c < hi → freemap c ≡ 0)
      → (c : ℕ) → lo ≤ c
      → c < hi
      → freemap c ≡ 0
  zeros_from lo hi z zs c p q = elim (eq_or_above lo c p) [
    | inl e ↦ ground (arith, ap freemap e)
    | inr l ↦ zs c l q
  ]
    where
      eq_or_above : (a b : ℕ) → a ≤ b → (a ≡ b) ⊎ (a + 1 ≤ b)
      eq_or_above a b l = omega arith

  pub scan-cases :
      (rounds lo hi : ℕ)
      → lo + rounds ≡ hi
      → Exhausted freemap lo hi (scan freemap rounds lo)
        ⊎ Stopped freemap lo hi (scan freemap rounds lo)
  scan-cases zero lo hi e =
      inl (record { zeros = λ c p q. absurd (omega arith); result = unfold scan in refl })
  scan-cases (suc rounds) lo hi e = elim (Bool-cases (freemap lo == 0)) [
    | inl z ↦
        let z' = ==→eq (freemap lo) 0 z in
        elim (scan-cases rounds (lo + 1) hi (omega arith)) [
          | inl x ↦ inl (record {
            zeros = zeros_from lo hi z' x.zeros;
            result = scan_zero rounds lo z' ∙ x.result;
          })
          | inr s ↦ inr (record {
            word = s.word;
            from = omega (arith, s.from);
            until = s.until;
            not_zero = s.not_zero;
            zeros = zeros_from lo s.word z' s.zeros;
            result = scan_zero rounds lo z' ∙ s.result;
          })
        ]
    | inr n ↦ inr (record {
      word = lo;
      from = omega arith;
      until = omega arith;
      not_zero = ==→ne (freemap lo) 0 n;
      zeros = λ c p q. absurd (omega arith);
      result = scan_stop rounds lo (==→ne (freemap lo) 0 n);
    })
  ]

-- What a search of `limit` words gives: the first free bit, cleared in the map that is left.
pub record IsFirstFree (freemap : ℕ → ℕ) (limit : ℕ) (r : Found) : Type 0 where
  pub within : r.index < limit * 32
  pub was_free : free_at freemap r.index ≡ 1
  pub first : (j : ℕ) → j < r.index → free_at freemap j ≡ 0
  pub left : (j : ℕ) → free_at r.freemap j ≡ (if j == r.index then 0 else free_at freemap j)

module _ (freemap : ℕ → ℕ) where
  pub free_at-zero : (c i : ℕ) → i / 32 ≡ c → freemap c ≡ 0 → free_at freemap i ≡ 0
  unfolding free_at
  free_at-zero c i e z = ap (λ (v : ℕ). bit v (i % 32)) (ap freemap e ∙ z) ∙ bit-zero (i % 32)

  module _ (c n : ℕ) (low : IsLowest 32 (freemap c) n) where
    free_at_found : free_at freemap (c * 32 + n) ≡ 1
    unfolding free_at
    free_at_found =
        let e : (c * 32 + n) / 32 ≡ c = omega (arith, low.within) in
        let f : (c * 32 + n) % 32 ≡ n = omega (arith, low.within) in rw (e, f) low.is_set

    free_at_before :
        ((d : ℕ) → 0 ≤ d → d < c → freemap d ≡ 0) → (j : ℕ) → j < c * 32 + n → free_at freemap j ≡ 0
    free_at_before zeros j h = elim (where_is j h) [
      | inl p ↦ free_at-zero (j / 32) j refl (zeros (j / 32) (omega arith) p)
      | inr (e, l) ↦ unfold free_at in rw e (low.below (j % 32) l)
    ]
      where
        where_is : (i : ℕ) → i < c * 32 + n → (i / 32 < c) ⊎ ((i / 32 ≡ c) × (i % 32 < n))
        where_is i l = omega (arith, low.within)

  pub free_at-clear_bit :
      (i j : ℕ)
      → free_at (put freemap (i / 32) (clear_bit (freemap (i / 32)) (i % 32))) j
        ≡ (if j == i then 0 else free_at freemap j)
  unfolding free_at
  free_at-clear_bit i j = ground (arith, bit-clear_bit (freemap (i / 32)) (i % 32) (j % 32))

  pub free_at-set_bit :
      (i j : ℕ)
      → free_at (put freemap (i / 32) (set_bit (freemap (i / 32)) (i % 32))) j
        ≡ (if j == i then 1 else free_at freemap j)
  unfolding free_at
  free_at-set_bit i j = ground (arith, bit-set_bit (freemap (i / 32)) (i % 32) (j % 32))

  free_at-clear_bit_at :
      (c n j : ℕ)
      → n < 32
      → free_at (put freemap c (clear_bit (freemap c) n)) j
        ≡ (if j == c * 32 + n then 0 else free_at freemap j)
  free_at-clear_bit_at c n j h =
      let e : (c * 32 + n) / 32 ≡ c = omega arith in
      let f : (c * 32 + n) % 32 ≡ n = omega arith in rw (e, f) at (free_at-clear_bit (c * 32 + n) j)

  -- The index fits 32 bits while the map has at most 2 ^ 27 words.
  pub IsFirstFree-Stopped :
      (limit : ℕ) (r : Found)
      → limit ≤ 2 ^ 27
      → IsWords freemap
      → Stopped freemap 0 limit r
      → IsFirstFree freemap limit r
  IsFirstFree-Stopped limit r small words s = rw s.result (
      rw index_eq (record {
        within = omega (arith, low.within, s.until);
        was_free = free_at_found s.word n low;
        first = free_at_before s.word n low s.zeros;
        left = λ j. free_at-clear_bit_at s.word n j low.within;
      }))
    where
      n : ℕ
      n = ffs 32 (freemap s.word)

      low : IsLowest 32 (freemap s.word) n
      low = ffs-IsLowest 32 (freemap s.word) s.not_zero (words s.word)

      index_eq : u32 (s.word * 32 + n) ≡ s.word * 32 + n
      index_eq = omega (arith, low.within, s.until)
