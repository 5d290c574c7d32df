-- ===== src/Bitmap/Bits.antt =====
-- The digits of a word after a bit is set or cleared, and the lowest set digit.
use native.Mathlib.Nat.{pow-suc}
use test_vsfs.Prelude.{
  ℕ, zero, suc, ◌+◌, ◌*◌, ◌/◌, ◌%◌, ◌^◌, ◌≤◌, ◌<◌, ◌≡◌, refl, ◌≢◌, arith, ◌==◌, if◌then◌else◌, ◌⊎◌,
  inl, inr, ap,
}
use test_vsfs.Bitmap.{bit, clear_bit, set_bit, ffs}

pub bit-clear_bit : (w n m : ℕ) → bit (clear_bit w n) m ≡ (if m == n then 0 else bit w m)
unfolding bit clear_bit
bit-clear_bit w zero zero = omega arith
bit-clear_bit w zero (suc m) = ground (arith, ap (λ (v : ℕ). bit v m) (half w))
  where
    half : (v : ℕ) → v / 2 * 2 / 2 ≡ v / 2
    half v = omega arith
bit-clear_bit w (suc n) zero = ground arith
bit-clear_bit w (suc n) (suc m) =
    ground
      (arith, ap (λ (v : ℕ). bit v m) (half (clear_bit (w / 2) n) w), bit-clear_bit (w / 2) n m)
  where
    half : (v u : ℕ) → (v * 2 + u % 2) / 2 ≡ v
    half v u = omega arith

pub bit-set_bit : (w n m : ℕ) → bit (set_bit w n) m ≡ (if m == n then 1 else bit w m)
unfolding bit set_bit
bit-set_bit w zero zero = omega arith
bit-set_bit w zero (suc m) = ground (arith, ap (λ (v : ℕ). bit v m) (half w))
  where
    half : (v : ℕ) → (v / 2 * 2 + 1) / 2 ≡ v / 2
    half v = omega arith
bit-set_bit w (suc n) zero = ground arith
bit-set_bit w (suc n) (suc m) =
    ground (arith, ap (λ (v : ℕ). bit v m) (half (set_bit (w / 2) n) w), bit-set_bit (w / 2) n m)
  where
    half : (v u : ℕ) → (v * 2 + u % 2) / 2 ≡ v
    half v u = omega arith

pub bit-le-one : (w n : ℕ) → bit w n ≤ 1
unfolding bit
bit-le-one w zero = omega arith
bit-le-one w (suc n) = bit-le-one (w / 2) n

pub bit-zero : (n : ℕ) → bit 0 n ≡ 0
unfolding bit
bit-zero zero = refl
bit-zero (suc n) = bit-zero n

module _ (k w : ℕ) where
  ffs_odd : w % 2 ≡ 1 → ffs (suc k) w ≡ 0
  unfolding ffs
  ffs_odd h = ground arith

  ffs_even : w % 2 ≡ 0 → ffs (suc k) w ≡ ffs k (w / 2) + 1
  unfolding ffs
  ffs_even h = ground arith

-- Of a word that is not zero `ffs` finds a set bit, and no lower bit is set.
pub record IsLowest (k w n : ℕ) : Type 0 where
  pub within : n < k
  pub is_set : bit w n ≡ 1
  pub below : (j : ℕ) → j < n → bit w j ≡ 0

IsLowest-even : (k w n : ℕ) → w % 2 ≡ 0 → IsLowest k (w / 2) n → IsLowest (suc k) w (suc n)
unfolding bit
IsLowest-even k w n even low = record {
  within = omega (arith, low.within);
  is_set = low.is_set;
  below = go;
}
  where
    go : (j : ℕ) → j < suc n → bit w j ≡ 0
    go zero h = even
    go (suc j) h = low.below j (omega arith)

pub ffs-IsLowest : (k w : ℕ) → w ≢ 0 → w < 2 ^ k → IsLowest k w (ffs k w)
ffs-IsLowest zero w ne h = absurd (ne (omega arith))
ffs-IsLowest (suc k) w ne h = elim (parity w) [
  | inl odd ↦
      rw (ffs_odd k w odd)
        (record { within = omega arith; is_set = unfold bit in odd; below = λ j l. elim l [ ] })
  | inr even ↦
      let low = ffs-IsLowest k (w / 2) (λ e. ne (omega arith)) (omega (arith, pow-suc 2 k)) in
      let e : ffs (suc k) w ≡ suc (ffs k (w / 2)) = omega (arith, ffs_even k w even) in
      rw e (IsLowest-even k w (ffs k (w / 2)) even low)
]
  where
    parity : (v : ℕ) → (v % 2 ≡ 1) ⊎ (v % 2 ≡ 0)
    parity v = omega arith

pub clear_bit-le : (w n : ℕ) → clear_bit w n ≤ w
unfolding clear_bit
clear_bit-le w zero = omega arith
clear_bit-le w (suc n) = omega (arith, clear_bit-le (w / 2) n)

pub set_bit-lt : (k w n : ℕ) → n < k → w < 2 ^ k → set_bit w n < 2 ^ k
unfolding set_bit
set_bit-lt zero w n h p = elim h [ ]
set_bit-lt (suc k) w zero h p = omega (arith, pow-suc 2 k)
set_bit-lt (suc k) w (suc n) h p =
    omega (arith, pow-suc 2 k, set_bit-lt k (w / 2) n (omega arith) (omega (arith, pow-suc 2 k)))
