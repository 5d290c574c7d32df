-- ===== src/Bitmap/Width.antt =====
-- The numbers that the search gives are `uint32_t`.
use test_vsfs.Prelude.{ℕ, zero, suc, ◌+◌, ◌^◌, ◌<◌, arith, ◌==◌, Bool-cases, inl, inr}
use test_vsfs.Layout.{Cached}
use test_vsfs.Bitmap.{scan, get_first_free_bit, get_free_dblock}

scan-width : (freemap : ℕ → ℕ) (rounds count : ℕ) → (scan freemap rounds count).index < 2 ^ 32
unfolding scan
scan-width freemap zero count = omega arith
scan-width freemap (suc rounds) count = elim (Bool-cases (freemap count == 0)) [
  | inl z ↦ rw z (scan-width freemap rounds (count + 1))
  | inr n ↦ rw n (omega arith)
]

pub get_free_dblock-width : (cached : Cached) → (get_free_dblock cached).1 < 2 ^ 32
unfolding get_free_dblock get_first_free_bit
get_free_dblock-width cached = scan-width cached.dbitmap _ 0
