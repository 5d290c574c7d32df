-- ===== src/Memory/Laws.antt =====
-- What a load sees after a store.
use test_vsfs.Prelude.{ℕ, ◌+◌, ◌-◌, ◌^◌, ◌≤◌, ◌<◌, ◌≡◌, refl, sym, ap, ◌∙◌, ◌⊎◌, inl, inr, arith}
use test_vsfs.Memory.{Memory, byte_of, memcpy, load16, store16, load32, store32}

pub memcpy-inside :
    (m : Memory) (dst : ℕ) (src : ℕ → ℕ) (len a : ℕ)
    → dst ≤ a
    → a < dst + len
    → memcpy m dst src len a ≡ src (a - dst)
unfolding memcpy
memcpy-inside m dst src len a p q = ground arith

pub memcpy-outside :
    (m : Memory) (dst : ℕ) (src : ℕ → ℕ) (len a : ℕ)
    → (a < dst) ⊎ (dst + len ≤ a)
    → memcpy m dst src len a ≡ m a
unfolding memcpy
memcpy-outside m dst src len a p = ground arith

pub load32-store32_self : (m : Memory) (a v : ℕ) → v < 2 ^ 32 → load32 (store32 m a v) a ≡ v
unfolding load32 store32
load32-store32_self m a v h = ground arith

pub store16-outside : (m : Memory) (a v x : ℕ) → (x < a) ⊎ (a + 2 ≤ x) → store16 m a v x ≡ m x
unfolding store16
store16-outside m a v x out = memcpy-outside m a (byte_of v) 2 x out

pub load16-store16_self : (m : Memory) (a v : ℕ) → v < 2 ^ 16 → load16 (store16 m a v) a ≡ v
unfolding load16 store16
load16-store16_self m a v h = ground arith

pub load32-memcpy_outside :
    (m : Memory) (dst : ℕ) (src : ℕ → ℕ) (len a : ℕ)
    → (a + 4 ≤ dst) ⊎ (dst + len ≤ a)
    → load32 (memcpy m dst src len) a ≡ load32 m a
unfolding load32 memcpy
load32-memcpy_outside m dst src len a p = ground arith

-- A copy into a block, seen in the block and in the region.
pub memcpy_shift :
    (d : ℕ) (m m' : Memory) (off : ℕ) (src : ℕ → ℕ) (len i : ℕ)
    → m i ≡ m' (d + i)
    → memcpy m off src len i ≡ memcpy m' (d + off) src len (d + i)
memcpy_shift d m m' off src len i e = elim (side i) [
  | inl out ↦
      memcpy-outside m off src len i out
      ∙ e
      ∙ sym (memcpy-outside m' (d + off) src len (d + i) (omega arith))
  | inr (lo, hi) ↦
      let f : i - off ≡ d + i - (d + off) = omega arith in
      memcpy-inside m off src len i lo hi
      ∙ ap src f
      ∙ sym (memcpy-inside m' (d + off) src len (d + i) (omega arith) (omega arith))
]
  where
    side : (k : ℕ) → ((k < off) ⊎ (off + len ≤ k)) ⊎ ((off ≤ k) × (k < off + len))
    side k = omega arith

pub memcpy_ap :
    (m m' : Memory) (dst : ℕ) (src : ℕ → ℕ) (len a : ℕ)
    → m a ≡ m' a
    → memcpy m dst src len a ≡ memcpy m' dst src len a
unfolding memcpy
memcpy_ap m m' dst src len a e = rw e refl
