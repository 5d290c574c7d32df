-- ===== src/Memory.antt =====
-- Bytes of a mapping, addressed from the start of the data region, and what C does with them:
-- little-endian loads and stores, `memcpy`, `memset`, `strcmp`, `strcpy`.
pub mod Laws
pub mod Texts
use test_vsfs.Prelude.{
  ℕ, ◌+◌, ◌-◌, ◌*◌, ◌/◌, ◌%◌, ◌^◌, Bool, List, [], ◌∷◌, ◌&&◌, leb, ltb, ◌==◌, if◌then◌else◌,
}

-- One byte at each address. What lies outside the mapping is not told apart.
abbrev pub Memory : Type 0
Memory = ℕ → ℕ

-- `len` bytes of `src`, put at `dst`
unfoldable pub memcpy : Memory → (dst : ℕ) → (src : ℕ → ℕ) → (len : ℕ) → Memory
memcpy m dst src len = λ a. if leb dst a && ltb a (dst + len) then src (a - dst) else m a

unfoldable pub memset : Memory → (dst value len : ℕ) → Memory
unfolding memcpy
memset m dst value len = memcpy m dst (λ _. value) len

-- The byte of weight 256 ^ k of a number.
abbrev pub byte_of : ℕ → ℕ → ℕ
byte_of n k = n / 256 ^ k % 256

unfoldable pub load16 : Memory → ℕ → ℕ
load16 m a = m a + 256 * m (a + 1)

unfoldable pub store16 : Memory → ℕ → ℕ → Memory
unfolding memcpy
store16 m a v = memcpy m a (byte_of v) 2

unfoldable pub load32 : Memory → ℕ → ℕ
load32 m a = m a + 256 * m (a + 1) + 65536 * m (a + 2) + 16777216 * m (a + 3)

unfoldable pub store32 : Memory → ℕ → ℕ → Memory
unfolding memcpy
store32 m a v = memcpy m a (byte_of v) 4

-- `!strcmp(p, s)` for the text `s`, given without its final zero.
unfoldable pub str_eq : Memory → ℕ → List ℕ → Bool
str_eq m p [] = m p == 0
str_eq m p (c ∷ s) = m p == c && str_eq m (p + 1) s

-- `memcpy(p, s, strlen(s) + 1)`
unfoldable pub strcpy : Memory → ℕ → List ℕ → Memory
unfolding memcpy
strcpy m p [] = memcpy m p (λ _. 0) 1
strcpy m p (c ∷ s) = strcpy (memcpy m p (λ _. c) 1) (p + 1) s
