-- ===== src/Mount/View/Words.antt =====
-- Words of a shared object that was copied byte by byte.
use test_vsfs.Prelude.{ℕ, ◌+◌, ◌*◌, ◌≤◌, ◌<◌, ◌≡◌, refl, arith, ◌∙◌, ap, sym}
use test_vsfs.Memory.{Memory, memset, memcpy, load32, store32}
use test_vsfs.Bitmap.Handed.{first_word}
use test_vsfs.Mount.Init.{root_bytes}
use test_vsfs.Mount.Init.Chain.{first_taken}

-- Four bytes are a word.
pub load32-bytes :
    (m : Memory) (f : ℕ → ℕ) (a start : ℕ)
    → ((i : ℕ) → i < 4 → m (a + i) ≡ f (start + i))
    → load32 m a ≡ load32 f start
unfolding load32
load32-bytes m f a start given =
    let first = given 0 (omega arith) in
    let e : a + 0 ≡ a = omega arith in
    let e' : start + 0 ≡ start = omega arith in
    rw
      (
        sym (ap m e) ∙ first ∙ ap f e',
        given 1 (omega arith),
        given 2 (omega arith),
        given 3 (omega arith),
      )
      refl

pub load32-first_taken : (c : ℕ) → load32 first_taken (c * 4) ≡ first_word c
unfolding load32
load32-first_taken c = ground arith

pub load32-root_bytes :
    (load32 root_bytes 8 ≡ 2) × (load32 root_bytes 4 ≡ 1) × (load32 root_bytes 12 ≡ 0)
unfolding load32 root_bytes store32 memset memcpy
load32-root_bytes = (refl, refl, refl)

pub root_bytes-past : (a : ℕ) → 16 ≤ a → a < 4096 → root_bytes a ≡ 0
unfolding root_bytes store32 memset memcpy
root_bytes-past a h l = ground arith
