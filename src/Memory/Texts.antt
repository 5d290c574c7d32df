-- ===== src/Memory/Texts.antt =====
-- Texts that are stored and compared: `strcpy` and `strcmp`.
use test_vsfs.Prelude.{
  ℕ, ◌+◌, ◌≤◌, ◌<◌, ◌≡◌, refl, sym, ap, ◌∙◌, ◌⊎◌, inl, arith, true, List, [], ◌∷◌, length, ◌&&◌,
  eq→==, ==→eq, ◌≢◌, Bool, false,
}
use Prim.{Unit}
use test_vsfs.Memory.{Memory, memcpy, load16, strcpy, str_eq}
use test_vsfs.Memory.Laws.{memcpy-inside, memcpy-outside}

pub strcpy-outside :
    (s : List ℕ) (m : Memory) (p a : ℕ) → (a < p) ⊎ (p + length s < a) → strcpy m p s a ≡ m a
unfolding strcpy
strcpy-outside [] m p a out = memcpy-outside m p (λ _. 0) 1 a (ground arith)
strcpy-outside (c ∷ s) m p a out =
    strcpy-outside s (memcpy m p (λ _. c) 1) (p + 1) a (ground arith)
    ∙ memcpy-outside m p (λ _. c) 1 a (ground arith)

pub load16-strcpy_outside :
    (s : List ℕ) (m : Memory) (p a : ℕ) → a + 2 ≤ p → load16 (strcpy m p s) a ≡ load16 m a
unfolding load16
load16-strcpy_outside s m p a h =
    rw
      (strcpy-outside s m p a (inl (omega arith)), strcpy-outside s m p (a + 1) (inl (omega arith)))
      refl

pub str_eq-strcpy : (s : List ℕ) (m : Memory) (p : ℕ) → str_eq (strcpy m p s) p s ≡ true
unfolding strcpy str_eq
str_eq-strcpy [] m p = rw (memcpy-inside m p (λ _. 0) 1 p (omega arith) (omega arith)) refl
str_eq-strcpy (c ∷ s) m p =
    let here : strcpy (memcpy m p (λ _. c) 1) (p + 1) s p ≡ c =
      strcpy-outside s (memcpy m p (λ _. c) 1) (p + 1) p (inl (omega arith))
      ∙ memcpy-inside m p (λ _. c) 1 p (omega arith) (omega arith) in
    rw (here, eq→== c c refl, str_eq-strcpy s (memcpy m p (λ _. c) 1) (p + 1)) refl

-- A comparison reads no more than the bytes of the text and the one behind them.
pub str_eq_ap :
    (s : List ℕ) (m m' : Memory) (p : ℕ)
    → ((i : ℕ) → i ≤ length s → m (p + i) ≡ m' (p + i))
    → str_eq m p s ≡ str_eq m' p s
unfolding str_eq
str_eq_ap [] m m' p same =
    let e : p + 0 ≡ p = omega arith in rw (sym (ap m e) ∙ same 0 (omega arith) ∙ ap m' e) refl
str_eq_ap (c ∷ s) m m' p same =
    let e : p + 0 ≡ p = omega arith in
    let next : (i : ℕ) → i ≤ length s → m (p + 1 + i) ≡ m' (p + 1 + i) = λ i h.
      let f : p + 1 + i ≡ p + (i + 1) = omega arith in
      ap m f ∙ same (i + 1) (omega arith) ∙ sym (ap m' f) in
    rw (sym (ap m e) ∙ same 0 (omega arith) ∙ ap m' e, str_eq_ap s m m' (p + 1) next) refl

-- A text of C has no zero in it.
unfoldable pub IsText : List ℕ → Type 0
IsText [] = Unit
IsText (c ∷ s) = (c ≢ 0) × IsText s

pub str_eq_unique :
    (a b : List ℕ) (m : Memory) (p : ℕ)
    → IsText a
    → IsText b
    → str_eq m p a ≡ true
    → str_eq m p b ≡ true
    → a ≡ b
unfolding str_eq IsText
str_eq_unique [] [] m p ta tb ea eb = refl
str_eq_unique [] (d ∷ b) m p ta tb ea eb = absurd (ground (arith, tb.0, ea, eb))
str_eq_unique (c ∷ a) [] m p ta tb ea eb = absurd (ground (arith, ta.0, ea, eb))
str_eq_unique (c ∷ a) (d ∷ b) m p ta tb ea eb =
    let (e, rest) = both _ _ ea in
    let (e', rest') = both _ _ eb in
    let same : c ≡ d = sym (==→eq (m p) c e) ∙ ==→eq (m p) d e' in
    rw (same, str_eq_unique a b m (p + 1) ta.1 tb.1 rest rest') refl
  where
    both : (x y : Bool) → (x && y) ≡ true → (x ≡ true) × (y ≡ true)
    both true true e = (refl, refl)
    both true false e = cc
    both false y e = cc
