-- ===== src/FileIo/Flat.antt =====
-- One loop over the blocks of a file, whatever the level of their pointers: what the loops of
-- `__write_dblock` and `__read_dblock` come to.
use test_vsfs.Prelude.{
  ℕ, zero, suc, ◌+◌, ◌-◌, ◌*◌, ◌^◌, ◌≤◌, ◌<◌, ◌≡◌, refl, sym, ◌∙◌, arith, ltb, if◌then◌else◌,
  Bool-cases, inl, inr, ltb→lt, ltb→le, ◌⊎◌, zero-or-pos,
}
use test_vsfs.Word.{u64}
use test_vsfs.FileIo.{Copy, chunk_length}

-- What every chunk does to the variables of the loop.
pub record IsChunk (chunk : ℕ → Copy → Copy) : Type 0 where
  pub pos : (b : ℕ) (s : Copy) → (chunk b s).pos ≡ u64 (s.pos + chunk_length s)
  pub offset : (b : ℕ) (s : Copy) → (chunk b s).offset ≡ 0
  pub left : (b : ℕ) (s : Copy) → (chunk b s).left ≡ s.left - chunk_length s
  pub copied : (b : ℕ) (s : Copy) → (chunk b s).copied ≡ s.copied + chunk_length s

-- The loop is at block `k`, and what is left ends in a block below `n`.
pub record IsAt (n k : ℕ) (s : Copy) : Type 0 where
  pub inside : s.offset < 4096
  pub place : s.pos ≡ k * 4096 + s.offset
  pub fits : k * 4096 + s.offset + s.left ≤ n * 4096
  pub bound : n ≤ 2 ^ 21

module _ (chunk : ℕ → Copy → Copy) (map : ℕ → ℕ) where
  -- `for (i = k; left > 0; i++)`, for a number of rounds
  unfoldable pub flat : (rounds k : ℕ) → Copy → Copy
  flat zero k s = s
  flat (suc rounds) k s =
      let rest = flat rounds (k + 1) (chunk (map k) s) in if ltb 0 s.left then rest else s

  pub flat_stop : (rounds k : ℕ) (s : Copy) → s.left ≡ 0 → flat rounds k s ≡ s
  unfolding flat
  flat_stop zero k s e = refl
  flat_stop (suc rounds) k s e = ground arith

  pub flat_step :
      (rounds k : ℕ) (s : Copy)
      → 0 < s.left
      → flat (suc rounds) k s ≡ flat rounds (k + 1) (chunk (map k) s)
  unfolding flat
  flat_step rounds k s h = ground arith

  pub flat_add : (r1 r2 k : ℕ) (s : Copy) → flat (r1 + r2) k s ≡ flat r2 (k + r1) (flat r1 k s)
  flat_add zero r2 k s =
      let e : 0 + r2 ≡ r2 = omega arith in
      let f : k + 0 ≡ k = omega arith in rw (e, f) (unfold flat in refl)
  flat_add (suc r1) r2 k s = elim (Bool-cases (ltb 0 s.left)) [
    | inl more ↦
        let e : suc r1 + r2 ≡ suc (r1 + r2) = omega arith in
        let f : k + suc r1 ≡ k + 1 + r1 = omega arith in
        let pos = ltb→lt 0 s.left more in
        rw (e, f)
          (rw (flat_step (r1 + r2) k s pos, flat_step r1 k s pos)
            (flat_add r1 r2 (k + 1) (chunk (map k) s)))
    | inr none ↦
        let z : s.left ≡ 0 = omega (arith, ltb→le 0 s.left none) in
        rw (flat_stop (suc r1 + r2) k s z, flat_stop (suc r1) k s z, flat_stop r2 (k + suc r1) s z)
  ]

module _ (chunk : ℕ → Copy → Copy) (is : IsChunk chunk) where
  -- After a chunk the loop is at the next block, unless nothing is left.
  pub IsAt-chunk :
      (n k b : ℕ) (s : Copy) → IsAt n k s → 0 < (chunk b s).left → IsAt n (k + 1) (chunk b s)
  IsAt-chunk n k b s at more = record {
    inside = omega (arith, is.offset b s);
    place = ground (arith, is.offset b s, is.pos b s, is.left b s);
    fits = ground (arith, is.offset b s, is.left b s);
    bound = at.bound;
  }

  -- With enough rounds the loop copies everything.
  pub flat-left :
      (map : ℕ → ℕ) (n rounds k : ℕ) (s : Copy)
      → IsAt n k s
      → n ≤ k + rounds
      → (flat chunk map rounds k s).left ≡ 0
  flat-left map n zero k s at h =
      let z : s.left ≡ 0 = omega (arith, at.fits) in rw (flat_stop chunk map 0 k s z) z
  flat-left map n (suc rounds) k s at h = elim (Bool-cases (ltb 0 s.left)) [
    | inl more ↦
        rw (flat_step chunk map rounds k s (ltb→lt 0 s.left more))
          (elim (Bool-cases (ltb 0 (chunk (map k) s).left)) [
            | inl more' ↦
                flat-left map n rounds (k + 1) (chunk (map k) s)
                  (IsAt-chunk n k (map k) s at (ltb→lt 0 _ more')) (omega arith)
            | inr none' ↦
                let z : (chunk (map k) s).left ≡ 0 = omega (arith, ltb→le 0 _ none') in
                rw (flat_stop chunk map rounds (k + 1) (chunk (map k) s) z) z
          ])
    | inr none ↦
        let z : s.left ≡ 0 = omega (arith, ltb→le 0 s.left none) in
        rw (flat_stop chunk map (suc rounds) k s z) z
  ]

  -- Rounds past enough of them change nothing.
  pub flat_enough :
      (map : ℕ → ℕ) (n r1 r2 k : ℕ) (s : Copy)
      → IsAt n k s
      → n ≤ k + r1
      → n ≤ k + r2
      → flat chunk map r1 k s ≡ flat chunk map r2 k s
  flat_enough map n r1 r2 k s at h1 h2 = elim (side r1 r2) [
    | inl le ↦ sym (longer r1 r2 h1 le)
    | inr le ↦ longer r2 r1 h2 le
  ]
    where
      side : (a b : ℕ) → (a ≤ b) ⊎ (b ≤ a)
      side a b = omega arith

      longer : (a b : ℕ) → n ≤ k + a → a ≤ b → flat chunk map b k s ≡ flat chunk map a k s
      longer a b h le =
          let e : a + (b - a) ≡ b = omega arith in
          rw e at (flat_add chunk map a (b - a) k s)
          ∙ flat_stop chunk map (b - a) (k + a) (flat chunk map a k s) (flat-left map n a k s at h)

  -- After some rounds nothing is left, or the loop is as many blocks further.
  pub IsAt-flat :
      (map : ℕ → ℕ) (n rounds k : ℕ) (s : Copy)
      → (s.left ≡ 0) ⊎ IsAt n k s
      → ((flat chunk map rounds k s).left ≡ 0) ⊎ IsAt n (k + rounds) (flat chunk map rounds k s)
  IsAt-flat map n zero k s at = let e : k + 0 ≡ k = omega arith in rw e (unfold flat in at)
  IsAt-flat map n (suc rounds) k s (inl none) =
      inl (rw (flat_stop chunk map (suc rounds) k s none) none)
  IsAt-flat map n (suc rounds) k s (inr at) = elim (zero-or-pos s.left) [
    | inl none ↦ inl (rw (flat_stop chunk map (suc rounds) k s none) none)
    | inr more ↦
        let e : k + suc rounds ≡ k + 1 + rounds = omega arith in
        rw (e, flat_step chunk map rounds k s more)
          (IsAt-flat map n rounds (k + 1) (chunk (map k) s)
            (elim (zero-or-pos (chunk (map k) s).left) [
              | inl none' ↦ inl none'
              | inr more' ↦ inr (IsAt-chunk n k (map k) s at more')
            ]))
  ]
