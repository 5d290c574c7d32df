-- ===== src/Directory/Added.antt =====
-- The data region with one more entry of the directory, and the search in it.
use test_vsfs.Prelude.{
  ℕ, zero, suc, ◌+◌, ◌-◌, ◌*◌, ◌/◌, ◌%◌, ◌^◌, ◌≤◌, ◌<◌, ◌≡◌, refl, sym, arith, true, false, some,
  List, length, inl, inr, ◌⊎◌, ◌≢◌, ap, ◌∙◌, Bool-cases,
}
use test_vsfs.Word.{u32, sub32}
use test_vsfs.Memory.{Memory, load16, store16, str_eq, strcpy}
use test_vsfs.Memory.Laws.{store16-outside, load16-store16_self}
use test_vsfs.Memory.Texts.{
  strcpy-outside, load16-strcpy_outside, str_eq-strcpy, str_eq_ap, IsText, str_eq_unique,
}
use test_vsfs.Layout.{Inode}
use test_vsfs.Directory.{entry_addr, name_addr, find_entry}
use test_vsfs.Directory.Search.{has_name, find_entry-cases}

-- Where none of the entries has the name.
has_name-false :
    (m : Memory) (name : List ℕ) (rounds i : ℕ)
    → has_name m name rounds i ≡ false
    → (k : ℕ) → i ≤ k
    → k < i + rounds
    → str_eq m (name_addr (k / 16) (k % 16)) name ≡ false
unfolding has_name
has_name-false m name zero i e k lo hi = absurd (omega arith)
has_name-false m name (suc rounds) i e k lo hi =
    elim (Bool-cases (str_eq m (name_addr (i / 16) (i % 16)) name)) [
      | inl t ↦ absurd (ground (arith, e))
      | inr f ↦ elim (first_or_later k lo) [
        | inl same ↦ rw same f
        | inr later ↦ has_name-false m name rounds (i + 1) (rw f at e) k later (omega arith)
      ]
    ]
  where
    first_or_later : (n : ℕ) → i ≤ n → (n ≡ i) ⊎ (i + 1 ≤ n)
    first_or_later n h = omega arith

-- The data region with entry `size` written.
module _ (m : Memory) (name : List ℕ) (size f_inode : ℕ) (short : length name < 254) where
  abbrev pub with_entry : Memory
  with_entry =
      strcpy (store16 m (entry_addr (size / 16) (size - size / 16 * 16)) f_inode)
        (name_addr (size / 16) (size - size / 16 * 16)) name

  with_entry-before : (a : ℕ) → a < size * 256 → with_entry a ≡ m a
  with_entry-before a h =
      strcpy-outside name _ _ a (inl (omega arith))
      ∙ store16-outside m _ f_inode a (inl (omega arith))

  with_entry-old :
      (j : ℕ) (other : List ℕ)
      → j < size
      → length other < 254
      → str_eq with_entry (name_addr (j / 16) (j % 16)) other
        ≡ str_eq m (name_addr (j / 16) (j % 16)) other
  with_entry-old j other h l =
      str_eq_ap other with_entry m (name_addr (j / 16) (j % 16))
        (λ i k. with_entry-before (name_addr (j / 16) (j % 16) + i) (omega arith))

  with_entry-number :
      (j : ℕ)
      → j < size
      → load16 with_entry (entry_addr (j / 16) (j % 16)) ≡ load16 m (entry_addr (j / 16) (j % 16))
  unfolding load16
  with_entry-number j h =
      rw
        (
          with_entry-before (entry_addr (j / 16) (j % 16)) (omega arith),
          with_entry-before (entry_addr (j / 16) (j % 16) + 1) (omega arith),
        )
        refl

  with_entry-name : str_eq with_entry (name_addr (size / 16) (size % 16)) name ≡ true
  with_entry-name =
      let e : size % 16 ≡ size - size / 16 * 16 = omega arith in rw e (str_eq-strcpy name _ _)

  with_entry-inode :
      f_inode < 2 ^ 16 → load16 with_entry (entry_addr (size / 16) (size % 16)) ≡ f_inode
  with_entry-inode word =
      let e : size % 16 ≡ size - size / 16 * 16 = omega arith in
      rw e (load16-strcpy_outside name _ _ _ (omega arith) ∙ load16-store16_self m _ f_inode word)

  module _ (word : f_inode < 2 ^ 16) (small : size + 1 < 2 ^ 32)
      (new : has_name m name size 0 ≡ false) (root : Inode)
      (straight : (k : ℕ) → k * 16 < size + 1 → root.l1 k ≡ k) where
    -- The new entry is the first with the name.
    pub find_entry-new : find_entry root with_entry name (size + 1) 0 ≡ some f_inode
    find_entry-new =
        elim (find_entry-cases with_entry name root (size + 1) 0 (omega arith)
          (λ k h. straight k (omega arith))) [
            | inl (e, f) ↦ absurd (
                bool_apart (
                  sym with_entry-name
                  ∙ has_name-false with_entry name (size + 1) 0 f size (omega arith) (omega arith)))
            | inr (j, lo, hi, t, f, e) ↦ elim (old_or_new j hi) [
              | inl old ↦ absurd (
                  bool_apart (
                    sym t
                    ∙ with_entry-old j name old short
                    ∙ has_name-false m name size 0 new j lo (omega arith)))
              | inr last ↦ rw last at e ∙ ap (λ (i : ℕ). some i) (with_entry-inode word)
            ]
          ]
      where
        bool_apart : true ≡ false → ⊥
        bool_apart e = cc

        old_or_new : (j : ℕ) → j < 0 + (size + 1) → (j < size) ⊎ (j ≡ size)
        old_or_new j h = omega arith

  -- The search for another name gives what it gave.
  module _ (text : IsText name) (small : size + 1 < 2 ^ 32) (root root' : Inode)
      (straight : (k : ℕ) → k * 16 < size + 1 → root.l1 k ≡ k) (same : root'.l1 ≡ root.l1)
      (other : List ℕ) (is : IsText other) (fits : length other < 254) (apart : other ≢ name) where
    with_entry-other : str_eq with_entry (name_addr (size / 16) (size % 16)) other ≡ false
    with_entry-other =
        elim (Bool-cases (str_eq with_entry (name_addr (size / 16) (size % 16)) other)) [
          | inl t ↦ absurd (apart (str_eq_unique other name with_entry _ is text t with_entry-name))
          | inr f ↦ f
        ]

    pub find_entry-from :
        (rounds i : ℕ)
        → i + rounds ≡ size
        → find_entry root' with_entry other (rounds + 1) i ≡ find_entry root m other rounds i
    unfolding find_entry
    find_entry-from zero i e =
        let at_end : i ≡ size = omega arith in
        let block : root'.l1 (size / 16) ≡ size / 16 =
          ap (λ (l : ℕ → ℕ). l (size / 16)) same ∙ straight (size / 16) (omega arith) in
        let place : sub32 size (u32 (16 * (size / 16))) ≡ size % 16 = omega arith in
        rw at_end (rw (block, place, with_entry-other) refl)
    find_entry-from (suc rounds) i e =
        let block' : root'.l1 (i / 16) ≡ i / 16 =
          ap (λ (l : ℕ → ℕ). l (i / 16)) same ∙ straight (i / 16) (omega arith) in
        let block : root.l1 (i / 16) ≡ i / 16 = straight (i / 16) (omega arith) in
        let place : sub32 i (u32 (16 * (i / 16))) ≡ i % 16 = omega arith in
        let more : suc rounds + 1 ≡ suc (rounds + 1) = omega arith in
        let number : load16 with_entry (entry_addr (i / 16) (i % 16))
            ≡ load16 m (entry_addr (i / 16) (i % 16)) =
          with_entry-number i (omega arith) in
        rw
          (
            more,
            block',
            block,
            place,
            with_entry-old i other (omega arith) fits,
            number,
            find_entry-from rounds (i + 1) (omega arith),
          )
          refl
