-- ===== src/Directory/Search.antt =====
-- The two searches for a name: the one of `vsfs_open` and `vsfs_stat`, and the one of `vsfs_creat`.
use test_vsfs.Prelude.{
  ℕ, zero, suc, ◌+◌, ◌-◌, ◌*◌, ◌/◌, ◌%◌, ◌^◌, ◌≤◌, ◌<◌, ◌≡◌, refl, arith, Bool, true, false, Option,
  none, some, List, ◌||◌, ◌==◌, inl, inr, ◌⊎◌, Bool-cases, ◌∙◌,
}
use test_vsfs.Word.{u32, sub32}
use test_vsfs.Memory.{Memory, load16, str_eq}
use test_vsfs.Layout.{Inode}
use test_vsfs.Directory.{entry_addr, name_addr, name_in_block, name_taken, find_entry}

-- Whether one of `rounds` entries from entry `i` on has the name, 16 entries to a block.
unfoldable pub has_name : Memory → List ℕ → (rounds i : ℕ) → Bool
has_name m name zero i = false
has_name m name (suc rounds) i =
    str_eq m (name_addr (i / 16) (i % 16)) name || has_name m name rounds (i + 1)

module _ (m : Memory) (name : List ℕ) where
  has_name-add :
      (a b i : ℕ) → has_name m name (a + b) i ≡ has_name m name a i || has_name m name b (i + a)
  unfolding has_name
  has_name-add zero b i =
      let e : 0 + b ≡ b = omega arith in let f : i + 0 ≡ i = omega arith in rw (e, f) refl
  has_name-add (suc a) b i =
      let e : suc a + b ≡ suc (a + b) = omega arith in
      let f : i + suc a ≡ i + 1 + a = omega arith in
      rw (e, f)
        (elim (Bool-cases (str_eq m (name_addr (i / 16) (i % 16)) name)) [
          | inl t ↦ rw t refl
          | inr n ↦ rw n (has_name-add a b (i + 1))
        ])

  name_in_block-has_name :
      (i rounds j : ℕ)
      → j + rounds ≤ 16
      → name_in_block m name i rounds j ≡ has_name m name rounds (i * 16 + j)
  unfolding name_in_block has_name
  name_in_block-has_name i zero j h = refl
  name_in_block-has_name i (suc rounds) j h =
      let e : (i * 16 + j) / 16 ≡ i = omega arith in
      let f : (i * 16 + j) % 16 ≡ j = omega arith in
      let g : i * 16 + j + 1 ≡ i * 16 + (j + 1) = omega arith in
      rw (e, f, g, name_in_block-has_name i rounds (j + 1) (omega arith)) refl

  name_taken-has_name_at :
      (entry rounds i : ℕ)
      → i + rounds ≡ entry / 16 + 1
      → name_taken m name entry rounds i ≡ has_name m name (entry - i * 16) (i * 16)
  unfolding name_taken
  name_taken-has_name_at entry zero i h =
      let e : entry - i * 16 ≡ 0 = omega arith in rw e (unfold has_name in refl)
  name_taken-has_name_at entry (suc zero) i h =
      let e : (i == entry / 16) ≡ true = ground arith in
      let f : i * 16 + 0 ≡ i * 16 = omega arith in
      rw (e, name_in_block-has_name i (entry - i * 16) 0 (omega arith), f) (or-false _)
    where
      or-false : (b : Bool) → (b || false) ≡ b
      or-false true = refl
      or-false false = refl
  name_taken-has_name_at entry (suc (suc rounds)) i h =
      let e : (i == entry / 16) ≡ false = ground arith in
      let f : i * 16 + 0 ≡ i * 16 = omega arith in
      let g : entry - i * 16 ≡ 16 + (entry - (i + 1) * 16) = omega arith in
      let k : i * 16 + 16 ≡ (i + 1) * 16 = omega arith in
      rw
        (
          e,
          name_in_block-has_name i 16 0 (omega arith),
          f,
          g,
          has_name-add 16 (entry - (i + 1) * 16) (i * 16),
          k,
        )
        (rw (name_taken-has_name_at entry (suc rounds) (i + 1) (omega arith)) refl)

  -- The search of `vsfs_creat` goes through all of the first `entry` entries, and no other.
  pub name_taken-has_name :
      (entry : ℕ) → name_taken m name entry (entry / 16 + 1) 0 ≡ has_name m name entry 0
  name_taken-has_name entry =
      let e : entry - 0 * 16 ≡ entry = omega arith in
      let f : 0 * 16 ≡ 0 = omega arith in
      rw (e, f) at (name_taken-has_name_at entry (entry / 16 + 1) 0 (omega arith))

  -- The entry of the name, found from entry `i` on, or none of them has it.
  pub find_entry-cases :
      (root : Inode) (rounds i : ℕ)
      → i + rounds ≤ 2 ^ 32
      → ((k : ℕ) → k * 16 < i + rounds → root.l1 k ≡ k)
      → ((find_entry root m name rounds i ≡ none) × (has_name m name rounds i ≡ false))
        ⊎ ((j : ℕ) × (i ≤ j)
            × (j < i + rounds)
            × (str_eq m (name_addr (j / 16) (j % 16)) name ≡ true)
            × (has_name m name rounds i ≡ true)
            × (find_entry root m name rounds i ≡ some (load16 m (entry_addr (j / 16) (j % 16)))))
  unfolding find_entry has_name
  find_entry-cases root zero i small straight = inl (refl, refl)
  find_entry-cases root (suc rounds) i small straight =
      let b : root.l1 (i / 16) ≡ i / 16 = straight (i / 16) (omega arith) in
      let place : sub32 i (u32 (16 * (i / 16))) ≡ i % 16 = omega arith in
      elim (Bool-cases (str_eq m (name_addr (i / 16) (i % 16)) name)) [
        | inl t ↦ inr (i, omega arith, omega arith, t, rw t refl, rw (b, place, t) refl)
        | inr n ↦
            elim (find_entry-cases root rounds (i + 1) (omega arith)
              (λ k h. straight k (omega arith))) [
                | inl (e, f) ↦ inl (rw (b, place, n, e) refl, rw (n, f) refl)
                | inr (j, lo, hi, t, f, e) ↦
                    inr (j, omega arith, omega arith, t, rw (n, f) refl, rw (b, place, n, e) refl)
              ]
      ]

-- What a search of the root directory by `vsfs_open` or `vsfs_stat` gives.
pub data IsLookup (m : Memory) (name : List ℕ) (size : ℕ) : Option ℕ → Type 0 where
  missing : name_taken m name size (size / 16 + 1) 0 ≡ false → IsLookup m name size none
  present :
      (j : ℕ)
      → j < size
      → str_eq m (name_addr (j / 16) (j % 16)) name ≡ true
      → name_taken m name size (size / 16 + 1) 0 ≡ true
      → IsLookup m name size (some (load16 m (entry_addr (j / 16) (j % 16))))

-- For a root directory whose block `k` is block `k` of the data region, the search of `vsfs_open`
-- and `vsfs_stat` gives the inode number of an entry with the name, if one of the entries has it,
-- and none otherwise; the search of `vsfs_creat` finds the name taken in the first case alone.
pub find_entry-IsLookup :
    (m : Memory) (name : List ℕ) (root : Inode)
    → root.size < 2 ^ 32
    → ((k : ℕ) → k * 16 < root.size → root.l1 k ≡ k)
    → IsLookup m name root.size (find_entry root m name root.size 0)
find_entry-IsLookup m name root small straight =
    elim (find_entry-cases m name root root.size 0 (omega arith)
      (λ k h. straight k (omega arith))) [
        | inl (e, f) ↦ rw e (missing (name_taken-has_name m name root.size ∙ f))
        | inr (j, lo, hi, t, f, e) ↦
            rw e (present j (omega arith) t (name_taken-has_name m name root.size ∙ f))
      ]
