-- ===== src/Blocks/Map.antt =====
-- The block map of a file as a function, and when writes to the file's data leave it alone.
use test_vsfs.Prelude.{
  ℕ, ◌+◌, ◌-◌, ◌*◌, ◌/◌, ◌%◌, ◌≤◌, ◌<◌, ◌≡◌, ◌≢◌, arith, inl, inr, ◌⊎◌, lt→ltb, le→ltb, ◌∙◌, sym,
  ap,
}
use test_vsfs.Memory.{Memory, memcpy, load32}
use test_vsfs.Memory.Laws.{load32-memcpy_outside}
use test_vsfs.Layout.{Inode, pointer_addr}
use test_vsfs.Blocks.{file_block}

-- The pointer block of the `j`th block of a file in level 2 and in level 3.
abbrev pub parent2 : Inode → ℕ → ℕ
parent2 inode j = inode.l2 ((j - 49) / 1024)

abbrev pub parent3 : Inode → Memory → ℕ → ℕ
parent3 inode m j = load32 m (pointer_addr (inode.l3 0) ((j - 5169) / 1024))

-- The first `n` blocks of the file are `map`, and none of them holds pointers of the file.
pub record IsMapped (inode : Inode) (map : ℕ → ℕ) (n : ℕ) (m : Memory) : Type 0 where
  pub agrees : (j : ℕ) → j < n → file_block inode m j ≡ map j
  pub apart2 : (j k : ℕ) → 49 ≤ j → j < 5169 → j < n → k < n → parent2 inode j ≢ map k
  pub apart3 : (j k : ℕ) → 5169 ≤ j → j < n → k < n → parent3 inode m j ≢ map k
  pub apart_root : (j k : ℕ) → 5169 ≤ j → j < n → k < n → inode.l3 0 ≢ map k
  pub within : n ≤ 5169 + 1024 * 1024

module _ (inode : Inode) (m : Memory) where
  pub file_block-l1 : (k : ℕ) → k < 49 → file_block inode m k ≡ inode.l1 k
  unfolding file_block
  file_block-l1 k h = rw (lt→ltb k 49 h)

  pub file_block-l2 :
      (k : ℕ)
      → 49 ≤ k
      → k < 5169
      → file_block inode m k ≡ load32 m (pointer_addr (parent2 inode k) ((k - 49) % 1024))
  unfolding file_block
  file_block-l2 k h l = rw (le→ltb k 49 h, lt→ltb k 5169 l)

  pub file_block-l3 :
      (k : ℕ)
      → 5169 ≤ k
      → file_block inode m k ≡ load32 m (pointer_addr (parent3 inode m k) ((k - 5169) % 1024))
  unfolding file_block
  file_block-l3 k h = let h' : 49 ≤ k = omega arith in rw (le→ltb k 49 h', le→ltb k 5169 h)

  -- The same by the places in the pointer blocks.
  pub file_block-l2_at :
      (i j : ℕ)
      → i < 5
      → j < 1024
      → file_block inode m (49 + i * 1024 + j) ≡ load32 m (pointer_addr (inode.l2 i) j)
  file_block-l2_at i j hi hj =
      let k = 49 + i * 1024 + j in
      let e : (k - 49) / 1024 ≡ i = omega arith in
      let f : (k - 49) % 1024 ≡ j = omega arith in
      file_block-l2 k (omega arith) (omega arith)
      ∙ ap (λ (b : ℕ). load32 m (pointer_addr (inode.l2 b) ((k - 49) % 1024))) e
      ∙ ap (λ (c : ℕ). load32 m (pointer_addr (inode.l2 i) c)) f

  pub file_block-l3_at :
      (i j : ℕ)
      → j < 1024
      → file_block inode m (5169 + i * 1024 + j)
        ≡ load32 m (pointer_addr (load32 m (pointer_addr (inode.l3 0) i)) j)
  file_block-l3_at i j hj =
      let k = 5169 + i * 1024 + j in
      let e : (k - 5169) / 1024 ≡ i = omega arith in
      let f : (k - 5169) % 1024 ≡ j = omega arith in
      file_block-l3 k (omega arith)
      ∙ ap
          (λ (b : ℕ).
            load32 m (pointer_addr (load32 m (pointer_addr (inode.l3 0) b)) ((k - 5169) % 1024)))
          e
      ∙ ap (λ (c : ℕ). load32 m (pointer_addr (load32 m (pointer_addr (inode.l3 0) i)) c)) f

-- A chunk in block `c` leaves the pointers of another block.
pub load32-chunk :
    (m : Memory) (b i c off : ℕ) (src : ℕ → ℕ) (len : ℕ)
    → i < 1024
    → off + len ≤ 4096
    → b ≢ c
    → load32 (memcpy m (c * 4096 + off) src len) (pointer_addr b i) ≡ load32 m (pointer_addr b i)
load32-chunk m b i c off src len hi fits ne =
    load32-memcpy_outside m (c * 4096 + off) src len (pointer_addr b i) (omega arith)

module _ (inode : Inode) (map : ℕ → ℕ) (n : ℕ) (m : Memory) (mapped : IsMapped inode map n m)
    (k off : ℕ) (src : ℕ → ℕ) (len : ℕ) (below : k < n) (fits : off + len ≤ 4096) where
  abbrev pub after : Memory
  after = memcpy m (map k * 4096 + off) src len

  pub parent3-chunk : (j : ℕ) → 5169 ≤ j → j < n → parent3 inode after j ≡ parent3 inode m j
  parent3-chunk j h l =
      load32-chunk m (inode.l3 0) ((j - 5169) / 1024) (map k) off src len
        (omega (arith, mapped.within)) fits (mapped.apart_root j k h l below)

  agrees-chunk : (j : ℕ) → j < n → file_block inode after j ≡ file_block inode m j
  agrees-chunk j l = elim (level j) [
    | inl (inl h) ↦ rw (file_block-l1 inode after j h, file_block-l1 inode m j h)
    | inl (inr (h, h')) ↦
        rw (file_block-l2 inode after j h h', file_block-l2 inode m j h h')
          (load32-chunk m (parent2 inode j) ((j - 49) % 1024) (map k) off src len (omega arith) fits
            (mapped.apart2 j k h h' l below))
    | inr h ↦
        rw (file_block-l3 inode after j h, file_block-l3 inode m j h)
          (rw (parent3-chunk j h l) (
            load32-chunk m (parent3 inode m j) ((j - 5169) % 1024) (map k) off src len (omega arith)
              fits (mapped.apart3 j k h l below)))
  ]
    where
      level : (i : ℕ) → ((i < 49) ⊎ ((49 ≤ i) × (i < 5169))) ⊎ (5169 ≤ i)
      level i = omega arith

  -- Writing file data leaves the block map of the file.
  pub IsMapped-chunk : IsMapped inode map n after
  IsMapped-chunk = record {
    agrees = λ j l. agrees-chunk j l ∙ mapped.agrees j l;
    apart2 = mapped.apart2;
    apart3 = λ j i h l l' e. mapped.apart3 j i h l l' (sym (parent3-chunk j h l) ∙ e);
    apart_root = mapped.apart_root;
    within = mapped.within;
  }
