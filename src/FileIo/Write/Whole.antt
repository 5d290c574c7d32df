-- ===== src/FileIo/Write/Whole.antt =====
-- `__write_dblock` as one loop: the way into the levels, and from each to the next.
use test_vsfs.Prelude.{
  ℕ, ◌+◌, ◌-◌, ◌*◌, ◌/◌, ◌%◌, ◌^◌, ◌≤◌, ◌<◌, ◌≡◌, refl, arith, leb, ◌==◌, if◌then◌else◌, Bool-cases,
  inl, inr, ◌⊎◌, sym, ◌∙◌, zero-or-pos, ap, le→leb, lt→leb, eq→==, true, false, leb→le,
}
use test_vsfs.Word.{u16, u32}
use test_vsfs.Memory.{Memory}
use test_vsfs.Layout.{Inode}
use test_vsfs.Blocks.Map.{IsMapped}
use test_vsfs.FileIo.{Copy, start, IsNarrow}
use test_vsfs.FileIo.Flat.{IsAt, flat, flat_stop, flat_add}
use test_vsfs.FileIo.Write.{
  write_chunk, write_l2, write_level1, write_level2, write_level3, write_dblock,
}
use test_vsfs.FileIo.Write.Levels.{Ready, Ready-flat, write_l1-flat, write_l2-flat, write_l3-flat}

module _ (buf : ℕ → ℕ) (inode : Inode) (map : ℕ → ℕ) (n : ℕ) where
  abbrev loop : (rounds k : ℕ) → Copy → Copy
  loop = flat (write_chunk buf) map

  same_offset : (k : ℕ) (s : Copy) → IsAt n k s → record s { offset = s.pos % 4096 } ≡ s
  same_offset k s at =
      let e : s.pos % 4096 ≡ s.offset = omega (arith, at.place, at.inside) in
      ap (λ (o : ℕ). record s { offset = o }) e

  write_level3-flat :
      (k : ℕ) (s : Copy)
      → 5169 ≤ k
      → IsAt n k s
      → IsMapped inode map n s.mem
      → write_level3 buf inode s ≡ loop (1053745 - k) k s
  unfolding write_level3
  write_level3-flat k s h at mapped =
      let i = (k - 5169) / 1024 in
      let start = (k - 5169) % 1024 in
      let ek : 5169 + i * 1024 + start ≡ k = omega arith in
      let er : (1024 - i) * 1024 - start ≡ 1053745 - k = omega arith in
      let small : k ≤ 1053745 = omega (arith, mapped.within, at.fits) in
      let e1 : u32 (s.pos / 4096 + 2 ^ 64 - 5169) ≡ k - 5169 = omega (arith, at.place, at.inside) in
      let e2 : u16 ((k - 5169) / 1024) ≡ i = omega arith in
      let e3 : u16 ((k - 5169) % 1024) ≡ start = omega arith in
      rw (e1, e2, e3, same_offset k s at)
        (write_l3-flat buf inode map n (1024 - i) i start s (omega arith) (omega arith)
            (rw ek (inr (at, mapped)))
          ∙ rw (ek, er) refl)

  -- From one level to the next: `next` goes on at block `mid` if anything is left.
  join :
      (next : Copy → Copy) (r k mid : ℕ) (s : Copy)
      → k + r ≡ mid
      → mid ≤ 1053745
      → ((t : Copy)
          → 0 < t.left
          → IsAt n mid t
          → IsMapped inode map n t.mem
          → next t ≡ loop (1053745 - mid) mid t)
      → Ready inode map n k s
      → (if (loop r k s).left == 0 then loop r k s else next (loop r k s)) ≡ loop (1053745 - k) k s
  join next r k mid s e small goes_on ready =
      let er : 1053745 - k ≡ r + (1053745 - mid) = omega arith in
      rw (er, flat_add (write_chunk buf) map r (1053745 - mid) k s, e)
        (go (loop r k s) (rw e at (Ready-flat buf inode map n r k s ready)))
    where
      go :
          (d : Copy)
          → Ready inode map n mid d
          → (if d.left == 0 then d else next d) ≡ loop (1053745 - mid) mid d
      go d (inl none) =
          rw (eq→== d.left 0 none)
            (sym (flat_stop (write_chunk buf) map (1053745 - mid) mid d none))
      go d (inr (at, mapped)) = elim (zero-or-pos d.left) [
        | inl none ↦
            rw (eq→== d.left 0 none)
              (sym (flat_stop (write_chunk buf) map (1053745 - mid) mid d none))
        | inr more ↦ let e : (d.left == 0) ≡ false = ground arith in rw e (goes_on d more at mapped)
      ]

  write_level2-low :
      (k : ℕ) (s : Copy)
      → 49 ≤ k
      → k < 5169
      → IsAt n k s
      → IsMapped inode map n s.mem
      → write_level2 buf inode s ≡ loop (1053745 - k) k s
  unfolding write_level2
  write_level2-low k s h l at mapped =
      let i = (k - 49) / 1024 in
      let start = (k - 49) % 1024 in
      let ek : 49 + i * 1024 + start ≡ k = omega arith in
      let er : (5 - i) * 1024 - start ≡ 5169 - k = omega arith in
      let e1 : u32 (s.pos / 4096 + 2 ^ 64 - 49) ≡ k - 49 = omega (arith, at.place, at.inside) in
      let e2 : u16 ((k - 49) / 1024) ≡ i = omega arith in
      let e3 : u16 ((k - 49) % 1024) ≡ start = omega arith in
      let inner =
        write_l2-flat buf inode map n (5 - i) i start s (omega arith) (omega arith)
          (rw ek (inr (at, mapped))) in
      rw (e1, e2, e3, same_offset k s at, inner, ek, er)
        (join (write_level3 buf inode) (5169 - k) k 5169 s (omega arith) (omega arith)
          (λ t _ at' mapped'. write_level3-flat 5169 t (omega arith) at' mapped')
          (inr (at, mapped)))

  -- A block past level 2 falls through to level 3.
  write_level2-high :
      (k : ℕ) (s : Copy)
      → 5169 ≤ k
      → IsAt n k s
      → IsMapped inode map n s.mem
      → write_level2 buf inode s ≡ loop (1053745 - k) k s
  unfolding write_level2 write_l2
  write_level2-high k s h at mapped =
      let small : k ≤ 1053745 = omega (arith, mapped.within, at.fits) in
      let e1 : u32 (s.pos / 4096 + 2 ^ 64 - 49) ≡ k - 49 = omega (arith, at.place, at.inside) in
      let e2 : 5 - u16 ((k - 49) / 1024) ≡ 0 = omega arith in
      rw (e1, e2, same_offset k s at)
        (elim (zero-or-pos s.left) [
          | inl none ↦
              rw (eq→== s.left 0 none)
                (sym (flat_stop (write_chunk buf) map (1053745 - k) k s none))
          | inr more ↦
              let e : (s.left == 0) ≡ false = ground arith in
              rw e (write_level3-flat k s h at mapped)
        ])

  write_level2-flat :
      (k : ℕ) (s : Copy)
      → 49 ≤ k
      → IsAt n k s
      → IsMapped inode map n s.mem
      → write_level2 buf inode s ≡ loop (1053745 - k) k s
  write_level2-flat k s h at mapped = elim (below_or k) [
    | inl l ↦ write_level2-low k s h l at mapped
    | inr g ↦ write_level2-high k s g at mapped
  ]
    where
      below_or : (j : ℕ) → (j < 5169) ⊎ (5169 ≤ j)
      below_or j = omega arith

  write_level1-flat :
      (k : ℕ) (s : Copy)
      → k < 49
      → IsAt n k s
      → IsMapped inode map n s.mem
      → write_level1 buf inode s ≡ loop (1053745 - k) k s
  unfolding write_level1
  write_level1-flat k s l at mapped =
      let e1 : u16 (s.pos / 4096) ≡ k = omega (arith, at.place, at.inside) in
      rw (e1, write_l1-flat buf inode map n (49 - k) k s (omega arith) (inr (at, mapped)))
        (join (write_level2 buf inode) (49 - k) k 49 s (omega arith) (omega arith)
          (λ t _ at' mapped'. write_level2-flat 49 t (omega arith) at' mapped') (inr (at, mapped)))

  module _ (mem : Memory) (offset nbyte : ℕ) (mapped : IsMapped inode map n mem)
      (fits : offset + nbyte ≤ n * 4096) where
    pub IsAt-start : IsAt n (offset / 4096) (start mem offset nbyte)
    IsAt-start = record {
      inside = omega arith;
      place = omega arith;
      fits = omega arith;
      bound = omega (arith, mapped.within);
    }

    -- Where the block number does not wrap into level 1, `__write_dblock` goes through the blocks
    -- of the map in their order, from the offset's block on.
    pub write_dblock-flat :
        IsNarrow offset
        → write_dblock buf inode mem offset nbyte
          ≡ loop (1053745 - offset / 4096) (offset / 4096) (start mem offset nbyte)
    unfolding write_dblock
    write_dblock-flat (inl l) =
        let small : offset / 4096 < 49 = l in
        let e1 : leb 5169 (u16 (offset / 4096)) ≡ false = lt→leb _ _ (omega arith) in
        let e2 : leb 49 (u16 (offset / 4096)) ≡ false = lt→leb _ _ (omega arith) in
        rw (e1, e2) (write_level1-flat (offset / 4096) _ l IsAt-start mapped)
    write_dblock-flat (inr h) = elim (Bool-cases (leb 5169 (u16 (offset / 4096)))) [
      | inl high ↦
          let up = leb→le 5169 (u16 (offset / 4096)) high in
          let far : 5169 ≤ offset / 4096 = omega arith in
          rw high (write_level3-flat (offset / 4096) _ far IsAt-start mapped)
      | inr mid ↦
          let e2 : leb 49 (u16 (offset / 4096)) ≡ true = le→leb _ _ h in
          let far : 49 ≤ offset / 4096 = omega arith in
          rw (mid, e2) (write_level2-flat (offset / 4096) _ far IsAt-start mapped)
    ]
