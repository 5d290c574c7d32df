-- ===== src/FileIo/Read/Whole.antt =====
-- `__read_dblock` as one loop: the way into the levels, and from each to the next.
use test_vsfs.Prelude.{
  ℕ, ◌+◌, ◌-◌, ◌*◌, ◌/◌, ◌%◌, ◌^◌, ◌≤◌, ◌<◌, ◌≡◌, refl, arith, leb, ◌==◌, if◌then◌else◌, Bool-cases,
  inl, inr, ◌⊎◌, sym, ◌∙◌, zero-or-pos, ap, le→leb, lt→leb, eq→==, true, false, leb→le,
}
use test_vsfs.Word.{u16, u32}
use test_vsfs.Memory.{Memory}
use test_vsfs.Layout.{Inode}
use test_vsfs.Blocks.{file_block}
use test_vsfs.FileIo.{Copy, start, IsNarrow}
use test_vsfs.FileIo.Flat.{IsAt, flat, flat_stop, flat_add, IsAt-flat}
use test_vsfs.FileIo.Read.{read_chunk, read_l2, read_level1, read_level2, read_level3, read_blocks}
use test_vsfs.FileIo.Read.Levels.{read_chunk-IsChunk, read_l1-flat, read_l2-flat, read_l3-flat}

module _ (disk : Memory) (inode : Inode) (n : ℕ) (small_file : n ≤ 1053745) where
  abbrev loop : (rounds k : ℕ) → Copy → Copy
  loop = flat (read_chunk disk) (file_block inode disk)

  same_offset : (k : ℕ) (s : Copy) → IsAt n k s → record s { offset = s.pos % 4096 } ≡ s
  same_offset k s at =
      let e : s.pos % 4096 ≡ s.offset = omega (arith, at.place, at.inside) in
      ap (λ (o : ℕ). record s { offset = o }) e

  read_level3-flat :
      (k : ℕ) (s : Copy) → 5169 ≤ k → IsAt n k s → read_level3 disk inode s ≡ loop (1053745 - k) k s
  unfolding read_level3
  read_level3-flat k s h at =
      let i = (k - 5169) / 1024 in
      let start = (k - 5169) % 1024 in
      let ek : 5169 + i * 1024 + start ≡ k = omega arith in
      let er : (1024 - i) * 1024 - start ≡ 1053745 - k = omega arith in
      let small : k ≤ 1053745 = omega (arith, small_file, at.fits) in
      let e1 : u32 (s.pos / 4096 + 2 ^ 64 - 5169) ≡ k - 5169 = omega (arith, at.place, at.inside) in
      let e2 : u16 ((k - 5169) / 1024) ≡ i = omega arith in
      let e3 : u16 ((k - 5169) % 1024) ≡ start = omega arith in
      rw (e1, e2, e3, same_offset k s at)
        (read_l3-flat disk inode (1024 - i) i start s (omega arith) (omega arith)
          ∙ rw (ek, er) refl)

  -- From one level to the next: `next` goes on at block `mid` if anything is left.
  join :
      (next : Copy → Copy) (r k mid : ℕ) (s : Copy)
      → k + r ≡ mid
      → mid ≤ 1053745
      → ((t : Copy) → 0 < t.left → IsAt n mid t → next t ≡ loop (1053745 - mid) mid t)
      → (s.left ≡ 0) ⊎ IsAt n k s
      → (if (loop r k s).left == 0 then loop r k s else next (loop r k s)) ≡ loop (1053745 - k) k s
  join next r k mid s e small goes_on ready =
      let er : 1053745 - k ≡ r + (1053745 - mid) = omega arith in
      rw (er, flat_add (read_chunk disk) (file_block inode disk) r (1053745 - mid) k s, e)
        (go (loop r k s) (
          rw e at (
            IsAt-flat (read_chunk disk) (read_chunk-IsChunk disk) (file_block inode disk) n r k s
              ready)))
    where
      go :
          (d : Copy)
          → (d.left ≡ 0) ⊎ IsAt n mid d
          → (if d.left == 0 then d else next d) ≡ loop (1053745 - mid) mid d
      go d (inl none) =
          rw (eq→== d.left 0 none)
            (sym (flat_stop (read_chunk disk) (file_block inode disk) (1053745 - mid) mid d none))
      go d (inr at) = elim (zero-or-pos d.left) [
        | inl none ↦
            rw (eq→== d.left 0 none)
              (sym (flat_stop (read_chunk disk) (file_block inode disk) (1053745 - mid) mid d none))
        | inr more ↦ let e : (d.left == 0) ≡ false = ground arith in rw e (goes_on d more at)
      ]

  read_level2-low :
      (k : ℕ) (s : Copy)
      → 49 ≤ k
      → k < 5169
      → IsAt n k s
      → read_level2 disk inode s ≡ loop (1053745 - k) k s
  unfolding read_level2
  read_level2-low k s h l at =
      let i = (k - 49) / 1024 in
      let start = (k - 49) % 1024 in
      let ek : 49 + i * 1024 + start ≡ k = omega arith in
      let er : (5 - i) * 1024 - start ≡ 5169 - k = omega arith in
      let e1 : u32 (s.pos / 4096 + 2 ^ 64 - 49) ≡ k - 49 = omega (arith, at.place, at.inside) in
      let e2 : u16 ((k - 49) / 1024) ≡ i = omega arith in
      let e3 : u16 ((k - 49) % 1024) ≡ start = omega arith in
      let inner = read_l2-flat disk inode (5 - i) i start s (omega arith) (omega arith) in
      rw (e1, e2, e3, same_offset k s at, inner, ek, er)
        (join (read_level3 disk inode) (5169 - k) k 5169 s (omega arith) (omega arith)
          (λ t _ at'. read_level3-flat 5169 t (omega arith) at') (inr at))

  -- A block past level 2 falls through to level 3.
  read_level2-high :
      (k : ℕ) (s : Copy) → 5169 ≤ k → IsAt n k s → read_level2 disk inode s ≡ loop (1053745 - k) k s
  unfolding read_level2 read_l2
  read_level2-high k s h at =
      let small : k ≤ 1053745 = omega (arith, small_file, at.fits) in
      let e1 : u32 (s.pos / 4096 + 2 ^ 64 - 49) ≡ k - 49 = omega (arith, at.place, at.inside) in
      let e2 : 5 - u16 ((k - 49) / 1024) ≡ 0 = omega arith in
      rw (e1, e2, same_offset k s at)
        (elim (zero-or-pos s.left) [
          | inl none ↦
              rw (eq→== s.left 0 none)
                (sym (flat_stop (read_chunk disk) (file_block inode disk) (1053745 - k) k s none))
          | inr more ↦
              let e : (s.left == 0) ≡ false = ground arith in rw e (read_level3-flat k s h at)
        ])

  read_level2-flat :
      (k : ℕ) (s : Copy) → 49 ≤ k → IsAt n k s → read_level2 disk inode s ≡ loop (1053745 - k) k s
  read_level2-flat k s h at = elim (below_or k) [
    | inl l ↦ read_level2-low k s h l at
    | inr g ↦ read_level2-high k s g at
  ]
    where
      below_or : (j : ℕ) → (j < 5169) ⊎ (5169 ≤ j)
      below_or j = omega arith

  read_level1-flat :
      (k : ℕ) (s : Copy) → k < 49 → IsAt n k s → read_level1 disk inode s ≡ loop (1053745 - k) k s
  unfolding read_level1
  read_level1-flat k s l at =
      let e1 : u16 (s.pos / 4096) ≡ k = omega (arith, at.place, at.inside) in
      rw (e1, read_l1-flat disk inode (49 - k) k s (omega arith))
        (join (read_level2 disk inode) (49 - k) k 49 s (omega arith) (omega arith)
          (λ t _ at'. read_level2-flat 49 t (omega arith) at') (inr at))

  module _ (mem : Memory) (offset nbyte : ℕ) (fits : offset + nbyte ≤ n * 4096) where
    pub IsAt-start : IsAt n (offset / 4096) (start mem offset nbyte)
    IsAt-start = record {
      inside = omega arith;
      place = omega arith;
      fits = omega arith;
      bound = omega (arith, small_file);
    }

    -- Where the block number does not wrap into level 1, `__read_dblock` goes through the blocks
    -- of the map in their order, from the offset's block on.
    pub read_blocks-flat :
        IsNarrow offset
        → read_blocks disk inode mem offset nbyte
          ≡ loop (1053745 - offset / 4096) (offset / 4096) (start mem offset nbyte)
    unfolding read_blocks
    read_blocks-flat (inl l) =
        let small : offset / 4096 < 49 = l in
        let e1 : leb 5169 (u16 (offset / 4096)) ≡ false = lt→leb _ _ (omega arith) in
        let e2 : leb 49 (u16 (offset / 4096)) ≡ false = lt→leb _ _ (omega arith) in
        rw (e1, e2) (read_level1-flat (offset / 4096) _ l IsAt-start)
    read_blocks-flat (inr h) = elim (Bool-cases (leb 5169 (u16 (offset / 4096)))) [
      | inl high ↦
          let up = leb→le 5169 (u16 (offset / 4096)) high in
          let far : 5169 ≤ offset / 4096 = omega arith in
          rw high (read_level3-flat (offset / 4096) _ far IsAt-start)
      | inr mid ↦
          let e2 : leb 49 (u16 (offset / 4096)) ≡ true = le→leb _ _ h in
          let far : 49 ≤ offset / 4096 = omega arith in
          rw (mid, e2) (read_level2-flat (offset / 4096) _ far IsAt-start)
    ]
