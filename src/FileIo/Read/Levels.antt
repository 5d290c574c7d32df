-- ===== src/FileIo/Read/Levels.antt =====
-- The three levels of `__read_dblock` are one loop over the block map of the file.
use test_vsfs.Prelude.{
  ℕ, zero, suc, ◌+◌, ◌-◌, ◌*◌, ◌<◌, ◌≡◌, refl, arith, inl, inr, sym, ◌∙◌, zero-or-pos, ap,
}
use test_vsfs.Memory.{Memory, load32}
use test_vsfs.Layout.{Inode, pointer_addr}
use test_vsfs.Blocks.{file_block}
use test_vsfs.Blocks.Map.{file_block-l1, file_block-l2_at, file_block-l3_at}
use test_vsfs.FileIo.{Copy}
use test_vsfs.FileIo.Flat.{IsChunk, flat, flat_stop, flat_add}
use test_vsfs.FileIo.Read.{read_chunk, read_l1, read_pointers, read_l2, read_l3}

pub read_chunk-IsChunk : (disk : Memory) → IsChunk (read_chunk disk)
unfolding read_chunk
read_chunk-IsChunk disk = record {
  pos = λ b s. refl;
  offset = λ b s. refl;
  left = λ b s. refl;
  copied = λ b s. refl;
}

module _ (disk : Memory) (inode : Inode) where
  abbrev chunk : ℕ → Copy → Copy
  chunk = read_chunk disk

  abbrev map : ℕ → ℕ
  map = file_block inode disk

  pub read_l1-flat :
      (rounds i : ℕ) (s : Copy)
      → i + rounds ≡ 49
      → read_l1 disk inode rounds i s ≡ flat chunk map rounds i s
  unfolding read_l1 flat
  read_l1-flat zero i s e = refl
  read_l1-flat (suc rounds) i s e =
      rw (file_block-l1 inode disk i (omega arith))
        (rw (read_l1-flat rounds (i + 1) (chunk (inode.l1 i) s) (omega arith)) refl)

  -- `blk` is the pointer block for the blocks from `base` on.
  module _ (blk base : ℕ)
      (leads : (j : ℕ) → j < 1024 → map (base + j) ≡ load32 disk (pointer_addr blk j)) where
    read_pointers-flat :
        (rounds j : ℕ) (s : Copy)
        → j + rounds ≡ 1024
        → read_pointers disk blk rounds j s ≡ flat chunk map rounds (base + j) s
    unfolding read_pointers flat
    read_pointers-flat zero j s e = refl
    read_pointers-flat (suc rounds) j s e =
        let next : base + j + 1 ≡ base + (j + 1) = omega arith in
        let b = load32 disk (pointer_addr blk j) in
        rw (leads j (omega arith), next)
          (rw (read_pointers-flat rounds (j + 1) (chunk b s) (omega arith)) refl)

  -- Both parts of a round of an outer loop, in one count of rounds.
  flat-split :
      (rounds start k k' : ℕ) (s : Copy)
      → start < 1024
      → k + (1024 - start) ≡ k'
      → flat chunk map (suc rounds * 1024 - start) k s
        ≡ flat chunk map (rounds * 1024 - 0) k' (flat chunk map (1024 - start) k s)
  flat-split rounds start k k' s h e =
      let f : suc rounds * 1024 - start ≡ 1024 - start + (rounds * 1024 - 0) = omega arith in
      rw (f, ← e) (flat_add chunk map (1024 - start) (rounds * 1024 - 0) k s)

  read_l2_stop :
      (rounds i start : ℕ) (s : Copy) → s.left ≡ 0 → read_l2 disk inode rounds i start s ≡ s
  unfolding read_l2
  read_l2_stop zero i start s h = refl
  read_l2_stop (suc rounds) i start s h = ground arith

  read_l2_step :
      (rounds i start : ℕ) (s : Copy)
      → 0 < s.left
      → read_l2 disk inode (suc rounds) i start s
        ≡ read_l2 disk inode rounds
            (i + 1)
            0
            (read_pointers disk (inode.l2 i) (1024 - start) start s)
  unfolding read_l2
  read_l2_step rounds i start s h = ground arith

  pub read_l2-flat :
      (rounds i start : ℕ) (s : Copy)
      → i + rounds ≡ 5
      → start < 1024
      → read_l2 disk inode rounds i start s
        ≡ flat chunk map (rounds * 1024 - start) (49 + i * 1024 + start) s
  read_l2-flat zero i start s e hs =
      let z : 0 * 1024 - start ≡ 0 = omega arith in rw z (unfold read_l2 flat in refl)
  read_l2-flat (suc rounds) i start s e hs = elim (zero-or-pos s.left) [
    | inl none ↦ read_l2_stop (suc rounds) i start s none ∙ sym (flat_stop chunk map _ _ s none)
    | inr more ↦
        let k = 49 + i * 1024 + start in
        let k' = 49 + (i + 1) * 1024 + 0 in
        let ek : k + (1024 - start) ≡ k' = omega arith in
        let inner =
          read_pointers-flat (inode.l2 i) (49 + i * 1024)
            (λ j hj. file_block-l2_at inode disk i j (omega arith) hj) (1024 - start) start s
            (omega arith) in
        read_l2_step rounds i start s more
        ∙ ap (read_l2 disk inode rounds (i + 1) 0) inner
        ∙ read_l2-flat rounds (i + 1) 0 (flat chunk map (1024 - start) k s) (omega arith)
            (omega arith)
        ∙ sym (flat-split rounds start k k' s hs ek)
  ]

  read_l3_stop :
      (rounds i start : ℕ) (s : Copy) → s.left ≡ 0 → read_l3 disk inode rounds i start s ≡ s
  unfolding read_l3
  read_l3_stop zero i start s h = refl
  read_l3_stop (suc rounds) i start s h = ground arith

  read_l3_step :
      (rounds i start : ℕ) (s : Copy)
      → 0 < s.left
      → read_l3 disk inode (suc rounds) i start s
        ≡ read_l3 disk inode rounds
            (i + 1)
            0
            (read_pointers disk (load32 disk (pointer_addr (inode.l3 0) i)) (1024 - start) start s)
  unfolding read_l3
  read_l3_step rounds i start s h = ground arith

  pub read_l3-flat :
      (rounds i start : ℕ) (s : Copy)
      → i + rounds ≡ 1024
      → start < 1024
      → read_l3 disk inode rounds i start s
        ≡ flat chunk map (rounds * 1024 - start) (5169 + i * 1024 + start) s
  read_l3-flat zero i start s e hs =
      let z : 0 * 1024 - start ≡ 0 = omega arith in rw z (unfold read_l3 flat in refl)
  read_l3-flat (suc rounds) i start s e hs = elim (zero-or-pos s.left) [
    | inl none ↦ read_l3_stop (suc rounds) i start s none ∙ sym (flat_stop chunk map _ _ s none)
    | inr more ↦
        let k = 5169 + i * 1024 + start in
        let k' = 5169 + (i + 1) * 1024 + 0 in
        let ek : k + (1024 - start) ≡ k' = omega arith in
        let inner =
          read_pointers-flat (load32 disk (pointer_addr (inode.l3 0) i)) (5169 + i * 1024)
            (λ j hj. file_block-l3_at inode disk i j hj) (1024 - start) start s (omega arith) in
        read_l3_step rounds i start s more
        ∙ ap (read_l3 disk inode rounds (i + 1) 0) inner
        ∙ read_l3-flat rounds (i + 1) 0 (flat chunk map (1024 - start) k s) (omega arith)
            (omega arith)
        ∙ sym (flat-split rounds start k k' s hs ek)
  ]
