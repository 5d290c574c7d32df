-- ===== src/FileIo/Write/Levels.antt =====
-- The three levels of `__write_dblock` are one loop over the block map of the file.
use test_vsfs.Prelude.{
  ℕ, zero, suc, ◌+◌, ◌-◌, ◌*◌, ◌≤◌, ◌<◌, ◌≡◌, refl, arith, inl, inr, ◌⊎◌, sym, ◌∙◌, zero-or-pos, ap,
}
use test_vsfs.Memory.{Memory, load32}
use test_vsfs.Layout.{Inode, pointer_addr}
use test_vsfs.Blocks.Map.{
  IsMapped, IsMapped-chunk, file_block-l1, file_block-l2_at, file_block-l3_at, load32-chunk,
}
use test_vsfs.FileIo.{Copy, chunk_length}
use test_vsfs.FileIo.Flat.{IsChunk, IsAt, IsAt-chunk, flat, flat_stop, flat_step, flat_add}
use test_vsfs.FileIo.Write.{write_chunk, write_l1, write_pointers, write_l2, write_l3}

pub write_chunk-IsChunk : (buf : ℕ → ℕ) → IsChunk (write_chunk buf)
unfolding write_chunk
write_chunk-IsChunk buf = record {
  pos = λ b s. refl;
  offset = λ b s. refl;
  left = λ b s. refl;
  copied = λ b s. refl;
}

-- Nothing is left, or the loop stands at block `k` of a file whose map is known.
abbrev pub Ready : Inode → (map : ℕ → ℕ) → (n k : ℕ) → Copy → Type 0
Ready inode map n k s = (s.left ≡ 0) ⊎ (IsAt n k s × IsMapped inode map n s.mem)

module _ (buf : ℕ → ℕ) (inode : Inode) (map : ℕ → ℕ) (n : ℕ) where
  abbrev chunk : ℕ → Copy → Copy
  chunk = write_chunk buf

  pub IsMapped-write_chunk :
      (k : ℕ) (s : Copy)
      → 0 < s.left
      → IsAt n k s
      → IsMapped inode map n s.mem
      → IsMapped inode map n (chunk (map k) s).mem
  unfolding write_chunk
  IsMapped-write_chunk k s more at mapped =
      IsMapped-chunk inode map n s.mem mapped k s.offset (λ i. buf (s.copied + i)) (chunk_length s)
        (omega (arith, at.fits)) (ground (arith, at.inside))

  -- After a chunk the loop is ready for the next block.
  Ready-chunk :
      (k : ℕ) (s : Copy)
      → 0 < s.left
      → IsAt n k s
      → IsMapped inode map n s.mem
      → Ready inode map n (k + 1) (chunk (map k) s)
  Ready-chunk k s more at mapped = elim (zero-or-pos (chunk (map k) s).left) [
    | inl none ↦ inl none
    | inr more' ↦ inr (
      IsAt-chunk chunk (write_chunk-IsChunk buf) n k (map k) s at more',
      IsMapped-write_chunk k s more at mapped,
    )
  ]

  pub write_l1_step :
      (rounds i : ℕ) (s : Copy)
      → 0 < s.left
      → write_l1 buf inode (suc rounds) i s
        ≡ write_l1 buf inode rounds (i + 1) (chunk (inode.l1 i) s)
  unfolding write_l1
  write_l1_step rounds i s h = ground arith

  pub write_l1_stop : (rounds i : ℕ) (s : Copy) → s.left ≡ 0 → write_l1 buf inode rounds i s ≡ s
  unfolding write_l1
  write_l1_stop zero i s h = refl
  write_l1_stop (suc rounds) i s h = ground arith

  pub write_l1-flat :
      (rounds i : ℕ) (s : Copy)
      → i + rounds ≡ 49
      → Ready inode map n i s
      → write_l1 buf inode rounds i s ≡ flat chunk map rounds i s
  write_l1-flat zero i s e ready = unfold write_l1 flat in refl
  write_l1-flat (suc rounds) i s e (inl none) =
      write_l1_stop (suc rounds) i s none ∙ sym (flat_stop chunk map (suc rounds) i s none)
  write_l1-flat (suc rounds) i s e (inr (at, mapped)) = elim (zero-or-pos s.left) [
    | inl none ↦
        write_l1_stop (suc rounds) i s none ∙ sym (flat_stop chunk map (suc rounds) i s none)
    | inr more ↦
        let b : inode.l1 i ≡ map i =
          sym (file_block-l1 inode s.mem i (omega arith))
          ∙ mapped.agrees i (omega (arith, at.fits)) in
        rw (write_l1_step rounds i s more, flat_step chunk map rounds i s more, b)
          (write_l1-flat rounds (i + 1) (chunk (map i) s) (omega arith)
            (Ready-chunk i s more at mapped))
  ]

  write_pointers_step :
      (blk rounds j : ℕ) (s : Copy)
      → 0 < s.left
      → write_pointers buf blk (suc rounds) j s
        ≡ write_pointers buf blk rounds (j + 1) (chunk (load32 s.mem (pointer_addr blk j)) s)
  unfolding write_pointers
  write_pointers_step blk rounds j s h = ground arith

  write_pointers_stop :
      (blk rounds j : ℕ) (s : Copy) → s.left ≡ 0 → write_pointers buf blk rounds j s ≡ s
  unfolding write_pointers
  write_pointers_stop blk zero j s h = refl
  write_pointers_stop blk (suc rounds) j s h = ground arith

  -- `blk` is the pointer block for the blocks from `base` on, as long as `Leads` holds.
  module _ (blk base : ℕ) (Leads : Memory → Type 0)
      (leads : (m : Memory) (j : ℕ)
        → Leads m
        → IsMapped inode map n m
        → j < 1024
        → base + j < n
        → load32 m (pointer_addr blk j) ≡ map (base + j))
      (keeps : (s : Copy) (k : ℕ)
        → Leads s.mem
        → IsMapped inode map n s.mem
        → IsAt n k s
        → 0 < s.left
        → base ≤ k
        → Leads (chunk (map k) s).mem) where
    write_pointers-flat :
        (rounds j : ℕ) (s : Copy)
        → j + rounds ≡ 1024
        → Leads s.mem
        → Ready inode map n (base + j) s
        → write_pointers buf blk rounds j s ≡ flat chunk map rounds (base + j) s
    write_pointers-flat zero j s e l ready = unfold write_pointers flat in refl
    write_pointers-flat (suc rounds) j s e l (inl none) =
        write_pointers_stop blk (suc rounds) j s none
        ∙ sym (flat_stop chunk map (suc rounds) (base + j) s none)
    write_pointers-flat (suc rounds) j s e l (inr (at, mapped)) = elim (zero-or-pos s.left) [
      | inl none ↦
          write_pointers_stop blk (suc rounds) j s none
          ∙ sym (flat_stop chunk map (suc rounds) (base + j) s none)
      | inr more ↦
          let b = leads s.mem j l mapped (omega arith) (omega (arith, at.fits)) in
          let next : base + j + 1 ≡ base + (j + 1) = omega arith in
          rw
            (
              write_pointers_step blk rounds j s more,
              flat_step chunk map rounds (base + j) s more,
              b,
              next,
            )
            (write_pointers-flat rounds (j + 1) (chunk (map (base + j)) s) (omega arith)
              (keeps s (base + j) l mapped at more (omega arith))
              (rw next at (Ready-chunk (base + j) s more at mapped)))
    ]

  pub Ready-flat :
      (rounds k : ℕ) (s : Copy)
      → Ready inode map n k s
      → Ready inode map n (k + rounds) (flat chunk map rounds k s)
  Ready-flat zero k s ready = let e : k + 0 ≡ k = omega arith in rw e (unfold flat in ready)
  Ready-flat (suc rounds) k s (inl none) = inl (rw (flat_stop chunk map (suc rounds) k s none) none)
  Ready-flat (suc rounds) k s (inr (at, mapped)) = elim (zero-or-pos s.left) [
    | inl none ↦ inl (rw (flat_stop chunk map (suc rounds) k s none) none)
    | inr more ↦
        let e : k + suc rounds ≡ k + 1 + rounds = omega arith in
        rw (e, flat_step chunk map rounds k s more)
          (Ready-flat rounds (k + 1) (chunk (map k) s) (Ready-chunk k s more at mapped))
  ]

  -- The pointer block `l2[i]`, from pointer `start` on.
  write_pointers-l2 :
      (i start : ℕ) (s : Copy)
      → i < 5
      → start < 1024
      → Ready inode map n (49 + i * 1024 + start) s
      → write_pointers buf (inode.l2 i) (1024 - start) start s
        ≡ flat chunk map (1024 - start) (49 + i * 1024 + start) s
  write_pointers-l2 i start s hi hs ready =
      write_pointers-flat (inode.l2 i) (49 + i * 1024) (λ m. Unit {0})
        (λ m j _ mapped hj l.
          sym (file_block-l2_at inode m i j hi hj) ∙ mapped.agrees (49 + i * 1024 + j) l)
        (λ t k _ mapped at more h. tt) (1024 - start) start s (omega arith) tt ready

  -- The pointer block of entry `i` of `l3[0]`.
  write_pointers-l3 :
      (i start : ℕ) (s : Copy)
      → i < 1024
      → start < 1024
      → Ready inode map n (5169 + i * 1024 + start) s
      → write_pointers buf (load32 s.mem (pointer_addr (inode.l3 0) i)) (1024 - start) start s
        ≡ flat chunk map (1024 - start) (5169 + i * 1024 + start) s
  write_pointers-l3 i start s hi hs ready =
      write_pointers-flat (load32 s.mem (pointer_addr (inode.l3 0) i)) (5169 + i * 1024)
        (λ m. load32 m (pointer_addr (inode.l3 0) i) ≡ load32 s.mem (pointer_addr (inode.l3 0) i))
        (λ m j same mapped hj l.
          sym (rw same at (file_block-l3_at inode m i j hj))
          ∙ mapped.agrees (5169 + i * 1024 + j) l)
        (λ t k same mapped at more h.
          unfold write_chunk in
          load32-chunk t.mem (inode.l3 0) i (map k) t.offset (λ x. buf (t.copied + x))
            (chunk_length t) hi (ground (arith, at.inside))
            (mapped.apart_root k k (omega arith) (omega (arith, at.fits)) (omega (arith, at.fits)))
          ∙ same)
        (1024 - start) start s (omega arith) refl ready

  write_l2_stop :
      (rounds i start : ℕ) (s : Copy) → s.left ≡ 0 → write_l2 buf inode rounds i start s ≡ s
  unfolding write_l2
  write_l2_stop zero i start s h = refl
  write_l2_stop (suc rounds) i start s h = ground arith

  write_l2_step :
      (rounds i start : ℕ) (s : Copy)
      → 0 < s.left
      → write_l2 buf inode (suc rounds) i start s
        ≡ write_l2 buf inode rounds
            (i + 1)
            0
            (write_pointers buf (inode.l2 i) (1024 - start) start s)
  unfolding write_l2
  write_l2_step rounds i start s h = ground arith

  -- Both parts of a round of an outer loop, in one count of rounds.
  flat-split :
      (rounds start k k' : ℕ) (s : Copy)
      → start < 1024
      → k + (1024 - start) ≡ k'
      → flat chunk map (suc rounds * 1024 - start) k s
        ≡ flat chunk map (rounds * 1024 - 0) k' (flat chunk map (1024 - start) k s)
  flat-split rounds start k k' s h e =
      let f : suc rounds * 1024 - start ≡ 1024 - start + (rounds * 1024 - 0) = omega arith in
      rw (f, ← e) (flat_add chunk map (1024 - start) (rounds * 1024 - 0) k s)

  pub write_l2-flat :
      (rounds i start : ℕ) (s : Copy)
      → i + rounds ≡ 5
      → start < 1024
      → Ready inode map n (49 + i * 1024 + start) s
      → write_l2 buf inode rounds i start s
        ≡ flat chunk map (rounds * 1024 - start) (49 + i * 1024 + start) s
  write_l2-flat zero i start s e hs ready =
      let z : 0 * 1024 - start ≡ 0 = omega arith in rw z (unfold write_l2 flat in refl)
  write_l2-flat (suc rounds) i start s e hs ready = elim (zero-or-pos s.left) [
    | inl none ↦ write_l2_stop (suc rounds) i start s none ∙ sym (flat_stop chunk map _ _ s none)
    | inr more ↦
        let k = 49 + i * 1024 + start in
        let k' = 49 + (i + 1) * 1024 + 0 in
        let ek : k + (1024 - start) ≡ k' = omega arith in
        write_l2_step rounds i start s more
        ∙ ap (write_l2 buf inode rounds (i + 1) 0)
            (write_pointers-l2 i start s (omega arith) hs ready)
        ∙ write_l2-flat rounds (i + 1) 0 (flat chunk map (1024 - start) k s) (omega arith)
            (omega arith) (rw ek at (Ready-flat (1024 - start) k s ready))
        ∙ sym (flat-split rounds start k k' s hs ek)
  ]

  write_l3_stop :
      (rounds i start : ℕ) (s : Copy) → s.left ≡ 0 → write_l3 buf inode rounds i start s ≡ s
  unfolding write_l3
  write_l3_stop zero i start s h = refl
  write_l3_stop (suc rounds) i start s h = ground arith

  write_l3_step :
      (rounds i start : ℕ) (s : Copy)
      → 0 < s.left
      → write_l3 buf inode (suc rounds) i start s
        ≡ write_l3 buf inode rounds
            (i + 1)
            0
            (write_pointers buf (load32 s.mem (pointer_addr (inode.l3 0) i)) (1024 - start) start s)
  unfolding write_l3
  write_l3_step rounds i start s h = ground arith

  pub write_l3-flat :
      (rounds i start : ℕ) (s : Copy)
      → i + rounds ≡ 1024
      → start < 1024
      → Ready inode map n (5169 + i * 1024 + start) s
      → write_l3 buf inode rounds i start s
        ≡ flat chunk map (rounds * 1024 - start) (5169 + i * 1024 + start) s
  write_l3-flat zero i start s e hs ready =
      let z : 0 * 1024 - start ≡ 0 = omega arith in rw z (unfold write_l3 flat in refl)
  write_l3-flat (suc rounds) i start s e hs ready = elim (zero-or-pos s.left) [
    | inl none ↦ write_l3_stop (suc rounds) i start s none ∙ sym (flat_stop chunk map _ _ s none)
    | inr more ↦
        let k = 5169 + i * 1024 + start in
        let k' = 5169 + (i + 1) * 1024 + 0 in
        let ek : k + (1024 - start) ≡ k' = omega arith in
        write_l3_step rounds i start s more
        ∙ ap (write_l3 buf inode rounds (i + 1) 0)
            (write_pointers-l3 i start s (omega arith) hs ready)
        ∙ write_l3-flat rounds (i + 1) 0 (flat chunk map (1024 - start) k s) (omega arith)
            (omega arith) (rw ek at (Ready-flat (1024 - start) k s ready))
        ∙ sym (flat-split rounds start k k' s hs ek)
  ]
