-- ===== src/Device/Info/Laws.antt =====
-- `vsfs_get_inode_info` and the block map that the pointer blocks of the file hold.
use test_vsfs.Prelude.{
  ℕ, zero, suc, ◌+◌, ◌*◌, ◌^◌, ◌≤◌, ◌<◌, ◌≡◌, refl, arith, ◌∙◌, sym, ap, ◌==◌, ltb, ==→eq, ==→ne,
  Bool-cases, inl, inr, ◌⊎◌, ltb→lt, ltb→le,
}
use test_vsfs.Memory.{Memory, load32}
use test_vsfs.Layout.{Inode, pointer_addr}
use test_vsfs.Blocks.{file_block}
use test_vsfs.Blocks.Map.{file_block-l1, file_block-l2_at, file_block-l3_at}
use test_vsfs.Spdk.{Nvme, IsReliable}
use test_vsfs.Device.{region, read_block}
use test_vsfs.Device.Region.{load32-read_block}
use test_vsfs.Device.Info.{
  Fill, push_block, fill_l1, fill_pointers, enter, fill_blocks, get_inode_info,
}

module _ (inode : Inode) (mem : Memory) where
  -- The array agrees with the block map so far.
  pub record IsFilled (s : Fill) : Type 0 where
    pub sum : s.index + s.blks ≡ inode.blocks
    pub agrees : (k : ℕ) → k < s.index → s.block k ≡ file_block inode mem k

  -- All blocks are in the array, or those below `to`.
  abbrev pub Reached : (to : ℕ) → Fill → Type 0
  Reached to s = IsFilled s × ((s.blks ≡ 0) ⊎ (s.index ≡ to))

  IsFilled-push_block :
      (b : ℕ) (s : Fill)
      → IsFilled s
      → 0 < s.blks
      → b ≡ file_block inode mem s.index
      → IsFilled (push_block b s)
  unfolding push_block
  IsFilled-push_block b s is more e = record {
    sum = omega (arith, is.sum);
    agrees = λ k h. elim (Bool-cases (k == s.index)) [
      | inl here ↦ rw here (e ∙ ap (file_block inode mem) (sym (==→eq k s.index here)))
      | inr there ↦ rw there (is.agrees k (omega (arith, ==→ne k s.index there)))
    ];
  }

  Reached-l1 :
      (rounds i : ℕ) (s : Fill)
      → IsFilled s
      → s.index ≡ i
      → i + rounds ≡ 49
      → Reached 49 (fill_l1 inode rounds i s)
  unfolding fill_l1
  Reached-l1 zero i s is e f = (is, inr (omega arith))
  Reached-l1 (suc rounds) i s is e f = elim (Bool-cases (ltb i inode.blocks)) [
    | inl more ↦
        let pos = ltb→lt i inode.blocks more in
        rw more (
          Reached-l1 rounds (i + 1) (push_block (inode.l1 i) s)
            (IsFilled-push_block (inode.l1 i) s is (omega (arith, is.sum))
              (sym (file_block-l1 inode mem i (omega arith)) ∙ ap (file_block inode mem) (sym e)))
            (unfold push_block in omega arith) (omega arith))
    | inr none ↦ let past = ltb→le i inode.blocks none in rw none (is, inl (omega (arith, is.sum)))
  ]

  module _ (base : ℕ) where
    -- `ptr_reg` has the blocks from `base` on.
    abbrev HasBlocks : Fill → Type 0
    HasBlocks s = (j : ℕ) → j < 1024 → load32 s.ptr_reg (j * 4) ≡ file_block inode mem (base + j)

    Reached-pointers :
        (rounds j : ℕ) (s : Fill)
        → IsFilled s
        → HasBlocks s
        → s.index ≡ base + j
        → j + rounds ≡ 1024
        → Reached (base + 1024) (fill_pointers rounds j s)
    unfolding fill_pointers
    Reached-pointers zero j s is has e f = (is, inr (omega arith))
    Reached-pointers (suc rounds) j s is has e f = elim (Bool-cases (ltb 0 s.blks)) [
      | inl more ↦ rw more (
          Reached-pointers rounds (j + 1) (push_block (load32 s.ptr_reg (j * 4)) s)
            (IsFilled-push_block _ s is (ltb→lt 0 s.blks more)
              (has j (omega arith) ∙ ap (file_block inode mem) (sym e)))
            (unfold push_block in has) (unfold push_block in omega arith) (omega arith))
      | inr none ↦ let past = ltb→le 0 s.blks none in rw none (is, inl (omega arith))
    ]

  module _ (nvme : Nvme) (ofs : ℕ) (ns : nvme.Ns) (parent : ℕ → ℕ) (lo top : ℕ)
      (reads : (i j : ℕ) (buf : Memory)
        → i < top
        → j < 1024
        → load32 (read_block nvme ofs ns buf (parent i)) (j * 4)
          ≡ file_block inode mem (lo + i * 1024 + j)) where
    IsFilled-enter : (blk : ℕ) (s : Fill) → IsFilled s → IsFilled (enter nvme ofs ns blk s)
    unfolding enter
    IsFilled-enter blk s is = record { sum = is.sum; agrees = is.agrees }

    Reached-blocks :
        (rounds i : ℕ) (s : Fill)
        → Reached (lo + i * 1024) s
        → i + rounds ≡ top
        → Reached (lo + top * 1024) (fill_blocks nvme ofs ns parent rounds i s)
    unfolding fill_blocks
    Reached-blocks zero i s (is, at) e =
        let f : lo + i * 1024 ≡ lo + top * 1024 = omega arith in
        let now : Reached (lo + i * 1024) s = (is, at) in rw f at now
    Reached-blocks (suc rounds) i s (is, at) e = elim (Bool-cases (ltb 0 s.blks)) [
      | inl more ↦
          let pos = ltb→lt 0 s.blks more in
          let here : s.index ≡ lo + i * 1024 = elim at [
            | inl none ↦ absurd (omega arith)
            | inr z ↦ z
          ] in
          let f : lo + i * 1024 + 1024 ≡ lo + (i + 1) * 1024 = omega arith in
          let next =
            Reached-pointers (lo + i * 1024) 1024 0 (enter nvme ofs ns (parent i) s)
              (IsFilled-enter (parent i) s is)
              (unfold enter in λ j h. reads i j s.ptr_reg (omega arith) h)
              (unfold enter in omega arith) refl in
          rw more (Reached-blocks rounds (i + 1) _ (rw f at next) (omega arith))
      | inr none ↦ let past = ltb→le 0 s.blks none in rw none (is, inl (omega arith))
    ]

-- The pointers of a file fit their 32 bits.
pub record IsWord (inode : Inode) (mem : Memory) : Type 0 where
  pub l2 : (i : ℕ) → i < 5 → inode.l2 i < 2 ^ 32
  pub l3 : inode.l3 0 < 2 ^ 32
  pub entry : (i : ℕ) → i < 1024 → load32 mem (pointer_addr (inode.l3 0) i) < 2 ^ 32

module _ (nvme : Nvme) (reliable : IsReliable nvme) (ofs : ℕ) (small : ofs < 2 ^ 32) (ns : nvme.Ns)
    (inode : Inode) (word : IsWord inode (region nvme ofs ns)) where
  abbrev mem : Memory
  mem = region nvme ofs ns

  reads2 :
      (i j : ℕ) (buf : Memory)
      → i < 5
      → j < 1024
      → load32 (read_block nvme ofs ns buf (inode.l2 i)) (j * 4)
        ≡ file_block inode mem (49 + i * 1024 + j)
  reads2 i j buf hi hj =
      load32-read_block nvme reliable ofs ns buf (inode.l2 i) j (omega (arith, word.l2 i hi)) hj
      ∙ sym (file_block-l2_at inode mem i j hi hj)

  reads3 :
      (l3_ptr_reg : Memory) (i j : ℕ) (buf : Memory)
      → i < 1024
      → j < 1024
      → load32
          (read_block nvme ofs ns buf
            (load32 (read_block nvme ofs ns l3_ptr_reg (inode.l3 0)) (i * 4)))
          (j * 4)
        ≡ file_block inode mem (5169 + i * 1024 + j)
  reads3 l3_ptr_reg i j buf hi hj =
      let e =
        load32-read_block nvme reliable ofs ns l3_ptr_reg (inode.l3 0) i (omega (arith, word.l3))
          hi in
      rw e (
        load32-read_block nvme reliable ofs ns buf _ j (omega (arith, word.entry i hi)) hj
        ∙ sym (file_block-l3_at inode mem i j hj))

  -- For a device that keeps what is written to it, pointers of 32 bits and a file of at most
  -- 1053745 blocks, `vsfs_get_inode_info` puts the whole block map of the file into the array,
  -- whatever the array and the buffers hold before.
  pub get_inode_info-file_block :
      (array : ℕ → ℕ) (ptr_reg l3_ptr_reg : Memory) (inode_num k : ℕ)
      → inode.blocks ≤ 1053745
      → k < inode.blocks
      → (get_inode_info nvme ofs ns array ptr_reg l3_ptr_reg inode_num inode).block k
        ≡ file_block inode (region nvme ofs ns) k
  unfolding get_inode_info
  get_inode_info-file_block array ptr_reg l3_ptr_reg inode_num k few below =
      elim (Bool-cases (s1.blks == 0)) [
        | inl none ↦ rw none (all s1 at1.0 (==→eq s1.blks 0 none))
        | inr more ↦ elim (Bool-cases (s2.blks == 0)) [
          | inl none ↦ rw (more, none) (all s2 at2.0 (==→eq s2.blks 0 none))
          | inr more' ↦
              rw (more, more')
                (all s3 at3.0 (elim at3.1 [ inl none ↦ none | inr z ↦ omega (arith, at3.0.sum) ]))
        ]
      ]
    where
      s0 : Fill
      s0 = record { block = array; index = 0; blks = inode.blocks; ptr_reg = ptr_reg }

      l3_ptrs : Memory
      l3_ptrs = read_block nvme ofs ns l3_ptr_reg (inode.l3 0)

      s1 : Fill
      s1 = fill_l1 inode 49 0 s0

      s2 : Fill
      s2 = fill_blocks nvme ofs ns inode.l2 5 0 s1

      s3 : Fill
      s3 = fill_blocks nvme ofs ns (λ i. load32 l3_ptrs (i * 4)) 1024 0 s2

      at0 : IsFilled inode mem s0
      at0 = record { sum = omega arith; agrees = λ j h. absurd (omega arith) }

      at1 : Reached inode mem 49 s1
      at1 = Reached-l1 inode mem 49 0 s0 at0 refl refl

      at2 : Reached inode mem 5169 s2
      at2 = Reached-blocks inode mem nvme ofs ns inode.l2 49 5 reads2 5 0 s1 at1 refl

      at3 : Reached inode mem (5169 + 1024 * 1024) s3
      at3 =
          Reached-blocks inode mem nvme ofs ns (λ i. load32 l3_ptrs (i * 4)) 5169 1024
            (reads3 l3_ptr_reg) 1024 0 s2 at2 refl

      all : (s : Fill) → IsFilled inode mem s → s.blks ≡ 0 → s.block k ≡ file_block inode mem k
      all s is e = is.agrees k (omega (arith, is.sum))
