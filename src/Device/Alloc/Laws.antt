-- ===== src/Device/Alloc/Laws.antt =====
-- `__alloc_block` on a device and in shared memory, for files up to level 2.
use test_vsfs.Prelude.{
  ℕ, zero, suc, ◌+◌, ◌-◌, ◌*◌, ◌/◌, ◌%◌, ◌^◌, ◌≤◌, ◌<◌, ◌≡◌, ◌≢◌, refl, arith, ◌∙◌, sym, ap, ltb,
  ◌==◌, inl, inr, Bool-cases, ==→eq, ==→ne,
}
use test_vsfs.Memory.{Memory, store32, byte_of}
use test_vsfs.Memory.Laws.{memcpy_shift, memcpy-outside}
use test_vsfs.Layout.{Inode}
use test_vsfs.Bitmap.{get_free_dblock}
use test_vsfs.Bitmap.Width.{get_free_dblock-width}
use test_vsfs.Blocks.{Alloc, fill_l1, alloc_l1, fill_pointer, alloc_pointers, new_l2, enter_l2}
use test_vsfs.Blocks as Shared
use test_vsfs.Spdk.{Nvme, IsReliable}
use test_vsfs.Device.{region, read_block}
use test_vsfs.Device.Region.{read_block-region, region-write_block}
use test_vsfs.Device.Alloc.{Stage, extend, alloc_l2}

-- The same variables with another memory.
abbrev pub with_mem : Alloc → Memory → Alloc
with_mem a buf = record a { mem = buf }

-- `p` is `a`, with a copy of the block `blk` for its memory.
record IsTwin (blk : ℕ) (p a : Alloc) : Type 0 where
  pub vars : p ≡ with_mem a p.mem
  pub bytes : (i : ℕ) → i < 4096 → p.mem i ≡ a.mem (blk * 4096 + i)

-- What a loop over the pointers of `blk` leaves alone.
record IsKept (blk : ℕ) (a d : Alloc) : Type 0 where
  pub mem : (x : ℕ) → x / 4096 ≢ blk → d.mem x ≡ a.mem x
  pub l2 : d.inode.l2 ≡ a.inode.l2

module _ (blk : ℕ) where
  IsTwin-fill_pointer :
      (j : ℕ) (a : Alloc) (buf : Memory)
      → j < 1024
      → ((i : ℕ) → i < 4096 → buf i ≡ a.mem (blk * 4096 + i))
      → (i : ℕ) → i < 4096
      → (fill_pointer 0 j (with_mem a buf)).mem i ≡ (fill_pointer blk j a).mem (blk * 4096 + i)
  unfolding fill_pointer store32
  IsTwin-fill_pointer j a buf h same i hi =
      let e : 0 * 4096 + j * 4 ≡ j * 4 = omega arith in
      rw e (
        memcpy_shift (blk * 4096) buf a.mem (j * 4) (byte_of (get_free_dblock a.cached).1) 4 i
          (same i hi))

  IsKept-fill_pointer : (j : ℕ) (a : Alloc) → j < 1024 → IsKept blk a (fill_pointer blk j a)
  unfolding fill_pointer store32
  IsKept-fill_pointer j a h = record {
    mem = λ x ne.
        memcpy-outside a.mem (blk * 4096 + j * 4) (byte_of (get_free_dblock a.cached).1) 4 x
          (omega arith);
    l2 = refl;
  }

  IsKept-alloc_pointers :
      (rounds j : ℕ) (a : Alloc) → j + rounds ≤ 1024 → IsKept blk a (alloc_pointers blk rounds j a)
  unfolding alloc_pointers
  IsKept-alloc_pointers zero j a h = record { mem = λ x ne. refl; l2 = refl }
  IsKept-alloc_pointers (suc rounds) j a h = elim (Bool-cases (ltb 0 a.count_down)) [
    | inl more ↦
        let one = IsKept-fill_pointer j a (omega arith) in
        let rest = IsKept-alloc_pointers rounds (j + 1) (fill_pointer blk j a) (omega arith) in
        rw more (record { mem = λ x ne. rest.mem x ne ∙ one.mem x ne; l2 = rest.l2 ∙ one.l2 })
    | inr none ↦ rw none (record { mem = λ x ne. refl; l2 = refl })
  ]

  IsTwin-alloc_pointers :
      (rounds j : ℕ) (a : Alloc) (buf : Memory)
      → j + rounds ≤ 1024
      → ((i : ℕ) → i < 4096 → buf i ≡ a.mem (blk * 4096 + i))
      → IsTwin blk (alloc_pointers 0 rounds j (with_mem a buf)) (alloc_pointers blk rounds j a)
  unfolding alloc_pointers fill_pointer
  IsTwin-alloc_pointers zero j a buf h same = record { vars = refl; bytes = same }
  IsTwin-alloc_pointers (suc rounds) j a buf h same = elim (Bool-cases (ltb 0 a.count_down)) [
    | inl more ↦ rw more (
        IsTwin-alloc_pointers rounds (j + 1) (fill_pointer blk j a)
          (fill_pointer 0 j (with_mem a buf)).mem (omega arith)
          (IsTwin-fill_pointer j a buf (omega arith) same))
    | inr none ↦ rw none (record { vars = refl; bytes = same })
  ]

-- The pointers of level 2 fit their 32 bits.
abbrev pub IsWide : Inode → Type 0
IsWide inode = (i : ℕ) → i < 5 → inode.l2 i < 2 ^ 32

IsWide-enter_l2 : (i start : ℕ) (a : Alloc) → IsWide a.inode → IsWide (enter_l2 i start a).inode
unfolding enter_l2 new_l2
IsWide-enter_l2 i start a wide = elim (Bool-cases (start == 0)) [
  | inl new ↦ rw new (λ k h. elim (Bool-cases (k == i)) [
    | inl here ↦ rw here (get_free_dblock-width a.cached)
    | inr there ↦ rw there (wide k h)
  ])
  | inr old ↦ rw old wide
]

abbrev pub IsBlind : (Alloc → Alloc) → Type 0
IsBlind f = (a : Alloc) (m : Memory) → f (with_mem a m) ≡ with_mem (f a) m

enter_l2-IsBlind : (i start : ℕ) → IsBlind (enter_l2 i start)
unfolding enter_l2 new_l2
enter_l2-IsBlind i start a m = elim (Bool-cases (start == 0)) [
  | inl new ↦ rw new refl
  | inr old ↦ rw old refl
]

pub alloc_l1-IsBlind : (rounds i : ℕ) → IsBlind (alloc_l1 rounds i)
unfolding alloc_l1 fill_l1
alloc_l1-IsBlind zero i a m = refl
alloc_l1-IsBlind (suc rounds) i a m = elim (Bool-cases (ltb 0 a.count_down)) [
  | inl more ↦ rw more (alloc_l1-IsBlind rounds (i + 1) (fill_l1 i a) m)
  | inr none ↦ rw none refl
]

pub alloc_l1-l2 : (rounds i : ℕ) (a : Alloc) → (alloc_l1 rounds i a).inode.l2 ≡ a.inode.l2
unfolding alloc_l1 fill_l1
alloc_l1-l2 zero i a = refl
alloc_l1-l2 (suc rounds) i a = elim (Bool-cases (ltb 0 a.count_down)) [
  | inl more ↦ rw more (alloc_l1-l2 rounds (i + 1) (fill_l1 i a))
  | inr none ↦ rw none refl
]

module _ (nvme : Nvme) (reliable : IsReliable nvme) (ofs : ℕ) (small : ofs < 2 ^ 32) where
  -- The device holds the memory, and the other variables are the same.
  pub record IsSame (s : Stage nvme.Ns) (a : Alloc) : Type 0 where
    pub vars : s.here ≡ with_mem a s.here.mem
    pub mem : (x : ℕ) → region nvme ofs s.ns x ≡ a.mem x
    pub wide : IsWide a.inode

  IsSame-extend :
      (blk start : ℕ) (s : Stage nvme.Ns) (a : Alloc)
      → IsSame s a
      → blk < 2 ^ 32
      → start ≤ 1024
      → IsSame (extend nvme ofs blk start s) (alloc_pointers blk (1024 - start) start a)
  unfolding extend
  IsSame-extend blk start s a same hb hs = record {
    vars = twin.vars;
    mem = λ x.
        region-write_block nvme reliable ofs s.ns filled.mem blk x (omega arith)
        ∙ elim (Bool-cases (x / 4096 == blk)) [
          | inl here ↦
              let z = ==→eq (x / 4096) blk here in
              let e : blk * 4096 + x % 4096 ≡ x = omega arith in
              rw here (rw e at (twin.bytes (x % 4096) (omega arith)))
          | inr there ↦ rw there (same.mem x ∙ sym (kept.mem x (==→ne (x / 4096) blk there)))
        ];
    wide = λ i h. rw kept.l2 (same.wide i h);
  }
    where
      loaded : Memory
      loaded = read_block nvme ofs s.ns s.here.mem blk

      filled : Alloc
      filled = alloc_pointers 0 (1024 - start) start (with_mem s.here loaded)

      kept : IsKept blk a (alloc_pointers blk (1024 - start) start a)
      kept = IsKept-alloc_pointers blk (1024 - start) start a (omega arith)

      twin : IsTwin blk filled (alloc_pointers blk (1024 - start) start a)
      twin =
          let e : with_mem s.here loaded ≡ with_mem a loaded =
            ap (λ (p : Alloc). with_mem p loaded) same.vars in
          rw e (
            IsTwin-alloc_pointers blk (1024 - start) start a loaded (omega arith) (λ i h.
              read_block-region nvme reliable ofs s.ns s.here.mem blk i (omega arith) h
              ∙ same.mem (blk * 4096 + i)))

  -- A step that neither reads nor writes the memory.
  pub IsSame-blind :
      (f : Alloc → Alloc)
      → IsBlind f
      → (s : Stage nvme.Ns) (a : Alloc) → IsSame s a
      → IsWide (f a).inode
      → IsSame (record s { here = f s.here }) (f a)
  IsSame-blind f blind s a same wide = record {
    vars = e ∙ ap (with_mem (f a)) (sym (ap (λ (p : Alloc). p.mem) e));
    mem = λ x. same.mem x ∙ ap (λ (p : Alloc). p.mem x) (sym (blind a a.mem));
    wide = wide;
  }
    where
      e : f s.here ≡ with_mem (f a) s.here.mem
      e = ap f same.vars ∙ blind a s.here.mem

  pub IsSame-alloc_l2 :
      (rounds i start : ℕ) (s : Stage nvme.Ns) (a : Alloc)
      → IsSame s a
      → i + rounds ≡ 5
      → start ≤ 1024
      → IsSame (alloc_l2 nvme ofs rounds i start s) (Shared.alloc_l2 rounds i start a)
  unfolding alloc_l2 Shared.alloc_l2
  IsSame-alloc_l2 zero i start s a same e h = same
  IsSame-alloc_l2 (suc rounds) i start s a same e h = elim (Bool-cases (ltb 0 a.count_down)) [
    | inl more ↦
        let entered =
          IsSame-blind (enter_l2 i start) (enter_l2-IsBlind i start) s a same
            (IsWide-enter_l2 i start a same.wide) in
        let b = entered.wide i (omega arith) in
        let f : (enter_l2 i start s.here).inode.l2 i ≡ (enter_l2 i start a).inode.l2 i =
          ap (λ (p : Alloc). p.inode.l2 i) entered.vars in
        rw (c ∙ more, more, f)
          (IsSame-alloc_l2 rounds (i + 1) 0 _ _ (IsSame-extend _ start _ _ entered b h)
            (omega arith) (omega arith))
    | inr none ↦ rw (c ∙ none, none) same
  ]
    where
      c : ltb 0 s.here.count_down ≡ ltb 0 a.count_down
      c = ap (λ (p : Alloc). ltb 0 p.count_down) same.vars
