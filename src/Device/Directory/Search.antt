-- ===== src/Device/Directory/Search.antt =====
-- The searches for a name in src/inc/vsfsio_spdk.h and in src/inc/vsfsio.h.
use test_vsfs.Prelude.{
  ℕ, zero, suc, ◌+◌, ◌*◌, ◌/◌, ◌%◌, ◌^◌, ◌≤◌, ◌<◌, ◌≡◌, ◌≢◌, refl, arith, ◌∙◌, ap, List, [], ◌∷◌,
  length, ◌==◌, ◌||◌, Bool-cases, inl, inr, ==→ne,
}
use test_vsfs.Word.{u32, sub32}
use test_vsfs.Memory.{Memory, load16, str_eq}
use test_vsfs.Layout.{Inode}
use test_vsfs.Directory.{entry_addr, name_addr}
use test_vsfs.Directory as Shared
use test_vsfs.Directory.Search.{has_name}
use test_vsfs.Spdk.{Nvme, IsReliable}
use test_vsfs.Device.{region, read_block}
use test_vsfs.Device.Region.{read_block-region}
use test_vsfs.Device.Directory.{find_entry, name_taken}

-- A comparison looks at the bytes up to the end of the name.
str_eq_ap :
    (m m' : Memory) (p q : ℕ) (name : List ℕ)
    → ((t : ℕ) → t ≤ length name → m (p + t) ≡ m' (q + t))
    → str_eq m p name ≡ str_eq m' q name
unfolding str_eq
str_eq_ap m m' p q [] same =
    let e : p + 0 ≡ p = omega arith in
    let f : q + 0 ≡ q = omega arith in ap (λ (b : ℕ). b == 0) (rw (e, f) at (same 0 (omega arith)))
str_eq_ap m m' p q (c ∷ s) same =
    let e : p + 0 ≡ p = omega arith in
    let f : q + 0 ≡ q = omega arith in
    rw
      (
        rw (e, f) at (same 0 (omega arith)),
        str_eq_ap m m' (p + 1) (q + 1) s (λ t h.
            let g : p + 1 + t ≡ p + (t + 1) = omega arith in
            let k : q + 1 + t ≡ q + (t + 1) = omega arith in
            rw (g, k) (same (t + 1) (omega arith))),
      )
      refl

module _ (nvme : Nvme) (reliable : IsReliable nvme) (ofs : ℕ) (small : ofs < 2 ^ 32) (ns : nvme.Ns)
    (name : List ℕ) (short : length name < 254) where
  -- The buffer has block `b`, which is block `b` of the device.
  abbrev Holds : (b : ℕ) → Memory → Type 0
  Holds b block = (i : ℕ) → i < 4096 → block i ≡ region nvme ofs ns (b * 4096 + i)

  Holds-read_block : (b : ℕ) (buf : Memory) → b < 2 ^ 32 → Holds b (read_block nvme ofs ns buf b)
  Holds-read_block b buf h i l = read_block-region nvme reliable ofs ns buf b i (omega arith) l

  named :
      (b j : ℕ) (block : Memory)
      → j < 16
      → Holds b block
      → str_eq block (name_addr 0 j) name ≡ str_eq (region nvme ofs ns) (name_addr b j) name
  named b j block hj holds =
      str_eq_ap block (region nvme ofs ns) (name_addr 0 j) (name_addr b j) name (λ t h.
        let e : b * 4096 + (0 * 4096 + j * 256 + 2 + t) ≡ b * 4096 + j * 256 + 2 + t =
          omega arith in
        holds (0 * 4096 + j * 256 + 2 + t) (omega arith) ∙ ap (region nvme ofs ns) e)

  inode_at :
      (b j : ℕ) (block : Memory)
      → j < 16
      → Holds b block
      → load16 block (entry_addr 0 j) ≡ load16 (region nvme ofs ns) (entry_addr b j)
  unfolding load16
  inode_at b j block hj holds =
      let e : b * 4096 + (0 * 4096 + j * 256) ≡ b * 4096 + j * 256 = omega arith in
      let f : b * 4096 + (0 * 4096 + j * 256 + 1) ≡ b * 4096 + j * 256 + 1 = omega arith in
      let lo = holds (0 * 4096 + j * 256) (omega arith) ∙ ap (region nvme ofs ns) e in
      let hi = holds (0 * 4096 + j * 256 + 1) (omega arith) ∙ ap (region nvme ofs ns) f in
      rw (lo, hi) refl

  module _ (root : Inode) (n : ℕ) (bound : n < 2 ^ 32)
      (straight : (k : ℕ) → k * 16 < n → root.l1 k ≡ k) where
    find_entry-shared_at :
        (rounds i : ℕ) (buf : Memory)
        → i + rounds ≤ n
        → find_entry nvme ofs ns root buf name rounds i
          ≡ Shared.find_entry root (region nvme ofs ns) name rounds i
    unfolding find_entry Shared.find_entry
    find_entry-shared_at zero i buf h = refl
    find_entry-shared_at (suc rounds) i buf h =
        let b = i / 16 in
        let block = read_block nvme ofs ns buf b in
        let here = straight b (omega arith) in
        let place : sub32 i (u32 (16 * b)) ≡ i % 16 = omega (arith, bound) in
        let holds = Holds-read_block b buf (omega (arith, bound)) in
        rw
          (
            here,
            place,
            named b (i % 16) block (omega arith) holds,
            inode_at b (i % 16) block (omega arith) holds,
            find_entry-shared_at rounds (i + 1) block (omega arith),
          )
          refl

    name_taken-has_name_at :
        (rounds i : ℕ) (buf : Memory)
        → i + rounds ≤ n
        → (i % 16 ≢ 0 → Holds (i / 16) buf)
        → name_taken nvme ofs ns root buf name rounds i
          ≡ has_name (region nvme ofs ns) name rounds i
    unfolding name_taken has_name
    name_taken-has_name_at zero i buf h holds = refl
    name_taken-has_name_at (suc rounds) i buf h holds =
        let later : (block : Memory)
            → Holds (i / 16) block
            → name_taken nvme ofs ns root block name rounds (i + 1)
              ≡ has_name (region nvme ofs ns) name rounds (i + 1) =
          λ block same.
            name_taken-has_name_at rounds (i + 1) block (omega arith)
              (λ ne. let e : (i + 1) / 16 ≡ i / 16 = omega arith in rw e same) in
        elim (Bool-cases (i % 16 == 0)) [
          | inl new ↦
              let here = straight (i / 16) (omega arith) in
              rw (new, here)
                (go later (read_block nvme ofs ns buf (i / 16))
                  (Holds-read_block (i / 16) buf (omega (arith, bound))))
          | inr old ↦ rw old (go later buf (holds (==→ne (i % 16) 0 old)))
        ]
      where
        go :
            ((block : Memory)
              → Holds (i / 16) block
              → name_taken nvme ofs ns root block name rounds (i + 1)
                ≡ has_name (region nvme ofs ns) name rounds (i + 1))
            → (block : Memory) → Holds (i / 16) block
            → (str_eq block (name_addr 0 (i % 16)) name
                || name_taken nvme ofs ns root block name rounds (i + 1))
              ≡ (str_eq (region nvme ofs ns) (name_addr (i / 16) (i % 16)) name
                  || has_name (region nvme ofs ns) name rounds (i + 1))
        go rest block same =
            rw (named (i / 16) (i % 16) block (omega arith) same, rest block same) refl

    -- For a device that keeps what is written to it, a name below 254 bytes and a root directory
    -- whose blocks are the first of the data region, one after the other: the search of
    -- `vsfs_open` and `vsfs_stat` finds on the device the inode that it finds in shared memory, and
    -- the search of `vsfs_creat` tells whether one of the first `n` entries has the name; both
    -- whatever the buffer holds before.
    pub find_entry-shared :
        (buf : Memory)
        → (find_entry nvme ofs ns root buf name n 0
            ≡ Shared.find_entry root (region nvme ofs ns) name n 0)
          × (name_taken nvme ofs ns root buf name n 0 ≡ has_name (region nvme ofs ns) name n 0)
    find_entry-shared buf = (
      find_entry-shared_at n 0 buf (omega arith),
      name_taken-has_name_at n 0 buf (omega arith) (λ ne. absurd (ne (omega arith))),
    )
