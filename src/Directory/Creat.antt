-- ===== src/Directory/Creat.antt =====
-- Where `vsfs_creat` fails, and what it does with no free inode.
use test_vsfs.Prelude.{
  ℕ, ◌-◌, ◌/◌, ap, none, ltb, lt→ltb, ◌*◌, ◌<◌, ◌≡◌, refl, arith, true, false, some, List, leb, not,
  length, ◌&&◌, lt→leb, Bool-cases, inl, inr, eq→==,
}
use test_vsfs.Word.{pos, minus_one, u32}
use test_vsfs.Bitmap.{Found, get_first_free_bit, get_free_inode}
use test_vsfs.Bitmap.Search.{free_at, IsWords}
use test_vsfs.Bitmap.FirstFree.{get_first_free_bit-cases}
use test_vsfs.Layout.{Cached}
use test_vsfs.State.{Vsfs, Env}
use test_vsfs.Directory.{find_entry, Slot, new_slot, add_entry, creat_mapped, vsfs_creat}
use test_vsfs.Directory.Search.{has_name, name_taken-has_name}

-- `vsfs_creat` of a name of 254 bytes or more, of a name that an entry of the root directory has,
-- or where one of the shared objects does not open, returns -1 and changes nothing.
pub vsfs_creat_refused :
    (env : Env) (name : List ℕ) (block_num : ℕ) (s : Vsfs)
    → (not (leb 254 (length name))
        && env.sb_opens
        && env.cached_opens
        && not (has_name s.disk.data_reg name (s.disk.inode_reg 0).size 0))
      ≡ false
    → vsfs_creat env name block_num s ≡ (s, minus_one)
unfolding vsfs_creat creat_mapped
vsfs_creat_refused env name block_num s refused =
    let root = s.disk.inode_reg 0 in
    let t = name_taken-has_name s.disk.data_reg name root.size in
    elim (Bool-cases (leb 254 (length name))) [
      | inl long ↦ simp long refl
      | inr short ↦ elim (Bool-cases env.sb_opens) [
        | inr shut ↦ simp (short, shut) refl
        | inl sb ↦ elim (Bool-cases env.cached_opens) [
          | inr shut ↦ simp (short, sb, shut) refl
          | inl cached ↦ elim (Bool-cases (has_name s.disk.data_reg name root.size 0)) [
            | inl taken ↦ simp (short, sb, cached, t, taken) refl
            | inr new ↦ absurd (ground (arith, refused))
          ]
        ]
      ]
    ]

-- Where `vsfs_creat` is not refused and finds a place for the entry, it returns 0, and the inode
-- that `get_free_inode` gives has the blocks that were asked for and their size. `sb_cached` is null
-- afterwards.
vsfs_creat-inode :
    (env : Env) (name : List ℕ) (block_num : ℕ) (slot : Slot) (s : Vsfs)
    → length name < 254
    → env.sb_opens ≡ true
    → env.cached_opens ≡ true
    → has_name s.disk.data_reg name (s.disk.inode_reg 0).size 0 ≡ false
    → new_slot (get_free_inode s.cached).0 (s.disk.inode_reg 0) ≡ some slot
    → let (s', result) = vsfs_creat env name block_num s in
      let inode = s'.disk.inode_reg (get_free_inode s.cached).1 in
      (result ≡ pos 0)
      × (inode.size ≡ u32 (block_num * 4096))
      × (inode.blocks ≡ u32 block_num)
      × (s'.cached_mapped ≡ false)
unfolding vsfs_creat creat_mapped add_entry
vsfs_creat-inode env name block_num slot s short sb cached new place =
    let a : leb 254 (length name) ≡ false = lt→leb _ _ short in
    let t = name_taken-has_name s.disk.data_reg name (s.disk.inode_reg 0).size in
    let f = (get_free_inode s.cached).1 in
    simp (a, sb, cached, t, new) (rw place (simp (eq→== f f refl) (refl, refl, refl, refl)))

-- A search that goes through all words of a map and finds no bit returns 0.
get_free_inode_none :
    (cd : Cached)
    → cd.sbi.nr_ibitmap_blocks ≡ 1
    → IsWords cd.ibitmap
    → ((j : ℕ) → j < 32768 → free_at cd.ibitmap j ≡ 0)
    → (get_free_inode cd).1 ≡ 0
unfolding get_free_inode
get_free_inode_none cd one words full =
    rw one (elim (get_first_free_bit-cases cd.ibitmap 4096 words (omega arith)) [
      | inl f ↦ ap (λ (r : Found). r.index) f.result
      | inr f ↦
          let taken = full (get_first_free_bit cd.ibitmap 4096).index (omega (arith, f.within)) in
          absurd (omega (arith, f.was_free, taken))
    ])

-- With no bit set in the inodes' free map of one block, `vsfs_creat` of a new name of fewer than 254
-- bytes with no blocks, where the objects open and the directory has a block with room, returns 0,
-- but it gives the file the root's inode: the root has no entry and no block then, and the search of
-- `vsfs_open` finds no name any more.
pub vsfs_creat_full :
    (env : Env) (name other : List ℕ) (s : Vsfs)
    → length name < 254
    → env.sb_opens ≡ true
    → env.cached_opens ≡ true
    → has_name s.disk.data_reg name (s.disk.inode_reg 0).size 0 ≡ false
    → (s.disk.inode_reg 0).size < u32 ((s.disk.inode_reg 0).blocks * 16)
    → s.cached.sbi.nr_ibitmap_blocks ≡ 1
    → IsWords s.cached.ibitmap
    → ((j : ℕ) → j < 32768 → free_at s.cached.ibitmap j ≡ 0)
    → let (s', result) = vsfs_creat env name 0 s in
      let root = s'.disk.inode_reg 0 in
      (result ≡ pos 0)
      × (root.size ≡ 0)
      × (root.blocks ≡ 0)
      × (find_entry root s'.disk.data_reg other root.size 0 ≡ none)
unfolding new_slot find_entry
vsfs_creat_full env name other s short sb cached new room one words full =
    let root = s.disk.inode_reg 0 in
    let place : ltb root.size (u32 (root.blocks * 16)) ≡ true = lt→ltb _ _ room in
    let slot : Slot = record {
      cached = (get_free_inode s.cached).0;
      root = root;
      f_dblock = root.size / 16;
      d_entry = root.size - root.size / 16 * 16;
    } in
    let (result, size, blocks, unmapped) =
      vsfs_creat-inode env name 0 slot s short sb cached new (simp place refl) in
    let lost = get_free_inode_none s.cached one words full in
    let size' = rw lost at size in (result, size', rw lost at blocks, rw size' refl)
