-- ===== src/Directory/Found.antt =====
-- A name that `vsfs_creat` has entered is found, and the entries before it are as they were.
use test_vsfs.Prelude.{
  ℕ, ◌+◌, ◌*◌, ◌^◌, ◌≤◌, ◌<◌, ◌≡◌, refl, arith, true, false, some, List, length, ◌≢◌, ap, ◌∙◌, leb,
  ltb, ◌==◌, lt→leb, lt→ltb,
}
use test_vsfs.Word.{pos, u32}
use test_vsfs.Memory.Texts.{IsText}
use test_vsfs.Layout.{Inode}
use test_vsfs.Bitmap.{get_free_inode}
use test_vsfs.Blocks.Direct.{alloc_block-mem}
use test_vsfs.State.{Vsfs, Env}
use test_vsfs.Directory.{find_entry, new_slot, add_entry, creat_mapped, vsfs_creat}
use test_vsfs.Directory.Search.{has_name, name_taken-has_name}
use test_vsfs.Directory.Added.{with_entry, find_entry-new, find_entry-from}

module _ (env : Env) (name : List ℕ) (block_num : ℕ) (s : Vsfs) (short : length name < 254)
    (few : block_num ≤ 49) (sb : env.sb_opens ≡ true) (cached : env.cached_opens ≡ true) where
  abbrev root : Inode
  root = s.disk.inode_reg 0

  abbrev f_inode : ℕ
  f_inode = (get_free_inode s.cached).1

  vsfs_creat_added :
      has_name s.disk.data_reg name root.size 0 ≡ false
      → root.size < u32 (root.blocks * 16)
      → root.size + 1 < 2 ^ 32
      → 0 < f_inode
      → let (s', result) = vsfs_creat env name block_num s in
        (result ≡ pos 0)
        × (s'.disk.data_reg ≡ with_entry s.disk.data_reg name root.size f_inode short)
        × ((s'.disk.inode_reg 0).size ≡ root.size + 1)
        × ((s'.disk.inode_reg 0).l1 ≡ root.l1)
  unfolding vsfs_creat creat_mapped add_entry new_slot
  vsfs_creat_added new room small taken =
      let a : leb 254 (length name) ≡ false = lt→leb _ _ short in
      let t = name_taken-has_name s.disk.data_reg name root.size in
      let place : ltb root.size (u32 (root.blocks * 16)) ≡ true = lt→ltb _ _ room in
      let ne : (0 == f_inode) ≡ false = ground arith in
      let size : u32 (root.size + 1) ≡ root.size + 1 = omega arith in
      simp (a, sb, cached, t, new, place, ne, size)
        (refl, alloc_block-mem _ _ _ block_num refl few, refl, refl)

  -- Where both objects open, `vsfs_creat` of a new name with at most 49 blocks, into a block that the
  -- directory has, returns 0. The search of `vsfs_open` then finds the name, with the inode that
  -- `get_free_inode` gave, and for any other name it gives what it gave before. Names have fewer
  -- than 254 bytes and no zero, block `k` of the directory is block `k` of the data region, the
  -- number of entries fits in 32 bits, and the inode is not 0 and fits in 16.
  pub find_entry-vsfs_creat :
      (other : List ℕ)
      → length other < 254
      → IsText name
      → IsText other
      → other ≢ name
      → has_name s.disk.data_reg name root.size 0 ≡ false
      → root.size < u32 (root.blocks * 16)
      → root.size + 1 < 2 ^ 32
      → ((k : ℕ) → k * 16 < root.size + 1 → root.l1 k ≡ k)
      → 0 < f_inode
      → f_inode < 2 ^ 16
      → let (s', result) = vsfs_creat env name block_num s in
        let root' = s'.disk.inode_reg 0 in
        (result ≡ pos 0)
        × (find_entry root' s'.disk.data_reg name root'.size 0 ≡ some f_inode)
        × (find_entry root' s'.disk.data_reg other root'.size 0
            ≡ find_entry root s.disk.data_reg other root.size 0)
  find_entry-vsfs_creat other fits text is apart new room small straight taken word =
      let (result, mem, size, l1) = vsfs_creat_added new room small taken in
      let root' = (vsfs_creat env name block_num s).0.disk.inode_reg 0 in
      rw (mem, size)
        (
          result,
          find_entry-new s.disk.data_reg name root.size f_inode short word small new root'
              (λ k h. ap (λ (l : ℕ → ℕ). l k) l1 ∙ straight k h),
          find_entry-from s.disk.data_reg name root.size f_inode short text small root root'
              straight l1 other is fits apart root.size 0 (omega arith),
        )
