-- ===== src/Device/Stat.antt =====
-- `vsfs_stat` and `vsfs_print_block_nbr` of src/inc/vsfsio_spdk.h.
use test_vsfs.Prelude.{
  ℕ, zero, suc, ◌+◌, ◌*◌, true, false, Option, none, some, List, [], ◌∷◌, ◌++◌, ltb, ◌==◌,
  if◌then◌else◌, not, ◌||◌,
}
use test_vsfs.Memory.{Memory, load32}
use test_vsfs.Layout.{Inode}
use test_vsfs.State.{Run, done, fault, ◌>>=◌, Env}
use test_vsfs.Session.{find_target}
use test_vsfs.Stat.{FileStat, stat_inode}
use test_vsfs.Blocks.Print.{
  Printed, level1, level2, level3, Output, then_print, print_l1, print_pointers,
}
use test_vsfs.Spdk.{Nvme}
use test_vsfs.Device.{read_block}
use test_vsfs.Device.State.{
  InodeReg, null_reg, cached_reg, stale_reg, Mounted, Scratch, find_inodes, inode_of,
}
use test_vsfs.Device.Directory.{find_entry}

module _ (nvme : Nvme) where
  -- `vsfs_stat` on the inodes that are mapped. Where the name is not found, `sb_cached` is unmapped
  -- and `inode_reg` stays. `buf` is `tmp_data_reg`.
  unfoldable pub stat_cached :
      (buf : Memory) → (pathname : List ℕ) → Mounted nvme.Ns → Mounted nvme.Ns × Option FileStat
  stat_cached buf pathname s =
      let root = s.cached.inode_reg 0 in
      let ofs = s.cached.sbi.ofs_dregion in
      let first = read_block nvme ofs s.ns buf 0 in
      elim (find_entry nvme ofs s.ns root first pathname root.size 0) [
        | none ↦ (record s { inode_reg = stale_reg; cached_mapped = false }, none)
        | some target_inode ↦ (s, some (stat_inode (s.cached.inode_reg target_inode)))
      ]

  -- `none` is the result -1. Where `sb_cached` does not open, the null pointer is unmapped.
  unfoldable pub vsfs_stat :
      Env
      → (buf : Memory) → (pathname : List ℕ) → Mounted nvme.Ns
      → Run (Mounted nvme.Ns × Option FileStat)
  vsfs_stat env buf pathname s =
      if not (s.cached_mapped || env.cached_opens) then done (s, none) else elim s.inode_reg [
        | stale_reg ↦ fault
        | null_reg ↦
            done
              (stat_cached buf pathname (record s { inode_reg = cached_reg; cached_mapped = true }))
        | cached_reg ↦ done (stat_cached buf pathname (record s { cached_mapped = true }))
      ]

  -- The pointer blocks `blk i`, for the rounds that are left, each read into `ptr_reg`.
  unfoldable pub print_l2 :
      (ofs_dregion : ℕ)
      → nvme.Ns
      → (ptr_reg : Memory) → (blk : ℕ → ℕ) → (rounds i blks : ℕ) → Output
  print_l2 ofs_dregion ns ptr_reg blk zero i blks = ([], blks)
  print_l2 ofs_dregion ns ptr_reg blk (suc rounds) i blks =
      let block = read_block nvme ofs_dregion ns ptr_reg (blk i) in
      let (numbers, left) = print_pointers block 0 1024 0 blks in
      let rest = print_l2 ofs_dregion ns block blk rounds (i + 1) left in
      if ltb 0 blks then then_print (level2 i (blk i) ∷ numbers) rest else ([], blks)

  -- The lines that are printed, and `inode_reg` afterwards.
  unfoldable pub print_inode :
      (ofs_dregion : ℕ) → nvme.Ns → Scratch → Inode → InodeReg → List Printed × InodeReg
  print_inode ofs_dregion ns scratch inode reg =
      let (first, left1) = print_l1 inode 49 0 inode.blocks in
      let (second, left2) = print_l2 ofs_dregion ns scratch.ptr_reg inode.l2 5 0 left1 in
      let l3_ptrs = read_block nvme ofs_dregion ns scratch.l3_ptr_reg (inode.l3 0) in
      let (third, _) =
        print_l2 ofs_dregion ns scratch.ptr_reg (λ i. load32 l3_ptrs (0 + i * 4)) 1024 0 left2 in
      if left1 == 0
      then (level1 ∷ first, reg)
      else if left2 == 0
      then (level1 ∷ (first ++ second), reg)
      else (level1 ∷ (first ++ (second ++ level3 (inode.l3 0) ∷ third)), null_reg)

  unfoldable pub print_found :
      Scratch → (p : ℕ) → Mounted nvme.Ns → Run (Mounted nvme.Ns × List Printed)
  print_found scratch p s =
      let (lines, reg) =
        print_inode s.cached.sbi.ofs_dregion s.ns scratch (inode_of p s) s.inode_reg in
      elim s.inode_reg [
        | null_reg ↦ fault
        | stale_reg ↦ fault
        | cached_reg ↦ done (record s { inode_reg = reg }, lines)
      ]

  -- `vsfs_print_block_nbr`. The descriptor is not tested.
  unfoldable pub vsfs_print_block_nbr :
      Scratch → (fildes : ℕ) → Mounted nvme.Ns → Run (Mounted nvme.Ns × List Printed)
  vsfs_print_block_nbr scratch fildes s = elim (find_target fildes s.fd_table) [
    | fault ↦ fault
    | done none ↦ fault
    | done (some e) ↦ (do s' ← find_inodes s; print_found scratch e.ptr s')
  ]
