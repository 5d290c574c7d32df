-- ===== src/Device/Files/Extend.antt =====
-- `vsfs_lseek` of src/inc/vsfsio_spdk.h past the end of a file: the block counts.
use test_vsfs.Prelude.{
  ℕ, ◌+◌, ◌*◌, ◌^◌, ◌≤◌, ◌<◌, ◌≡◌, refl, arith, ◌∙◌, ap, eq→==, ◌==◌, true, le→ltb, lt→ltb, le→leb,
}
use test_vsfs.Word.{sub32}
use test_vsfs.Layout.{Inode}
use test_vsfs.Blocks.{Alloc}
use test_vsfs.Blocks.Count.{alloc_block-IsAllocated}
use test_vsfs.Spdk.{Nvme, IsReliable}
use test_vsfs.Device.{region}
use test_vsfs.Device.State.{Mounted, Scratch, InodeReg, null_reg, cached_reg, stale_reg, inode_of}
use test_vsfs.FileIo.Seek.{blocks_of, seek_set}
use test_vsfs.State.{FdEntry, Run, done, fault}
use test_vsfs.Device.Info.{get_inode_info}
use test_vsfs.Device.Alloc.{alloc_block}
use test_vsfs.Device.Alloc.Laws.{IsWide}
use test_vsfs.Device.Alloc.Whole.{alloc_block-shared}
use test_vsfs.Device.Files.{grow, extend, set_offset, vsfs_lseek, lseek_file, lseek_set}
use test_vsfs.Device.Files.Target.{IsReady, vsfs_lseek_at}

module _ (nvme : Nvme) (reliable : IsReliable nvme) (scratch : Scratch) (s : Mounted nvme.Ns)
    (small : s.cached.sbi.ofs_dregion < 2 ^ 32) (p : ℕ) where
  abbrev inode : Inode
  inode = inode_of p s

  -- The allocation adds what it is asked for.
  grown_blocks :
      (need : ℕ)
      → IsWide inode
      → inode.blocks < 5169
      → inode.blocks + need ≤ 5169
      → (alloc_block nvme s.cached.sbi.ofs_dregion inode s.cached s.ns scratch.ptr_reg
          scratch.l3_ptr_reg need).0.here.inode.blocks
        ≡ inode.blocks + need
  grown_blocks need wide below fits =
      let (same, code) =
        alloc_block-shared nvme reliable s.cached.sbi.ofs_dregion small inode s.cached s.ns
          scratch.ptr_reg scratch.l3_ptr_reg need wide below fits in
      let counted =
        alloc_block-IsAllocated inode (region nvme s.cached.sbi.ofs_dregion s.ns) s.cached need
          (omega arith) (omega arith) in
      ap (λ (a : Alloc). a.inode.blocks) same.vars
      ∙ counted.blocks
      ∙ rw (le→leb (inode.blocks + need) 1053745 (omega arith)) refl

  module _ (need : ℕ) (wide : IsWide inode) (below : inode.blocks < 5169)
      (fits : inode.blocks + need ≤ 5169) where
    abbrev grown : Mounted nvme.Ns
    grown = grow nvme scratch p need s

    here : (p == p) ≡ true
    here = eq→== p p refl

    grow-inode : (inode_of p grown).blocks ≡ inode.blocks + need
    unfolding grow
    grow-inode =
        let nr = (s.op_ftable p).inode_nr in
        rw (here, eq→== nr nr refl) (grown_blocks need wide below fits)

    grow-file : (grown.op_ftable p).file_ptr.blocks ≡ inode.blocks + need
    unfolding grow get_inode_info
    grow-file = rw here (grown_blocks need wide below fits)

  -- The blocks of the inode, and those of `file_ptr`, after a seek to `offset`.
  pub record IsDoubled (offset : ℕ) (d : Mounted nvme.Ns) : Type 0 where
    pub of_inode : (inode_of p d).blocks ≡ blocks_of offset
    pub of_file : (d.op_ftable p).file_ptr.blocks ≡ 2 * blocks_of offset
    pub size : (d.op_ftable p).file_ptr.size ≡ offset
    pub place : (d.op_ftable p).offset ≡ offset

  abbrev asked_for : ℕ → ℕ
  asked_for offset = sub32 (blocks_of offset) (s.op_ftable p).file_ptr.blocks

  extend-IsDoubled :
      (offset : ℕ)
      → IsWide inode
      → inode.blocks < 5169
      → (s.op_ftable p).file_ptr.blocks ≡ inode.blocks
      → inode.blocks ≤ blocks_of offset
      → blocks_of offset ≤ 5169
      → IsDoubled offset (set_offset nvme p offset (extend nvme scratch p offset s))
  unfolding extend
  extend-IsDoubled offset wide below current more fits = record {
    of_inode = rw (inode_of, at_p) (grow-inode (asked_for offset) wide below within ∙ sum);
    of_file = rw at_p (omega (arith, grow-file (asked_for offset) wide below within, sum, fits));
    size = rw at_p refl;
    place = rw at_p refl;
  }
    where
      sum : inode.blocks + asked_for offset ≡ blocks_of offset
      sum = omega (arith, current, more, fits)

      within : inode.blocks + asked_for offset ≤ 5169
      within = omega (arith, sum, fits)

      at_p : (p == p) ≡ true
      at_p = eq→== p p refl

module _ (nvme : Nvme) (reliable : IsReliable nvme) (scratch : Scratch) (s : Mounted nvme.Ns)
    (small : s.cached.sbi.ofs_dregion < 2 ^ 32) (fd : ℕ) (e : FdEntry) where
  lseek_set_past :
      (offset : ℕ)
      → s.inode_reg ≡ cached_reg
      → (s.op_ftable e.ptr).file_ptr.size < offset
      → offset ≤ 2 ^ 32
      → lseek_file nvme scratch seek_set e.ptr offset s
        ≡ done (set_offset nvme e.ptr offset (extend nvme scratch e.ptr offset s), offset)
  unfolding lseek_file lseek_set
  lseek_set_past offset found past limit =
      rw (le→ltb 0x100000000 offset limit, lt→ltb (s.op_ftable e.ptr).file_ptr.size offset past)
        (ap
          (λ (r : InodeReg). elim r as (λ x. Run (Mounted nvme.Ns × ℕ)) [
            | null_reg ↦ fault
            | stale_reg ↦ fault
            | cached_reg ↦
                done (set_offset nvme e.ptr offset (extend nvme scratch e.ptr offset s), offset)
          ])
          found)

  -- For a device that keeps what is written to it, a descriptor that is open, and a file of less
  -- than 5169 blocks, with pointers of 32 bits in its inode, whose `file_ptr` has its count of
  -- blocks: a `SEEK_SET` past its size, up to 4 GiB, for which it needs as many blocks or more, at
  -- most 5169, returns the offset. The inode then has the blocks up to there, and `file_ptr` claims
  -- twice as many.
  pub vsfs_lseek-IsDoubled :
      (offset : ℕ)
      → IsReady fd e s
      → s.inode_reg ≡ cached_reg
      → IsWide (inode_of e.ptr s)
      → (inode_of e.ptr s).blocks < 5169
      → (s.op_ftable e.ptr).file_ptr.blocks ≡ (inode_of e.ptr s).blocks
      → (s.op_ftable e.ptr).file_ptr.size < offset
      → offset ≤ 2 ^ 32
      → (inode_of e.ptr s).blocks ≤ blocks_of offset
      → blocks_of offset ≤ 5169
      → (d : Mounted nvme.Ns) × (vsfs_lseek nvme scratch fd offset seek_set s ≡ done (d, offset))
        × IsDoubled nvme reliable scratch s small e.ptr offset d
  vsfs_lseek-IsDoubled offset ready found wide below current past limit more fits = (
    set_offset nvme e.ptr offset (extend nvme scratch e.ptr offset s),
    vsfs_lseek_at nvme scratch fd e s ready found offset seek_set
        ∙ lseek_set_past offset found past limit,
    extend-IsDoubled nvme reliable scratch s small e.ptr offset wide below current more fits,
  )
