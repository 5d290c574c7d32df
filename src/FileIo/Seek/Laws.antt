-- ===== src/FileIo/Seek/Laws.antt =====
-- Where `vsfs_lseek` leaves the offset of a descriptor, and the size of the file.
use test_vsfs.Prelude.{
  ℕ, ◌+◌, ◌-◌, ◌^◌, ◌≤◌, ◌<◌, ◌≡◌, refl, arith, ltb, true, false, Bool-cases, inl, inr, ◌⊎◌, lt→ltb,
  le→ltb, ltb→le, ◌∙◌, eq→==,
}
use test_vsfs.Word.{u32, u64, sub32}
use test_vsfs.Layout.{Inode, put}
use test_vsfs.Blocks.{alloc_block}
use test_vsfs.Blocks.Count.{alloc_block-IsAllocated}
use test_vsfs.State.{FdEntry, Vsfs, done}
use test_vsfs.FileIo.Target.{IsOpen, file_of}
use test_vsfs.FileIo.Read.{file_size}
use test_vsfs.FileIo.Seek.{
  seek_error, seek_set, seek_cur, seek_end, blocks_of, set_offset, extend, lseek_set, lseek_from,
  lseek_file, vsfs_lseek,
}

vsfs_lseek-open :
    (fd offset whence : ℕ) (e : FdEntry) (s : Vsfs)
    → IsOpen fd e s
    → vsfs_lseek fd offset whence s ≡ lseek_file whence e.ptr offset s
unfolding vsfs_lseek
vsfs_lseek-open fd offset whence e s is = simp (is.optab, is.sb, is.found) refl

-- A seek from the start to an offset within the file sets the offset of the descriptor to it,
-- changes nothing else and returns it.
pub vsfs_lseek_within :
    (fd offset : ℕ) (e : FdEntry) (s : Vsfs)
    → IsOpen fd e s
    → offset ≤ file_size (file_of e s)
    → file_size (file_of e s) ≤ 2 ^ 32
    → vsfs_lseek fd offset seek_set s ≡ done (set_offset e.ptr offset s, offset)
vsfs_lseek_within fd offset e s is within fits = rw (vsfs_lseek-open fd offset seek_set e s is) (
    unfold lseek_file lseek_set in
    (let a : ltb 0x100000000 offset ≡ false = le→ltb _ _ (omega arith) in
      let b : ltb (file_size (file_of e s)) offset ≡ false = le→ltb _ _ within in rw (a, b) refl))

-- The 32 bits of a file's size, where the whole 4 GiB is told by the number of blocks.
file_size-u32 :
    (inode : Inode) (offset : ℕ)
    → inode.blocks ≡ blocks_of offset
    → 0 < offset
    → offset ≤ 0x100000000
    → file_size (record inode { size = u32 offset }) ≡ offset
unfolding file_size
file_size-u32 inode offset e pos fits = ground arith

-- What a seek past the end of the file leaves: `offset` in the entry, and a file of that size with
-- the blocks that hold it.
pub record IsExtended (e : FdEntry) (offset : ℕ) (s' : Vsfs) : Type 0 where
  pub moved : (s'.op_ftable e.ptr).offset ≡ offset
  pub size : file_size (file_of e s') ≡ offset
  pub blocks : (file_of e s').blocks ≡ blocks_of offset

-- The state that `extend` gives.
abbrev extended : (p offset : ℕ) → Vsfs → Vsfs
extended p offset s =
    let op = s.op_ftable p in
    let disk = s.disk in
    let inode = disk.inode_reg op.inode_nr in
    let grown =
      (alloc_block inode disk.data_reg s.cached (sub32 (blocks_of offset) inode.blocks)).0 in
    let inode' = grown.inode in
    record s {
      disk = record {
        inode_reg = put disk.inode_reg op.inode_nr (record inode' { size = u32 offset });
        data_reg = grown.mem;
      };
      cached = grown.cached;
    }

extend_mapped :
    (p offset : ℕ) (s : Vsfs)
    → s.cached_mapped ≡ true
    → extend p offset s ≡ done (extended p offset s)
unfolding extend
extend_mapped p offset s e = simp e refl

added_blocks :
    (p offset : ℕ) (s : Vsfs)
    → offset ≤ 0x100000000
    → let inode = s.disk.inode_reg (s.op_ftable p).inode_nr in
      inode.blocks ≤ blocks_of offset
      → (alloc_block inode s.disk.data_reg s.cached
          (sub32 (blocks_of offset) inode.blocks)).0.inode.blocks
        ≡ blocks_of offset
added_blocks p offset s fits less =
    let inode = s.disk.inode_reg (s.op_ftable p).inode_nr in
    let bound : blocks_of offset ≤ 1048576 = ground arith in
    let e : sub32 (blocks_of offset) inode.blocks ≡ blocks_of offset - inode.blocks = omega arith in
    let g =
      alloc_block-IsAllocated inode s.disk.data_reg s.cached (sub32 (blocks_of offset) inode.blocks)
        (omega (arith, bound)) (omega (arith, bound)) in
    ground (arith, g.blocks, e, bound)

abbrev grown_inode : (p offset : ℕ) → Vsfs → Inode
grown_inode p offset s =
    let inode = s.disk.inode_reg (s.op_ftable p).inode_nr in
    (alloc_block inode s.disk.data_reg s.cached (sub32 (blocks_of offset) inode.blocks)).0.inode

file_of-extended :
    (e : FdEntry) (offset : ℕ) (s : Vsfs)
    → file_of e (set_offset e.ptr offset (extended e.ptr offset s))
      ≡ record (grown_inode e.ptr offset s) { size = u32 offset }
file_of-extended e offset s =
    let nr = (s.op_ftable e.ptr).inode_nr in simp (eq→== e.ptr e.ptr refl, eq→== nr nr refl) refl

self_offset :
    (e : FdEntry) (offset : ℕ) (s : Vsfs)
    → ((set_offset e.ptr offset (extended e.ptr offset s)).op_ftable e.ptr).offset ≡ offset
self_offset e offset s = simp (eq→== e.ptr e.ptr refl) refl

-- A seek from the start to an offset past the end of the file, up to 4 GiB, extends the file to
-- that size with as many blocks as it takes, moves the descriptor there and returns the offset.
-- This holds while the cached objects are mapped and the file has no more blocks than that.
pub vsfs_lseek_past :
    (fd offset : ℕ) (e : FdEntry) (s : Vsfs)
    → IsOpen fd e s
    → s.cached_mapped ≡ true
    → file_size (file_of e s) < offset
    → offset ≤ 0x100000000
    → (file_of e s).blocks ≤ blocks_of offset
    → (s' : Vsfs) × (vsfs_lseek fd offset seek_set s ≡ done (s', offset)) × IsExtended e offset s'
vsfs_lseek_past fd offset e s is cached past fits less =
    let g = added_blocks e.ptr offset s fits less in
    let in_range : ltb 0x100000000 offset ≡ false = le→ltb _ _ fits in
    let beyond : ltb (file_size (file_of e s)) offset ≡ true = lt→ltb _ _ past in
    let same = file_of-extended e offset s in
    (
      set_offset e.ptr offset (extended e.ptr offset s),
      vsfs_lseek-open fd offset seek_set e s is
          ∙ unfold lseek_file lseek_set in
            simp (in_range, beyond, extend_mapped e.ptr offset s cached) refl,
      record {
        moved = self_offset e offset s;
        size = rw same (file_size-u32 (grown_inode e.ptr offset s) offset g (omega arith) fits);
        blocks = rw same g;
      },
    )

-- A seek from the descriptor's offset or from the end of the file returns the new offset of the
-- descriptor or the error, and leaves that offset within the file, if it was so before.
pub vsfs_lseek_bounds :
    (fd offset whence : ℕ) (e : FdEntry) (s : Vsfs)
    → IsOpen fd e s
    → (whence ≡ seek_cur) ⊎ (whence ≡ seek_end)
    → (s.op_ftable e.ptr).offset ≤ file_size (file_of e s)
    → (s' : Vsfs) × (r : ℕ) × (vsfs_lseek fd offset whence s ≡ done (s', r))
      × ((r ≡ seek_error) ⊎ (r ≡ (s'.op_ftable e.ptr).offset))
      × ((s'.op_ftable e.ptr).offset ≤ file_size (file_of e s'))
vsfs_lseek_bounds fd offset whence e s is relative within = elim relative [
  | inl cur ↦
      let (s', r, f, g, h) = moved (s.op_ftable e.ptr).offset within in
      (s', r, rw cur (vsfs_lseek-open fd offset seek_cur e s is ∙ unfold lseek_file in f), g, h)
  | inr end ↦
      let (s', r, f, g, h) = moved (file_of e s).size (unfold file_size in ground arith) in
      (s', r, rw end (vsfs_lseek-open fd offset seek_end e s is ∙ unfold lseek_file in f), g, h)
]
  where
    nr : ℕ
    nr = (s.op_ftable e.ptr).inode_nr

    moved :
        (base : ℕ)
        → base ≤ file_size (file_of e s)
        → (s' : Vsfs) × (r : ℕ) × (done (lseek_from e.ptr base offset s) ≡ done (s', r))
          × ((r ≡ seek_error) ⊎ (r ≡ (s'.op_ftable e.ptr).offset))
          × ((s'.op_ftable e.ptr).offset ≤ file_size (file_of e s'))
    moved base le = elim (Bool-cases (ltb (file_size (file_of e s)) (u64 (base + offset)))) [
      | inl past ↦ (
        set_offset e.ptr base s,
        seek_error,
        unfold lseek_from in rw past refl,
        inl refl,
        simp (eq→== e.ptr e.ptr refl) le,
      )
      | inr there ↦ (
        set_offset e.ptr (u64 (base + offset)) s,
        u64 (base + offset),
        unfold lseek_from in rw there refl,
        inr (simp (eq→== e.ptr e.ptr refl) refl),
        simp (eq→== e.ptr e.ptr refl) (ltb→le _ _ there),
      )
    ]
