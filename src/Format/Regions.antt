-- ===== src/Format/Regions.antt =====
-- The regions of the image: the superblock's offsets and sizes, and which block stands where.
use test_vsfs.Prelude.{
  ℕ, zero, suc, ◌+◌, ◌-◌, ◌*◌, ◌/◌, ◌^◌, ◌<◌, ◌≤◌, ◌≡◌, refl, arith, List, [], ◌∷◌, ◌++◌, some,
  length, length-append, get_elem?, get_elem?-append, get_elem?-append_left, ◌∙◌,
}
use test_vsfs.Memory.{Memory}
use test_vsfs.Layout.{SbInfo, put}
use test_vsfs.Format.{
  idiv_ceil, write_superblock, Block, superblock, inodes, bitmap, directory, zero_inode, root_inode,
  repeat, write_inode_region, all_ones, first_words, write_inode_bitmap, write_data_bitmap,
  write_data_region, mkfs,
}

-- The regions follow each other and fill the device, and the free map of the blocks has a bit for
-- each block of the data region and no block to spare.
pub record IsLaidOut (nr_blocks : ℕ) (info : SbInfo) : Type 0 where
  pub whole : info.nr_blocks ≡ nr_blocks
  pub ibitmap : info.ofs_ibitmap ≡ 1
  pub iregion : info.ofs_iregion ≡ info.ofs_ibitmap + info.nr_ibitmap_blocks
  pub dbitmap : info.ofs_dbitmap ≡ info.ofs_iregion + info.nr_iregion_blocks
  pub dregion : info.ofs_dregion ≡ info.ofs_dbitmap + info.nr_dbitmap_blocks
  pub filled : info.ofs_dregion + info.nr_dregion_blocks ≡ nr_blocks
  pub a_block : 0 < info.nr_dbitmap_blocks
  pub enough_bits : info.nr_dregion_blocks ≤ 32768 * info.nr_dbitmap_blocks
  pub no_spare :
      32768 * (info.nr_dbitmap_blocks - 1) < info.nr_dregion_blocks + info.nr_dbitmap_blocks
  pub free : info.nr_free_dblock + 1 ≡ info.nr_dregion_blocks

-- For a device of 2052 to 2 ^ 32 - 1 blocks of 4 KiB, `write_superblock` lays the regions out one
-- after the other up to the last block, with a free map of the data region that has a bit for each
-- of its blocks.
pub write_superblock-IsLaidOut :
    (st_size : ℕ)
    → 2052 ≤ st_size / 4096
    → st_size / 4096 < 2 ^ 32
    → IsLaidOut (st_size / 4096) (write_superblock st_size)
unfolding write_superblock idiv_ceil
write_superblock-IsLaidOut st_size big small = record {
  whole = omega arith;
  ibitmap = refl;
  iregion = refl;
  dbitmap = refl;
  dregion = ground arith;
  filled = ground arith;
  a_block = ground arith;
  enough_bits = ground arith;
  no_spare = ground arith;
  free = ground arith;
}

length-repeat : (n : ℕ) (b : Block) → length (repeat n b) ≡ n
unfolding repeat
length-repeat zero b = refl
length-repeat (suc n) b = omega (arith, length-repeat n b)

get_elem?-repeat : (n : ℕ) (b : Block) (i : ℕ) → i < n → get_elem? (repeat n b) i ≡ some b
unfolding repeat
get_elem?-repeat zero b i h = absurd (omega arith)
get_elem?-repeat (suc n) b zero h = refl
get_elem?-repeat (suc n) b (suc i) h = get_elem?-repeat n b i (omega arith)

-- The part of `xs ++ ys` from `n`, the length of `xs`, on.
get_elem?-skip :
    (xs ys : List Block) (n i : ℕ) → length xs ≡ n → get_elem? (xs ++ ys) (n + i) ≡ get_elem? ys i
get_elem?-skip xs ys n i e = rw e at (get_elem?-append xs ys i)

-- What the image holds: one block of each kind where the superblock says, zeros in the rest of the
-- inode region, ones in the rest of the free map.
pub record IsImage (info : SbInfo) (image : List Block) (root : Memory) : Type 0 where
  pub super : get_elem? image 0 ≡ some (superblock info)
  pub ibitmap : get_elem? image info.ofs_ibitmap ≡ some (bitmap first_words)
  pub root_inode :
      get_elem? image info.ofs_iregion ≡ some (inodes (put (λ _. zero_inode) 0 root_inode))
  pub no_inodes :
      (k : ℕ)
      → k + 1 < info.nr_iregion_blocks
      → get_elem? image (info.ofs_iregion + (k + 1)) ≡ some (inodes (λ _. zero_inode))
  pub dbitmap : get_elem? image info.ofs_dbitmap ≡ some (bitmap first_words)
  pub all_free :
      (k : ℕ)
      → k + 1 < info.nr_dbitmap_blocks
      → get_elem? image (info.ofs_dbitmap + (k + 1)) ≡ some (bitmap (λ _. all_ones))
  pub root_block : get_elem? image info.ofs_dregion ≡ some (directory root)
  pub end : length image ≡ info.ofs_dregion + 1

module _ (info : SbInfo) (nr_blocks : ℕ) (laid : IsLaidOut nr_blocks info)
    (sized : info.nr_iregion_blocks ≡ 2048) (one : info.nr_ibitmap_blocks ≡ 1) (root : Memory) where
  abbrev zeros : List Block
  zeros = repeat 2047 (inodes (λ _. zero_inode))

  abbrev ones : List Block
  ones = repeat (info.nr_dbitmap_blocks - 1) (bitmap (λ _. all_ones))

  abbrev last : List Block
  last = directory root ∷ []

  -- The image from block 3 on, from the free map on, and behind its first block.
  abbrev from_map : List Block
  from_map = bitmap first_words ∷ (ones ++ last)

  abbrev image : List Block
  image =
      superblock info
      ∷ bitmap first_words
      ∷ inodes (put (λ _. zero_inode) 0 root_inode)
      ∷ (zeros ++ from_map)

  at_map : (i : ℕ) → get_elem? image (2050 + i) ≡ get_elem? from_map i
  at_map i =
      let e : 2050 + i ≡ suc (suc (suc (2047 + i))) = omega arith in
      rw e (get_elem?-skip zeros from_map 2047 i (length-repeat 2047 (inodes (λ _. zero_inode))))

  a_zero :
      (k : ℕ)
      → k + 1 < info.nr_iregion_blocks
      → get_elem? image (info.ofs_iregion + (k + 1)) ≡ some (inodes (λ _. zero_inode))
  a_zero k h =
      let e : info.ofs_iregion + (k + 1) ≡ suc (suc (suc k)) =
        omega (arith, laid.ibitmap, laid.iregion) in
      rw e (
        get_elem?-append_left zeros from_map k
          (omega (arith, length-repeat 2047 (inodes (λ _. zero_inode))))
        ∙ get_elem?-repeat 2047 (inodes (λ _. zero_inode)) k (omega arith))

  a_one :
      (k : ℕ)
      → k + 1 < info.nr_dbitmap_blocks
      → get_elem? image (info.ofs_dbitmap + (k + 1)) ≡ some (bitmap (λ _. all_ones))
  a_one k h =
      let e : info.ofs_dbitmap + (k + 1) ≡ 2050 + suc k =
        omega (arith, laid.ibitmap, laid.iregion, laid.dbitmap) in
      let n = info.nr_dbitmap_blocks - 1 in
      rw e (
        at_map (suc k)
        ∙ get_elem?-append_left ones last k
            (omega (arith, length-repeat n (bitmap (λ _. all_ones))))
        ∙ get_elem?-repeat n (bitmap (λ _. all_ones)) k (omega arith))

  whole_length : length image ≡ 2051 + info.nr_dbitmap_blocks
  whole_length = omega (
    arith,
    length-append zeros from_map,
    length-append ones last,
    laid.a_block,
    length-repeat 2047 (inodes (λ _. zero_inode)),
    length-repeat (info.nr_dbitmap_blocks - 1) (bitmap (λ _. all_ones)),
  )

  image-IsImage : IsImage info image root
  image-IsImage =
      let a : info.ofs_ibitmap ≡ 1 = laid.ibitmap in
      let b : info.ofs_iregion ≡ 2 = omega (arith, laid.ibitmap, laid.iregion) in
      let c : info.ofs_dbitmap ≡ 2050 + 0 = omega (arith, b, laid.dbitmap) in
      let d : info.ofs_dregion ≡ 2050 + suc (info.nr_dbitmap_blocks - 1 + 0) =
        omega (arith, c, laid.dregion, laid.a_block) in
      record {
        super = refl;
        ibitmap = rw a refl;
        root_inode = rw b refl;
        no_inodes = a_zero;
        dbitmap = rw c (at_map 0);
        all_free = a_one;
        root_block = rw d (
            at_map (suc (info.nr_dbitmap_blocks - 1 + 0))
            ∙ get_elem?-skip ones last (info.nr_dbitmap_blocks - 1) 0
                (length-repeat _ (bitmap (λ _. all_ones))));
        end = rw d (omega (arith, whole_length));
      }

-- For a device of 2052 to 2 ^ 32 - 1 blocks, `mkfs` writes the superblock, the free map of the
-- inodes, the inodes with the root, the free map of the blocks and the root's block, each where the
-- superblock says, and nothing behind the root's block.
pub mkfs-IsImage :
    (st_size : ℕ) (left_over : Memory)
    → 2052 ≤ st_size / 4096
    → st_size / 4096 < 2 ^ 32
    → (root : Memory) × (write_data_region left_over ≡ directory root ∷ [])
      × IsImage (write_superblock st_size) (mkfs st_size left_over) root
unfolding mkfs write_inode_region write_inode_bitmap write_data_bitmap write_data_region
    write_superblock
mkfs-IsImage st_size left_over big small = (
  _,
  refl,
  image-IsImage (write_superblock st_size) (st_size / 4096)
      (write_superblock-IsLaidOut st_size big small) refl refl _,
)
