-- ===== src/Bitmap.antt =====
-- The free maps of src/inc/vsfs_bitmap.h: a set bit is a free inode or a free data block.
-- A word is read one binary digit at a time, lowest first, which is what `1 << n` selects.
pub mod Width
pub mod Bits
pub mod Search
pub mod FirstFree
pub mod Counts
pub mod Handed
use test_vsfs.Prelude.{
  ℕ, zero, suc, ◌+◌, ◌-◌, ◌*◌, ◌/◌, ◌%◌, ◌^◌, Bool, true, false, Option, none, some, ltb, ◌==◌,
  if◌then◌else◌,
}
use test_vsfs.Word.{u32, sub32}
use test_vsfs.Layout.{SbInfo, Inode, Cached, block_size, nr_inodes, put}

-- Bit `n` of a word: `(w >> n) & 1`.
unfoldable pub bit : ℕ → ℕ → ℕ
bit w zero = w % 2
bit w (suc n) = bit (w / 2) n

-- `w & ~(1 << n)`
pub clear_bit : ℕ → ℕ → ℕ
clear_bit w zero = w / 2 * 2
clear_bit w (suc n) = clear_bit (w / 2) n * 2 + w % 2

-- `w | 1 << n`
pub set_bit : ℕ → ℕ → ℕ
set_bit w zero = w / 2 * 2 + 1
set_bit w (suc n) = set_bit (w / 2) n * 2 + w % 2

-- `__builtin_ffs(w) - 1`, the place of the lowest set bit among the first `width` digits.
pub ffs : (width : ℕ) → ℕ → ℕ
ffs zero w = 0
ffs (suc k) w = let above = ffs k (w / 2) in if w % 2 == 1 then 0 else above + 1

pub record Found : Type 0 where
  pub freemap : ℕ → ℕ
  pub index : ℕ

-- `rounds` is `limit - count`.
pub scan : (freemap : ℕ → ℕ) → (rounds count : ℕ) → Found
unfolding clear_bit ffs
scan freemap zero count = record { freemap = freemap; index = 0 }
scan freemap (suc rounds) count =
    let rest = scan freemap rounds (count + 1) in
    let n = ffs 32 (freemap count) in
    if freemap count == 0 then rest else record {
      freemap = put freemap count (clear_bit (freemap count) n);
      index = u32 (count * 32 + n);
    }

unfoldable pub get_first_free_bit : (freemap : ℕ → ℕ) → (size : ℕ) → Found
unfolding scan
get_first_free_bit freemap size = let limit = u32 (size / 4) in scan freemap limit 0

claim_inode : Cached → Found → Cached × ℕ
claim_inode cd found =
    let sbi = cd.sbi in
    (
      record cd {
        ibitmap = found.freemap;
        sbi =
            if found.index == 0
            then sbi
            else record sbi { nr_free_inodes = sub32 sbi.nr_free_inodes 1 };
      },
      found.index,
    )

-- The size is computed in 32 bits before it is widened.
unfoldable pub get_free_inode : Cached → Cached × ℕ
unfolding claim_inode
get_free_inode cd =
    claim_inode cd (get_first_free_bit cd.ibitmap (u32 (block_size * cd.sbi.nr_ibitmap_blocks)))

claim_dblock : Cached → Found → Cached × ℕ
claim_dblock cd found =
    let sbi = cd.sbi in
    (
      record cd {
        dbitmap = found.freemap;
        sbi =
            if found.index == 0
            then sbi
            else record sbi { nr_free_dblock = sub32 sbi.nr_free_dblock 1 };
      },
      found.index,
    )

pub get_free_dblock : Cached → Cached × ℕ
unfolding claim_dblock
get_free_dblock cd =
    claim_dblock cd (get_first_free_bit cd.dbitmap (u32 (block_size * cd.sbi.nr_dregion_blocks)))

-- The size argument is ignored, and the result is always 0.
pub put_free_bit : (freemap : ℕ → ℕ) → (size i : ℕ) → (ℕ → ℕ) × ℕ
unfolding set_bit
put_free_bit freemap size i = (put freemap (i / 32) (set_bit (freemap (i / 32)) (i % 32)), 0)

pub put_inode : Cached → ℕ → Cached
unfolding put_free_bit
put_inode cd ino =
    let (freemap, failed) = put_free_bit cd.ibitmap (nr_inodes / 8) ino in
    let sbi = cd.sbi in
    let marked = record cd { ibitmap = freemap } in
    if failed == 0
    then record marked { sbi = record sbi { nr_free_inodes = u32 (sbi.nr_free_inodes + 1) } }
    else marked

pub put_dblock : Cached → ℕ → Cached
unfolding put_free_bit
put_dblock cd bno =
    let (freemap, failed) = put_free_bit cd.dbitmap (cd.sbi.nr_dregion_blocks / 8) bno in
    let sbi = cd.sbi in
    let marked = record cd { dbitmap = freemap } in
    if failed == 0
    then record marked { sbi = record sbi { nr_free_dblock = u32 (sbi.nr_free_dblock + 1) } }
    else marked
