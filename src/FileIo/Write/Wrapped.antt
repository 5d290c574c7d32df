-- ===== src/FileIo/Write/Wrapped.antt =====
-- `__write_dblock` at a block number that the 16 bits of `start_block_l1` do not hold.
use test_vsfs.Prelude.{
  ℕ, suc, ◌+◌, ◌-◌, ◌/◌, ◌%◌, ◌≤◌, ◌<◌, ◌≡◌, refl, arith, leb, ◌==◌, false, true, lt→leb, eq→==,
  ◌∙◌,
}
use test_vsfs.Word.{u16}
use test_vsfs.Memory.{Memory}
use test_vsfs.Layout.{Inode}
use test_vsfs.FileIo.{Copy, start}
use test_vsfs.FileIo.Write.{write_chunk, write_l1, write_level1, write_dblock}
use test_vsfs.FileIo.Write.Levels.{write_l1_step, write_l1_stop}

module _ (buf : ℕ → ℕ) (inode : Inode) (mem : Memory) (offset nbyte i : ℕ) where
  abbrev s : Copy
  s = start mem offset nbyte

  one_chunk :
      (rounds : ℕ)
      → 0 < nbyte
      → offset % 4096 + nbyte ≤ 4096
      → write_l1 buf inode (suc rounds) i s ≡ write_chunk buf (inode.l1 i) s
  one_chunk rounds some_byte fits =
      write_l1_step buf inode (λ _. 0) 0 rounds i s some_byte
      ∙ write_l1_stop buf inode (λ _. 0) 0 rounds (i + 1) (write_chunk buf (inode.l1 i) s)
          (unfold write_chunk in ground arith)

  -- A write of 1 byte or more within one block, at an offset whose block number is `i` below 49 in
  -- its low 16 bits, goes to the block `l1[i]`, and so overwrites that block of the file for an
  -- offset of 256 MiB or more.
  pub write_dblock_wrapped :
      u16 (offset / 4096) ≡ i
      → i < 49
      → 0 < nbyte
      → offset % 4096 + nbyte ≤ 4096
      → write_dblock buf inode mem offset nbyte ≡ write_chunk buf (inode.l1 i) s
  unfolding write_dblock write_level1
  write_dblock_wrapped low small some_byte fits =
      let e1 : leb 5169 (u16 (offset / 4096)) ≡ false = lt→leb _ _ (omega arith) in
      let e2 : leb 49 (u16 (offset / 4096)) ≡ false = lt→leb _ _ (omega arith) in
      let e3 : 49 - i ≡ suc (48 - i) = omega arith in
      let none : ((write_chunk buf (inode.l1 i) s).left == 0) ≡ true =
        eq→== _ _ (unfold write_chunk in ground arith) in
      rw (e1, e2, low, e3, one_chunk (48 - i) some_byte fits, none) refl
