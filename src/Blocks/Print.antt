-- ===== src/Blocks/Print.antt =====
-- `vsfs_print_block_nbr` of src/inc/vsfsio.h: the lines and the numbers that it prints.
use test_vsfs.Prelude.{ℕ, zero, suc, ◌+◌, ◌-◌, List, [], ◌∷◌, ◌++◌, ltb, ◌==◌, if◌then◌else◌}
use test_vsfs.Memory.{Memory, load32}
use test_vsfs.Layout.{Inode, pointer_addr}

-- A heading with its arguments, or one block number.
pub data Printed : Type 0 where
  level1 : Printed
  level2 : (i blk : ℕ) → Printed
  level3 : (blk : ℕ) → Printed
  nbr : ℕ → Printed

-- What was printed, and `blks` afterwards.
abbrev pub Output : Type 0
Output = List Printed × ℕ

abbrev pub then_print : List Printed → Output → Output
then_print ps (qs, blks) = (ps ++ qs, blks)

pub print_l1 : Inode → (rounds i blks : ℕ) → Output
print_l1 inode zero i blks = ([], blks)
print_l1 inode (suc rounds) i blks =
    let rest = print_l1 inode rounds (i + 1) (blks - 1) in
    if ltb 0 blks then then_print (nbr (inode.l1 i) ∷ []) rest else ([], blks)

pub print_pointers : Memory → (blk rounds j blks : ℕ) → Output
print_pointers m blk zero j blks = ([], blks)
print_pointers m blk (suc rounds) j blks =
    let rest = print_pointers m blk rounds (j + 1) (blks - 1) in
    if ltb 0 blks then then_print (nbr (load32 m (pointer_addr blk j)) ∷ []) rest else ([], blks)

-- The pointer blocks `blk i`, for the rounds that are left.
pub print_l2 : Memory → (blk : ℕ → ℕ) → (rounds i blks : ℕ) → Output
print_l2 m blk zero i blks = ([], blks)
print_l2 m blk (suc rounds) i blks =
    let (numbers, left) = print_pointers m (blk i) 1024 0 blks in
    let rest = print_l2 m blk rounds (i + 1) left in
    if ltb 0 blks then then_print (level2 i (blk i) ∷ numbers) rest else ([], blks)

unfoldable pub print_block_nbr : Inode → Memory → List Printed
unfolding print_l1 print_pointers print_l2
print_block_nbr inode m =
    let (first, left1) = print_l1 inode 49 0 inode.blocks in
    let (second, left2) = print_l2 m inode.l2 5 0 left1 in
    let (third, _) = print_l2 m (λ i. load32 m (pointer_addr (inode.l3 0) i)) 1024 0 left2 in
    if left1 == 0
    then level1 ∷ first
    else if left2 == 0
    then level1 ∷ (first ++ second)
    else level1 ∷ (first ++ (second ++ level3 (inode.l3 0) ∷ third))
