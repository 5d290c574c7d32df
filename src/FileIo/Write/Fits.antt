-- ===== src/FileIo/Write/Fits.antt =====
-- `vsfs_write` where the file has the blocks already.
use test_vsfs.Prelude.{
  lt→ltb, eq→==, ◌==◌, ℕ, ◌+◌, ◌/◌, ◌^◌, ◌≤◌, ◌<◌, ◌≡◌, ◌≢◌, refl, arith, ltb, leb, true, false,
  Bool-cases, le→ltb, leb→le, ◌∙◌, ne→==, ap, inl, inr,
}
use test_vsfs.Word.{minus_one, u32, u64, sub32}
use test_vsfs.Layout.{write_limit, Inode, put}
use test_vsfs.Blocks.{needed_blocks}
use test_vsfs.Blocks.Idle.{alloc_block-idle}
use test_vsfs.State.{FdEntry, Vsfs, done}
use test_vsfs.Session.{o_rdonly}
use test_vsfs.FileIo.{Copy}
use test_vsfs.FileIo.Target.{IsOpen, file_of}
use test_vsfs.FileIo.Write.{write_dblock, write_file, written, vsfs_write}

-- The inode after a write: the file ends behind the bytes written.
abbrev pub resized : (now : ℕ) → Inode → Copy → Inode
resized now inode copy = record inode { size = u32 copy.pos; atime = now; mtime = now }

-- The state after `copy` was written through entry `p` to a file that did not grow.
abbrev pub after_write : (now p : ℕ) → Copy → Vsfs → Vsfs
after_write now p copy s =
    let op = s.op_ftable p in
    let disk = s.disk in
    record s {
      disk = record {
        inode_reg = put disk.inode_reg op.inode_nr (resized now (disk.inode_reg op.inode_nr) copy);
        data_reg = copy.mem;
      };
      op_ftable = put s.op_ftable p (record op { offset = copy.pos });
    }

-- The descriptor may be written through, and the file has room for `nbyte` bytes more.
pub record HasRoom (fd nbyte : ℕ) (e : FdEntry) (s : Vsfs) : Type 0 where
  pub is_open : IsOpen fd e s
  pub cached : s.cached_mapped ≡ true
  pub writable : e.flags ≢ o_rdonly
  pub below_limit : (s.op_ftable e.ptr).offset + nbyte < 2 ^ 32
  pub enough : needed_blocks (s.op_ftable e.ptr).offset nbyte ≤ (file_of e s).blocks
  pub not_root : (file_of e s).blocks ≢ 5169
  pub in_word : (file_of e s).blocks < 2 ^ 32

module _ (now fd nbyte : ℕ) (buf : ℕ → ℕ) (e : FdEntry) (s : Vsfs)
    (has : HasRoom fd nbyte e s) where
  abbrev copy : Copy
  copy = write_dblock buf (file_of e s) s.disk.data_reg (s.op_ftable e.ptr).offset nbyte

  write_file-fits : write_file now buf nbyte e.ptr s ≡ (after_write now e.ptr copy s, written copy)
  unfolding write_file
  write_file-fits =
      let total = needed_blocks (s.op_ftable e.ptr).offset nbyte in
      elim (Bool-cases (leb (file_of e s).blocks total)) [
        | inl full ↦
            let le = leb→le _ _ full in
            let need : sub32 total (file_of e s).blocks ≡ 0 =
              omega (arith, has.enough, has.in_word) in
            let idle =
              alloc_block-idle (file_of e s) s.disk.data_reg s.cached has.not_root has.in_word in
            simp (full, need, idle) refl
        | inr more ↦ simp more refl
      ]

  vsfs_write-open : vsfs_write now fd buf nbyte s ≡ done (write_file now buf nbyte e.ptr s)
  unfolding vsfs_write
  vsfs_write-open =
      let o = (s.op_ftable e.ptr).offset in
      let is = has.is_open in
      let small = has.below_limit in
      let a : ltb 4294972465 (u64 (o + nbyte)) ≡ false = le→ltb _ _ (omega arith) in
      let b : ltb 0x100000000 (u64 (o + nbyte) / 4096) ≡ false = le→ltb _ _ (omega arith) in
      rw (is.found, vsfs_write)
        (simp (is.sb, is.optab, has.cached, ne→== _ _ has.writable, a, b) refl)

  -- Where the descriptor is open and not read-only, the cached objects are mapped, and the file's
  -- blocks, which are not exactly 5169, hold the bytes up to the end of the write, below 4 GiB,
  -- `vsfs_write` is `__write_dblock`: no block is taken, the result is what was written, the size of
  -- the file is where the write ends, and so is the offset.
  pub vsfs_write-fits :
      vsfs_write now fd buf nbyte s ≡ done (after_write now e.ptr copy s, written copy)
  vsfs_write-fits = vsfs_write-open ∙ ap done write_file-fits

-- What `vsfs_write` refuses.
pub data IsRefused (nbyte : ℕ) (e : FdEntry) (s : Vsfs) : Type 0 where
  read_only : e.flags ≡ o_rdonly → IsRefused nbyte e s
  no_cached : s.cached_mapped ≡ false → IsRefused nbyte e s
  too_long :
      write_limit < (s.op_ftable e.ptr).offset + nbyte
      → (s.op_ftable e.ptr).offset + nbyte < 2 ^ 64
      → IsRefused nbyte e s

-- Through an open descriptor that is read-only, without the cached objects, or for a write that
-- ends above 4294972465 bytes and below 2 ^ 64, `vsfs_write` returns -1 and changes nothing.
pub vsfs_write_refused :
    (now fd nbyte : ℕ) (buf : ℕ → ℕ) (e : FdEntry) (s : Vsfs)
    → IsOpen fd e s
    → IsRefused nbyte e s
    → vsfs_write now fd buf nbyte s ≡ done (s, minus_one)
unfolding vsfs_write
vsfs_write_refused now fd nbyte buf e s is (read_only r) =
    rw (is.found, vsfs_write) (simp (is.sb, is.optab, eq→== _ _ r) refl)
vsfs_write_refused now fd nbyte buf e s is (no_cached c) =
    rw (is.found, vsfs_write)
      (elim (Bool-cases (e.flags == o_rdonly)) [
        | inl r ↦ simp (is.sb, is.optab, r) refl
        | inr w ↦ simp (is.sb, is.optab, w, c) refl
      ])
vsfs_write_refused now fd nbyte buf e s is (too_long past fits) =
    let long : ltb 4294972465 (u64 ((s.op_ftable e.ptr).offset + nbyte)) ≡ true =
      lt→ltb _ _ (omega arith) in
    rw (is.found, vsfs_write)
      (elim (Bool-cases (e.flags == o_rdonly)) [
        | inl r ↦ simp (is.sb, is.optab, r) refl
        | inr w ↦ elim (Bool-cases s.cached_mapped) [
          | inl m ↦ simp (is.sb, is.optab, w, m, long) refl
          | inr m ↦ simp (is.sb, is.optab, w, m) refl
        ]
      ])
