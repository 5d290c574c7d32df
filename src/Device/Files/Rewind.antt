-- ===== src/Device/Files/Rewind.antt =====
-- `vsfs_write`, `vsfs_lseek` to the start and `vsfs_read`, through one descriptor of
-- src/inc/vsfsio_spdk.h.
use test_vsfs.Prelude.{
  ℕ, ◌+◌, ◌^◌, ◌≤◌, ◌<◌, ◌≡◌, refl, arith, ◌∙◌, ap, ne→==, eq→==, ◌==◌, true, false, le→ltb,
}
use test_vsfs.Word.{minus_one, ℤ}
use test_vsfs.Memory.{Memory}
use test_vsfs.State.{FdEntry, Run, done, fault}
use test_vsfs.FileIo.Seek.{seek_set}
use test_vsfs.Blocks.{needed_blocks}
use test_vsfs.Spdk.{Nvme}
use test_vsfs.Device.State.{Mounted, Scratch, InodeReg, null_reg, cached_reg, stale_reg, inode_of}
use test_vsfs.Device.Read.{read_dblock}
use test_vsfs.Device.Files.{
  write_data, vsfs_write, vsfs_lseek, lseek_file, lseek_set, set_offset, vsfs_read, read_file,
}
use test_vsfs.Device.Files.Target.{IsReady, mapped, vsfs_lseek_at}
use test_vsfs.Device.Files.Store.{vsfs_write_at}

module _ (nvme : Nvme) (now : ℕ) (scratch : Scratch) (fd : ℕ) (e : FdEntry) (s : Mounted nvme.Ns)
    (ready : IsReady fd e s) (found : s.inode_reg ≡ cached_reg) where
  lseek_zero : lseek_file nvme scratch seek_set e.ptr 0 s ≡ done (set_offset nvme e.ptr 0 s, 0)
  unfolding lseek_file lseek_set
  lseek_zero = rw (le→ltb (s.op_ftable e.ptr).file_ptr.size 0 (omega arith)) refl

  rewind : vsfs_lseek nvme scratch fd 0 seek_set s ≡ done (set_offset nvme e.ptr 0 s, 0)
  rewind = vsfs_lseek_at nvme scratch fd e s ready found 0 seek_set ∙ lseek_zero

  read_file_at :
      (n : ℕ) (buf : Memory)
      → (s.op_ftable e.ptr).file_ptr.size ≡ (s.op_ftable e.ptr).offset
      → read_file nvme now n e.ptr buf s ≡ ((read_file nvme now n e.ptr buf s).0, minus_one, buf)
  unfolding read_file read_dblock
  read_file_at n buf z =
      rw (eq→== (s.op_ftable e.ptr).file_ptr.size (s.op_ftable e.ptr).offset z) refl

  vsfs_read_at :
      (n : ℕ) (buf : Memory)
      → vsfs_read nvme now fd n buf s ≡ done (read_file nvme now n e.ptr buf s)
  unfolding vsfs_read
  vsfs_read_at n buf =
      let f : (e.flags == 1) ≡ false = ne→== e.flags 1 (omega (arith, ready.flags)) in
      rw (vsfs_read, mapped nvme fd e s ready, ready.found, f)
        (ap
          (λ (r : InodeReg). elim r as (λ x. Run (Mounted nvme.Ns × ℤ × Memory)) [
            | null_reg ↦ fault
            | cached_reg ↦ done (read_file nvme now n e.ptr buf s)
            | stale_reg ↦ fault
          ])
          found)

module _ (nvme : Nvme) (now : ℕ) (scratch : Scratch) (fd : ℕ) (e : FdEntry) (buf : ℕ → ℕ)
    (nbyte : ℕ) (s : Mounted nvme.Ns) (ready : IsReady fd e s) where
  abbrev after : Mounted nvme.Ns × ℤ
  after = write_data nvme now scratch buf nbyte e.ptr (record s { inode_reg = cached_reg })

  -- For a descriptor that is open for reading and writing, a file that is empty by its `file_ptr`
  -- and has more blocks than the range needs, and a range up to 4 GiB: after `vsfs_write`, and
  -- `vsfs_lseek` back to the start, `vsfs_read` through the same descriptor returns -1 and gives
  -- nothing, however many bytes were written.
  pub vsfs_read-rewound :
      (s.op_ftable e.ptr).file_ptr.size ≡ 0
      → (s.op_ftable e.ptr).offset + nbyte ≤ 2 ^ 32
      → needed_blocks (s.op_ftable e.ptr).offset nbyte < (inode_of e.ptr s).blocks
      → (n : ℕ) (out : Memory)
      → (s1 s2 s3 : Mounted nvme.Ns) × (r : ℤ) × (vsfs_write nvme now scratch fd buf nbyte s
          ≡ done (s1, r))
        × (vsfs_lseek nvme scratch fd 0 seek_set s1 ≡ done (s2, 0))
        × (vsfs_read nvme now fd n out s2 ≡ done (s3, minus_one, out))
  unfolding write_data
  vsfs_read-rewound empty within enough n out =
      let here : (e.ptr == e.ptr) ≡ true = eq→== e.ptr e.ptr refl in
      let ready1 : IsReady fd e after.0 = record {
        optab = ready.optab;
        copy = ready.copy;
        found = ready.found;
        flags = ready.flags;
      } in
      let s2 = set_offset nvme e.ptr 0 after.0 in
      let ready2 : IsReady fd e s2 = record {
        optab = ready.optab;
        copy = ready.copy;
        found = ready.found;
        flags = ready.flags;
      } in
      let start : (s2.op_ftable e.ptr).file_ptr.size ≡ (s2.op_ftable e.ptr).offset =
        rw here empty in
      (
        after.0,
        s2,
        (read_file nvme now n e.ptr out s2).0,
        after.1,
        vsfs_write_at nvme now scratch fd e buf nbyte s ready within enough,
        rewind nvme now scratch fd e after.0 ready1 refl,
        vsfs_read_at nvme now scratch fd e s2 ready2 refl n out
            ∙ ap done (read_file_at nvme now scratch fd e s2 ready2 refl n out start),
      )
