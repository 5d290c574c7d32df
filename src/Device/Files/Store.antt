-- ===== src/Device/Files/Store.antt =====
-- `vsfs_write` of src/inc/vsfsio_spdk.h on a file that has the blocks already.
use test_vsfs.Prelude.{
  ℕ, ◌+◌, ◌*◌, ◌/◌, ◌^◌, ◌≤◌, ◌<◌, ◌≡◌, ◌≢◌, refl, arith, ◌∙◌, ap, lt→leb, le→ltb, ltb, ◌==◌, ne→==,
  eq→==, true, false, if◌then◌else◌, Bool, not,
}
use test_vsfs.Word.{u32, u64, ℤ, to_int, minus_one}
use test_vsfs.Layout.{write_limit}
use test_vsfs.State.{FdEntry, done, fault}
use test_vsfs.FileIo.{byte_addr}
use test_vsfs.FileIo.Write.Laws.{IsDistinct}
use test_vsfs.Blocks.{needed_blocks}
use test_vsfs.Spdk.{Nvme, IsReliable}
use test_vsfs.Device.{region}
use test_vsfs.Device.State.{OpEntry, Mounted, Scratch, cached_reg, inode_of}
use test_vsfs.Device.Write.{write_dblock}
use test_vsfs.Device.Write.Whole.{IsStored, write_dblock-IsStored}
use test_vsfs.Device.Files.{write_data, write_file, vsfs_write}
use test_vsfs.Device.Files.Target.{IsReady}

-- The tests of `vsfs_write` where all of them pass.
guards :
    {A : Type 0} {optab rdonly copy limit size : Bool} (lost failed : A) {r : A}
    → optab ≡ true
    → rdonly ≡ false
    → copy ≡ true
    → limit ≡ false
    → size ≡ false
    → (if not optab
        then lost
        else if rdonly
        then failed
        else if not copy
        then failed
        else if limit
        then failed
        else if size
        then failed
        else r)
      ≡ r
guards lost failed e1 e2 e3 e4 e5 = rw (e1, e2, e3, e4, e5) refl

-- What a write leaves: its bytes on the device, the size in the inode, the offset in the entry; the
-- size in `file_ptr` is the one before.
pub record IsFiled (nvme : Nvme) (buf : ℕ → ℕ) (nbyte p : ℕ) (s d : Mounted nvme.Ns) : Type 0 where
  pub inside :
      (t : ℕ)
      → t < nbyte
      → region nvme s.cached.sbi.ofs_dregion d.ns
          (byte_addr (s.op_ftable p).file_ptr.block ((s.op_ftable p).offset + t))
        ≡ buf t
  pub outside :
      (a : ℕ)
      → ((t : ℕ)
          → t < nbyte
          → a ≢ byte_addr (s.op_ftable p).file_ptr.block ((s.op_ftable p).offset + t))
      → region nvme s.cached.sbi.ofs_dregion d.ns a ≡ region nvme s.cached.sbi.ofs_dregion s.ns a
  pub size : (inode_of p d).size ≡ u32 ((s.op_ftable p).offset + nbyte)
  pub offset : (d.op_ftable p).offset ≡ (s.op_ftable p).offset + nbyte
  pub file_size : (d.op_ftable p).file_ptr.size ≡ (s.op_ftable p).file_ptr.size

module _ (nvme : Nvme) (now : ℕ) (scratch : Scratch) (fd : ℕ) (e : FdEntry) (buf : ℕ → ℕ)
    (nbyte : ℕ) (s : Mounted nvme.Ns) (ready : IsReady fd e s) where
  abbrev op : OpEntry
  op = s.op_ftable e.ptr

  module _ (within : op.offset + nbyte ≤ 2 ^ 32)
      (enough : needed_blocks op.offset nbyte < (inode_of e.ptr s).blocks) where
    write_file_at :
        write_file nvme now scratch buf nbyte e.ptr s
        ≡ write_data nvme now scratch buf nbyte e.ptr (record s { inode_reg = cached_reg })
    unfolding write_file
    write_file_at =
        rw (lt→leb (inode_of e.ptr s).blocks (needed_blocks op.offset nbyte) enough) refl

    pub vsfs_write_at :
        vsfs_write nvme now scratch fd buf nbyte s
        ≡ done (write_data nvme now scratch buf nbyte e.ptr (record s { inode_reg = cached_reg }))
    unfolding vsfs_write
    vsfs_write_at =
        let limit : ltb write_limit (u64 (op.offset + nbyte)) ≡ false =
          le→ltb write_limit (u64 (op.offset + nbyte)) (omega arith) in
        let size : ltb 0x100000000 (u64 (op.offset + nbyte) / 4096) ≡ false =
          le→ltb 0x100000000 (u64 (op.offset + nbyte) / 4096) (omega arith) in
        rw (ready.found, vsfs_write)
          (guards fault (done (s, minus_one)) ready.optab
              (ne→== e.flags 0 (omega (arith, ready.flags))) ready.copy limit size
            ∙ ap done write_file_at)

  -- For a device that keeps what is written to it, a descriptor that is open for reading and
  -- writing, a range up to 4 GiB, and a file that has more blocks than the range needs, with all of
  -- them in its array, no two the same and of 32 bits each: `vsfs_write` returns `nbyte` as an
  -- `int`, the bytes are on the device at the file's bytes from the offset on and no other byte of
  -- the data region is changed, the inode has the new size and the entry the new offset, and the
  -- size in `file_ptr` stays what it was.
  pub vsfs_write-IsFiled :
      IsReliable nvme
      → s.cached.sbi.ofs_dregion < 2 ^ 32
      → (n : ℕ) → n ≤ 2 ^ 21
      → ((k : ℕ) → k < n → op.file_ptr.block k < 2 ^ 32)
      → IsDistinct op.file_ptr.block n
      → op.offset + nbyte ≤ n * 4096
      → op.offset + nbyte ≤ 2 ^ 32
      → needed_blocks op.offset nbyte < (inode_of e.ptr s).blocks
      → (d : Mounted nvme.Ns) × (vsfs_write nvme now scratch fd buf nbyte s
          ≡ done (d, to_int nbyte))
        × IsFiled nvme buf nbyte e.ptr s d
  unfolding write_data
  vsfs_write-IsFiled reliable small n bound word distinct fits within enough = (
    after.0,
    vsfs_write_at within enough ∙ ap (λ (r : ℤ). done (after.0, r)) (ap to_int w.total),
    record {
      inside = w.inside;
      outside = w.outside;
      size = rw (here, here2) (ap u32 w.place);
      offset = rw here w.place;
      file_size = rw here refl;
    },
  )
    where
      here : (e.ptr == e.ptr) ≡ true
      here = eq→== e.ptr e.ptr refl

      here2 : (op.inode_nr == op.inode_nr) ≡ true
      here2 = eq→== op.inode_nr op.inode_nr refl

      after : Mounted nvme.Ns × ℤ
      after = write_data nvme now scratch buf nbyte e.ptr (record s { inode_reg = cached_reg })

      w : IsStored nvme s.cached.sbi.ofs_dregion buf op.file_ptr.block s.ns op.offset nbyte (
          write_dblock nvme s.cached.sbi.ofs_dregion buf op.file_ptr.block s.ns scratch.dma_buf
            op.offset nbyte)
      w =
          write_dblock-IsStored nvme reliable s.cached.sbi.ofs_dregion small buf op.file_ptr.block n
            word s.ns scratch.dma_buf op.offset nbyte bound fits distinct
