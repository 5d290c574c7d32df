-- ===== src/Device/Files/Target.antt =====
-- A descriptor of src/inc/vsfsio_spdk.h that is open for reading and writing.
use test_vsfs.Prelude.{ℕ, some, true, false, not, ◌≡◌, refl, ap, if◌then◌else◌}
use test_vsfs.State.{FdEntry, Run, done, fault}
use test_vsfs.Session.{find_target}
use test_vsfs.Spdk.{Nvme}
use test_vsfs.Device.State.{
  Mounted, Scratch, InodeReg, null_reg, cached_reg, stale_reg, find_inodes,
}
use test_vsfs.Device.Files.{vsfs_lseek, lseek_file}

-- The mappings are there, and the descriptor names this entry, with the flags `O_RDWR`.
pub record IsReady {Ns : Type 0} (fd : ℕ) (e : FdEntry) (s : Mounted Ns) : Type 0 where
  pub optab : s.optab_mapped ≡ true
  pub copy : s.cached_mapped ≡ true
  pub found : find_target fd s.fd_table ≡ done (some e)
  pub flags : e.flags ≡ 2

module _ (nvme : Nvme) (fd : ℕ) (e : FdEntry) (s : Mounted nvme.Ns) (ready : IsReady fd e s) where
  pub mapped : not s.optab_mapped ≡ false
  mapped = ap not ready.optab

module _ (nvme : Nvme) (scratch : Scratch) (fd : ℕ) (e : FdEntry) (s : Mounted nvme.Ns)
    (ready : IsReady fd e s) (found : s.inode_reg ≡ cached_reg) where
  find_inodes_at : find_inodes s ≡ done s
  unfolding find_inodes
  find_inodes_at =
      ap
        (λ (r : InodeReg). elim r as (λ x. Run (Mounted nvme.Ns)) [
          | null_reg ↦ if s.cached_mapped then done (record s { inode_reg = cached_reg }) else fault
          | cached_reg ↦ done s
          | stale_reg ↦ done s
        ])
        found

  -- The call goes on to the entry.
  pub vsfs_lseek_at :
      (offset whence : ℕ)
      → vsfs_lseek nvme scratch fd offset whence s ≡ lseek_file nvme scratch whence e.ptr offset s
  unfolding vsfs_lseek
  vsfs_lseek_at offset whence =
      rw (vsfs_lseek, find_inodes_at, mapped nvme fd e s ready, ready.found) refl
