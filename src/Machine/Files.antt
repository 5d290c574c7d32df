-- ===== src/Machine/Files.antt =====
-- The operations of one file, and `vsfs_creat`, keep to the open file table.
use test_vsfs.Prelude.{ℕ, ◌+◌, ◌/◌, ◌<◌, refl, List, ◌==◌, ltb, leb, length, not}
use Prim.{tt}
use test_vsfs.Word.{ℤ, u64}
use test_vsfs.Memory.{Memory}
use test_vsfs.Layout.{block_size, write_limit, filename_len}
use test_vsfs.State.{OpEntry, Vsfs, Env}
use test_vsfs.Directory.{name_taken, new_slot, vsfs_creat, creat_mapped, add_entry}
use test_vsfs.Bitmap.{get_free_inode}
use test_vsfs.Session.{find_target, o_rdonly, o_wronly}
use test_vsfs.FileIo.Write.{write_file, vsfs_write}
use test_vsfs.FileIo.Read.{file_size, read_file, vsfs_read}
use test_vsfs.FileIo.Seek.{
  vsfs_lseek, lseek_file, lseek_set, lseek_from, extend, seek_set, seek_cur, seek_end,
}
use test_vsfs.Machine.Safe.{
  IsSafe, Fine, Fine-if, Fine-target, Fine-guarded, IsSafe-if, IsSafe-option, IsSafe-put,
  IsSafe-same, find_target-IsTable,
}

module _ (behind : ℕ → OpEntry) where
  pub vsfs_write-Fine :
      (now fd : ℕ) (buf : ℕ → ℕ) (n : ℕ) (s : Vsfs)
      → IsSafe behind s
      → Fine behind (λ r. r.0) (vsfs_write now fd buf n s)
  unfolding vsfs_write write_file
  vsfs_write-Fine now fd buf n s safe =
      Fine-target behind (λ r. r.0) (find_target fd s.fd_table) _ _
        (find_target-IsTable fd s.fd_table safe.fds) tt
        (λ e low.
          Fine-if behind (λ r. r.0) (not s.sb_mapped) _ _ tt
            (Fine-if behind (λ r. r.0) (not s.optab_mapped) _ _ tt
              (Fine-if behind (λ r. r.0) (e.flags == o_rdonly) _ _ safe
                (Fine-if behind (λ r. r.0) (not s.cached_mapped) _ _ safe
                  (Fine-if behind (λ r. r.0)
                    (ltb write_limit (u64 ((s.op_ftable e.ptr).offset + n))) _ _ safe
                    (Fine-if behind (λ r. r.0)
                      (ltb 0x100000000 (u64 ((s.op_ftable e.ptr).offset + n) / block_size)) _ _ safe
                      (IsSafe-put behind s e.ptr _ _ low refl refl refl safe)))))))

  pub vsfs_read-Fine :
      (now fd n : ℕ) (buf : Memory) (s : Vsfs)
      → IsSafe behind s
      → Fine behind (λ r. r.0) (vsfs_read now fd n buf s)
  unfolding vsfs_read read_file
  vsfs_read-Fine now fd n buf s safe =
      Fine-if behind (λ r. r.0) (not s.optab_mapped) _ _ safe
        (Fine-target behind (λ r. r.0) (find_target fd s.fd_table) _ _
          (find_target-IsTable fd s.fd_table safe.fds) safe
          (λ e low.
            Fine-if behind (λ r. r.0) (e.flags == o_wronly) _ _ safe
              (Fine-if behind (λ r. r.0) (not s.sb_mapped) _ _ safe
                (IsSafe-put behind s e.ptr _ _ low refl refl refl safe))))

  set-Fine :
      (p offset : ℕ) (s : Vsfs)
      → p < 341
      → IsSafe behind s
      → Fine behind (λ r. r.0) (lseek_set p offset s)
  unfolding lseek_set extend
  set-Fine p offset s low safe =
      Fine-if behind (λ r. r.0) (ltb 0x100000000 offset) _ _ safe
        (Fine-if behind (λ r. r.0)
          (ltb (file_size (s.disk.inode_reg (s.op_ftable p).inode_nr)) offset) _ _
          (Fine-guarded behind (λ r. r.0) _ _ _ (IsSafe-put behind s p _ _ low refl refl refl safe))
          (IsSafe-put behind s p _ _ low refl refl refl safe))

  from-IsSafe :
      (p base offset : ℕ) (s : Vsfs)
      → p < 341
      → IsSafe behind s
      → IsSafe behind ((lseek_from p base offset s).0)
  unfolding lseek_from
  from-IsSafe p base offset s low safe =
      IsSafe-if behind (λ (r : Vsfs × ℕ). r.0)
        (ltb (file_size (s.disk.inode_reg (s.op_ftable p).inode_nr)) (u64 (base + offset))) _ _
        (IsSafe-put behind s p _ _ low refl refl refl safe)
        (IsSafe-put behind s p _ _ low refl refl refl safe)

  pub vsfs_lseek-Fine :
      (fd offset whence : ℕ) (s : Vsfs)
      → IsSafe behind s
      → Fine behind (λ r. r.0) (vsfs_lseek fd offset whence s)
  unfolding vsfs_lseek lseek_file
  vsfs_lseek-Fine fd offset whence s safe =
      Fine-if behind (λ r. r.0) (not s.optab_mapped) _ _ safe
        (Fine-if behind (λ r. r.0) (not s.sb_mapped) _ _ tt
          (Fine-target behind (λ r. r.0) (find_target fd s.fd_table) _ _
            (find_target-IsTable fd s.fd_table safe.fds) safe
            (λ e low.
              Fine-if behind (λ r. r.0) (whence == seek_set) _ _ (set-Fine e.ptr offset s low safe)
                (Fine-if behind (λ r. r.0) (whence == seek_end) _ _
                  (from-IsSafe e.ptr _ offset s low safe)
                  (Fine-if behind (λ r. r.0) (whence == seek_cur) _ _
                    (from-IsSafe e.ptr _ offset s low safe) safe)))))

  creat_mapped-IsSafe :
      (now : ℕ) (name : List ℕ) (n : ℕ) (s : Vsfs)
      → IsSafe behind s
      → IsSafe behind ((creat_mapped now name n s).0)
  unfolding creat_mapped add_entry
  creat_mapped-IsSafe now name n s safe =
      let root = s.disk.inode_reg 0 in
      IsSafe-if behind (λ (r : Vsfs × ℤ). r.0)
        (name_taken s.disk.data_reg name root.size (root.size / 16 + 1) 0) _ _ safe
        (IsSafe-option behind (λ (r : Vsfs × ℤ). r.0) (new_slot (get_free_inode s.cached).0 root) _
          _ (IsSafe-same behind s _ refl refl refl safe)
          (λ slot. IsSafe-same behind s _ refl refl refl safe))

  pub vsfs_creat-IsSafe :
      (env : Env) (name : List ℕ) (n : ℕ) (s : Vsfs)
      → IsSafe behind s
      → IsSafe behind ((vsfs_creat env name n s).0)
  unfolding vsfs_creat
  vsfs_creat-IsSafe env name n s safe =
      IsSafe-if behind (λ (r : Vsfs × ℤ). r.0) (leb filename_len (length name)) _ _ safe
        (IsSafe-if behind (λ (r : Vsfs × ℤ). r.0) (not env.sb_opens) _ _ safe
          (IsSafe-if behind (λ (r : Vsfs × ℤ). r.0) (not env.cached_opens) _ _ safe
            (creat_mapped-IsSafe env.now name n s safe)))
