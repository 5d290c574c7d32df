-- ===== src/Mount/Attach/Laws.antt =====
-- `mount_vsfs` of a device that reads as it was written.
use test_vsfs.Prelude.{ℕ, ◌+◌, ◌*◌, ◌<◌, ◌≡◌, refl, arith, ◌∙◌, ap, true, some, ◌==◌, eq→==}
use test_vsfs.Word.{ℤ, pos}
use test_vsfs.Memory.{Memory, load32}
use test_vsfs.Layout.{SbInfo, vsfs_magic}
use test_vsfs.State.{done}
use test_vsfs.Spdk.{Nvme, IsReliable, read_spdk}
use test_vsfs.Device.{region}
use test_vsfs.Mount.{load_sbi, Object, resize}
use test_vsfs.Mount.Blocks.{read_spdk-code, read_spdk-region}
use test_vsfs.Mount.Init.{zeroed}
use test_vsfs.Mount.Init.Chain.{IsGeometry}
use test_vsfs.Mount.Attach.{
  Answers, total_size, OpTable, creat_open_file_table, fill_cached, open_cached, make_shm_cached,
  mount_vsfs,
}
use test_vsfs.Mount.Attach.Filled.{load_sbi_ap, IsFilled, fill_cached-IsFilled}

-- The system gives everything that it is asked for.
pub record IsWilling (env : Answers) : Type 0 where
  pub block : env.block ≡ true
  pub buffers : env.buffers ≡ true
  pub name : env.name ≡ true
  pub opens : env.opens ≡ true
  pub sizes : env.sizes ≡ true
  pub maps : env.maps ≡ true
  pub optab_opens : env.optab_opens ≡ true
  pub optab_sizes : env.optab_sizes ≡ true
  pub optab_alloc : env.optab_alloc ≡ true
  pub count_written : env.count_written ≡ true
  pub entries_written : env.entries_written ≡ true

abbrev pub no_files : OpTable
no_files = record {
  op_counter = 0;
  op_ftable = λ _. record { offset = 0; inode_nr = 0; ptr_counter = 0; lock = 0 };
}

pub creat_open_file_table-no_files :
    (env : Answers) → IsWilling env → creat_open_file_table env ≡ done (some no_files)
unfolding creat_open_file_table
creat_open_file_table-no_files env w =
    simp (w.optab_opens, w.optab_sizes, w.optab_alloc, w.count_written, w.entries_written) refl

-- What the shared object holds after a mount: the superblock, both free maps and the inodes of the
-- device, in the order of `struct vsfs_cached_data`.
module _ (nvme : Nvme) where
  pub record IsCopy (n : ℕ) (ns : nvme.Ns) (o : Object) : Type 0 where
    pub size : o.size ≡ 48 + (2049 + n) * 4096
    pub parts :
        IsFilled n
          (region nvme 0 ns)
          (λ i. region nvme 0 ns (1 * 4096 + i))
          (λ i. region nvme 0 ns (2 * 4096 + i))
          (λ i. region nvme 0 ns (2050 * 4096 + i))
          o.bytes

  abbrev pub device_sbi : nvme.Ns → SbInfo
  device_sbi ns = load_sbi (region nvme 0 ns) 0

module _ (nvme : Nvme) (reliable : IsReliable nvme) (env : Answers) (w : IsWilling env)
    (ns : nvme.Ns) (o : Object) (g : IsGeometry (device_sbi nvme ns)) where
  abbrev ptr : Memory
  ptr = (read_spdk nvme ns zeroed 0 1).1

  ptr-region : (i : ℕ) → i < 4096 → ptr i ≡ region nvme 0 ns i
  ptr-region i h =
      let e : 0 * 4096 + i ≡ i = omega arith in
      read_spdk-region nvme reliable ns zeroed 0 1 (omega arith) (omega arith) (omega arith) i
        (omega arith)
      ∙ ap (region nvme 0 ns) e

  ptr-sbi : load_sbi ptr 0 ≡ device_sbi nvme ns
  ptr-sbi = load_sbi_ap ptr (region nvme 0 ns) (λ i h. ptr-region i (omega arith))

  -- The three reads.
  abbrev ibitmap : Memory
  ibitmap = (read_spdk nvme ns zeroed 1 1).1

  abbrev inode_reg : Memory
  inode_reg = (read_spdk nvme ns zeroed 2 2048).1

  abbrev dbitmap : Memory
  dbitmap = (read_spdk nvme ns zeroed 2050 (device_sbi nvme ns).nr_dbitmap_blocks).1

  abbrev sized : Object
  sized = resize o (48 + total_size (device_sbi nvme ns))

  abbrev copy : Object
  copy = record sized {
    bytes = fill_cached (device_sbi nvme ns) ptr ibitmap inode_reg dbitmap sized.bytes;
  }

  make_shm_cached-copy : make_shm_cached nvme env ptr ns o ≡ (copy, pos 0)
  unfolding make_shm_cached open_cached
  make_shm_cached-copy =
      let n = (device_sbi nvme ns).nr_dbitmap_blocks in
      rw
        (
          ptr-sbi,
          g.ofs_ibitmap,
          g.nr_ibitmap_blocks,
          g.ofs_iregion,
          g.nr_iregion_blocks,
          g.ofs_dbitmap,
          read_spdk-code nvme reliable ns zeroed 1 1 (omega arith) (omega arith) (omega arith),
          read_spdk-code nvme reliable ns zeroed 2050 n (omega arith) (omega (arith, g.more))
              (omega (arith, g.few)),
          read_spdk-code nvme reliable ns zeroed 2 2048 (omega arith) (omega arith) (omega arith),
        )
        (simp (w.buffers, w.name, w.opens, w.sizes, w.maps) refl)

  magic : (load32 ptr 0 == vsfs_magic) ≡ true
  unfolding load_sbi
  magic = eq→== (load32 ptr 0) vsfs_magic (ap (λ (i : SbInfo). i.magic) ptr-sbi ∙ g.magic)

  copy-IsCopy : IsCopy nvme (device_sbi nvme ns).nr_dbitmap_blocks ns copy
  copy-IsCopy =
      let n = (device_sbi nvme ns).nr_dbitmap_blocks in
      let filled =
        fill_cached-IsFilled (device_sbi nvme ns) g ptr ibitmap inode_reg dbitmap sized.bytes in
      record {
        size = omega (arith, g.few, g.nr_ibitmap_blocks, g.nr_iregion_blocks);
        parts = record {
          sb_part = λ i h. filled.sb_part i h ∙ ptr-region i (omega arith);
          ibitmap_part = λ i h.
              filled.ibitmap_part i h
              ∙ read_spdk-region nvme reliable ns zeroed 1 1 (omega arith) (omega arith)
                  (omega arith) i (omega arith);
          iregion_part = λ i h.
              filled.iregion_part i h
              ∙ read_spdk-region nvme reliable ns zeroed 2 2048 (omega arith) (omega arith)
                  (omega arith) i h;
          dbitmap_part = λ i h.
              filled.dbitmap_part i h
              ∙ read_spdk-region nvme reliable ns zeroed 2050 n (omega arith)
                  (omega (arith, g.more)) (omega (arith, g.few)) i h;
        };
      }

  -- `mount_vsfs` succeeds.
  pub mount_vsfs-IsCopy :
      (o' : Object) × (mount_vsfs nvme env ns o ≡ done (o', some no_files, pos 0))
      × IsCopy nvme (device_sbi nvme ns).nr_dbitmap_blocks ns o'
  unfolding mount_vsfs
  mount_vsfs-IsCopy = (
    copy,
    rw (make_shm_cached-copy, magic, creat_open_file_table-no_files env w, mount_vsfs)
        (simp (w.block)
          (ap (λ (r : Object × ℤ). done (r.0, some no_files, pos 0)) make_shm_cached-copy)),
    copy-IsCopy,
  )
