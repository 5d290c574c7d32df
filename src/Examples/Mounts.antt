-- ===== src/Examples/Mounts.antt =====
-- A device and an image of 50000 blocks, formatted and mounted.
use test_vsfs.Prelude.{
  ℕ, ◌+◌, ◌*◌, ◌/◌, ◌%◌, ◌<◌, ◌≡◌, none, refl, arith, sym, subst, ap, ◌∙◌, true, some, ◌==◌,
  if◌then◌else◌,
}
use test_vsfs.Word.{pos}
use test_vsfs.Layout.{SbInfo}
use test_vsfs.State.{done}
use test_vsfs.Format.{write_superblock}
use test_vsfs.Device.{region}
use test_vsfs.Mount.{sb_bytes, load_sbi, Object}
use test_vsfs.Mount.Init.{device_superblock, Buffers}
use test_vsfs.Mount.Init.Chain.{IsGeometry}
use test_vsfs.Mount.Attach.{Answers, mount_vsfs, unmount_vsfs}
use test_vsfs.Mount.Attach.Filled.{load_sbi_ap}
use test_vsfs.Mount.Attach.Laws.{IsWilling, no_files, device_sbi}
use test_vsfs.Mount.Attach.Kept.{IsRestored, mount_vsfs-unmount_vsfs}
use test_vsfs.Mount.Fresh.{load_sbi-sb_bytes, device_superblock-word, device_superblock-IsGeometry}
use test_vsfs.Shell.Main.{World}
use test_vsfs.Mount.Shared.{mount}
use test_vsfs.Mount.Shared.Short.{IsShort, mount-IsShort}
use test_vsfs.Examples.Devices.{disk, disk-IsReliable}

abbrev given : Buffers
given = record {
  superblock = true;
  inode_bitmap = true;
  root = true;
  inodes = true;
  data_bitmap = true;
  more_bitmap = true;
  directory = true;
}

abbrev willing : Answers
willing = record {
  block = true;
  buffers = true;
  name = true;
  opens = true;
  sizes = true;
  maps = true;
  optab_opens = true;
  optab_sizes = true;
  optab_alloc = true;
  count_written = true;
  entries_written = true;
}

willing-IsWilling : IsWilling willing
willing-IsWilling = record {
  block = refl;
  buffers = refl;
  name = refl;
  opens = refl;
  sizes = refl;
  maps = refl;
  optab_opens = refl;
  optab_sizes = refl;
  optab_alloc = refl;
  count_written = refl;
  entries_written = refl;
}

abbrev blank : ℕ → ℕ → ℕ
blank b i = 0

abbrev no_object : Object
no_object = record { size = 0; bytes = λ _. 0 }

abbrev blank_world : World (ℕ → ℕ → ℕ)
blank_world = record { ns = blank; objects = λ _. no_object; optab = none }

abbrev info : SbInfo
info = device_superblock 512 400000

info-IsGeometry : IsGeometry info
info-IsGeometry = device_superblock-IsGeometry 512 400000 (omega arith) (omega arith)

stored : load_sbi (sb_bytes info) 0 ≡ info
stored = load_sbi-sb_bytes info (device_superblock-word 512 400000 (omega arith) (omega arith))

-- Only the superblock is written.
abbrev bare : ℕ → ℕ → ℕ
bare b i = if b == 0 then sb_bytes info i else 0

abbrev cached_object : Object
cached_object = record { size = 48 + 2051 * 4096; bytes = sb_bytes info }

bare-sb_bytes : (i : ℕ) → i < 48 → region disk 0 bare i ≡ sb_bytes info i
unfolding region
bare-sb_bytes i h =
    let e : (0 + i / 512 == 0) ≡ true = ground arith in
    let z : i / 512 ≡ 0 = omega arith in let f : i % 512 ≡ i = omega arith in rw (f, z, f) refl

bare-stored : device_sbi disk bare ≡ info
bare-stored = load_sbi_ap (region disk 0 bare) (sb_bytes info) bare-sb_bytes ∙ stored

mount_vsfs-unmount_vsfs_example :
    (ns : ℕ → ℕ → ℕ) × (o : Object) × (unmount_vsfs disk willing cached_object bare
      ≡ done (ns, pos 0))
    × (mount_vsfs disk willing ns no_object ≡ done (o, some no_files, pos 0))
    × IsRestored disk disk-IsReliable willing willing-IsWilling bare cached_object
        (subst IsGeometry (sym stored) info-IsGeometry)
        o.bytes
mount_vsfs-unmount_vsfs_example =
    mount_vsfs-unmount_vsfs disk disk-IsReliable willing willing-IsWilling bare cached_object
      (subst IsGeometry (sym stored) info-IsGeometry) no_object
      (subst IsGeometry (sym bare-stored) info-IsGeometry)
      (ap (λ (i : SbInfo). i.nr_dbitmap_blocks) (bare-stored ∙ sym stored))

mount-IsShort_example :
    (o : Object) × (mount willing (sb_bytes (write_superblock 204800000)) no_object
      ≡ done (o, some no_files, pos 0))
    × IsShort (write_superblock 204800000) (sb_bytes (write_superblock 204800000)) o
mount-IsShort_example =
    mount-IsShort 204800000 (omega arith) (omega arith) willing
      (sb_bytes (write_superblock 204800000)) no_object willing-IsWilling (λ i h. refl)
