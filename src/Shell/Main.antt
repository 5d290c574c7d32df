-- ===== src/Shell/Main.antt =====
-- `main` of src/ufs/ufs_sh.c: a shell, or one of three calls of src/ufs/vsfs_init.c.
pub mod Fresh
use test_vsfs.Prelude.{ℕ, Bool, List, [], ◌∷◌, ◌++◌, Option, none, some, if◌then◌else◌}
use test_vsfs.Word.{ℤ, pos, minus_one}
use test_vsfs.State.{Run, done, fault}
use test_vsfs.Spdk.{Nvme}
use test_vsfs.Mount.{Object}
use test_vsfs.Mount.Init.{Buffers, init_vsfs}
use test_vsfs.Mount.Attach.{Answers, OpTable, mount_vsfs, unmount_vsfs}
use test_vsfs.Shell.{word_eq}

abbrev pub mkfs_word : List ℕ
mkfs_word = b'm' ∷ b'k' ∷ b'f' ∷ b's' ∷ []

abbrev pub mount_word : List ℕ
mount_word = b'm' ∷ b'o' ∷ b'u' ∷ b'n' ∷ b't' ∷ []

abbrev pub unmount_word : List ℕ
unmount_word = b'u' ∷ b'n' ∷ mount_word

pub data Task : Type 0 where
  shell : Task
  mkfs mount unmount : (name : List ℕ) → Task
  bad_args : Task

-- The `switch` on `argc`, where `argv` is without the program's name. With no match, the case of
-- two arguments runs on into the default.
unfoldable pub task : (argv : List (List ℕ)) → Task
task [] = shell
task (cmd ∷ []) = bad_args
task (cmd ∷ name ∷ []) =
    if word_eq cmd mkfs_word
    then mkfs name
    else if word_eq cmd mount_word
    then mount name
    else if word_eq cmd unmount_word
    then unmount name
    else bad_args
task (cmd ∷ name ∷ more ∷ rest) = bad_args

-- The `name` with `_cached` behind it, and `SHM_CACHE_NAME`, which the operations open.
abbrev pub cached_suffix : List ℕ
cached_suffix = b'_' ∷ b'c' ∷ b'a' ∷ b'c' ∷ b'h' ∷ b'e' ∷ b'd' ∷ []

abbrev pub cached_name : (name : List ℕ) → List ℕ
cached_name name = name ++ cached_suffix

abbrev pub vsfs_name : List ℕ
vsfs_name = b'v' ∷ b's' ∷ b'f' ∷ b's' ∷ []

abbrev pub shm_cache_name : List ℕ
shm_cache_name = vsfs_name ++ cached_suffix

-- The device, the shared objects by their names, without a slash at the start, and the open file
-- table, where `mount` made it.
pub record World (Ns : Type 0) : Type 0 where
  pub ns : Ns
  pub objects : List ℕ → Object
  pub optab : Option OpTable

abbrev pub put_object : {Ns : Type 0} → World Ns → (name : List ℕ) → Object → World Ns
put_object w name o = record w {
  objects = λ other. if word_eq other name then o else w.objects other;
}

-- `enters` is `start_ufs`.
pub data Outcome (Ns : Type 0) : Type 0 where
  enters : Outcome Ns
  exits : World Ns → ℤ → Outcome Ns
  crashed : Outcome Ns

module _ (nvme : Nvme) (b : Buffers) (env : Answers) (sector_size device_size : ℕ) where
  -- `call_init_spdk`, `call_mount_spdk` and `call_unmount_spdk` return 0 in any case. `init_vsfs`
  -- does not use the name.
  pub call_init_spdk : (name : List ℕ) → World nvme.Ns → Outcome nvme.Ns
  call_init_spdk name w = elim (init_vsfs nvme b sector_size device_size w.ns) [
    | fault ↦ crashed
    | done (ns', ret) ↦ exits (record w { ns = ns' }) (pos 0)
  ]

  pub call_mount_spdk : (name : List ℕ) → World nvme.Ns → Outcome nvme.Ns
  call_mount_spdk name w = elim (mount_vsfs nvme env w.ns (w.objects (cached_name name))) [
    | fault ↦ crashed
    | done (o', optab, ret) ↦
        exits
          (put_object (record w { optab = elim optab [ none ↦ w.optab | some t ↦ some t ] })
            (cached_name name) o')
          (pos 0)
  ]

  pub call_unmount_spdk : (name : List ℕ) → World nvme.Ns → Outcome nvme.Ns
  call_unmount_spdk name w = elim (unmount_vsfs nvme env (w.objects (cached_name name)) w.ns) [
    | fault ↦ crashed
    | done (ns', ret) ↦ exits (record w { ns = ns' }) (pos 0)
  ]

  pub run : Task → World nvme.Ns → Outcome nvme.Ns
  unfolding call_init_spdk call_mount_spdk call_unmount_spdk
  run shell w = enters
  run (mkfs name) w = call_init_spdk name w
  run (mount name) w = call_mount_spdk name w
  run (unmount name) w = call_unmount_spdk name w
  run bad_args w = exits w minus_one

  pub main : (is_root : Bool) → (argv : List (List ℕ)) → World nvme.Ns → Outcome nvme.Ns
  unfolding run task
  main is_root argv w = if is_root then run (task argv) w else exits w minus_one
