-- ===== src/Device/Directory/Creat.antt =====
-- `vsfs_creat` of src/inc/vsfsio_spdk.h twice in a row.
use test_vsfs.Prelude.{
  ℕ, ◌<◌, ◌≡◌, ◌≢◌, refl, ◌∙◌, ap, List, length, lt→leb, true, false, ◌||◌, some, none, Option,
  Bool, Bool-cases, inl, inr,
}
use test_vsfs.Word.{ℤ}
use test_vsfs.Memory.{Memory}
use test_vsfs.State.{done, fault, Env}
use test_vsfs.Bitmap.{get_free_inode}
use test_vsfs.Directory.{Slot, new_slot}
use test_vsfs.Spdk.{Nvme}
use test_vsfs.Device.State.{InodeReg, null_reg, cached_reg, stale_reg, Mounted, Scratch}
use test_vsfs.Device.Directory.{name_taken, add_entry, creat_mapped, creat_in, vsfs_creat}

module _ (nvme : Nvme) where
  Stale : Mounted nvme.Ns × ℤ → Type 0
  Stale r = r.0.inode_reg ≡ stale_reg

  Stale-elim :
      (o : Option Slot) (x : Mounted nvme.Ns × ℤ) (f : Slot → Mounted nvme.Ns × ℤ)
      → Stale x
      → ((t : Slot) → Stale (f t))
      → Stale (elim o as (λ z. Mounted nvme.Ns × ℤ) [ none ↦ x | some t ↦ f t ])
  Stale-elim none x f h k = h
  Stale-elim (some t) x f h k = k t

  -- The inodes are unmapped whatever the outcome.
  creat_mapped-Stale :
      (scratch : Scratch) (buf : Memory) (now : ℕ) (name : List ℕ) (block_num : ℕ)
      → (s : Mounted nvme.Ns) → Stale (creat_mapped nvme scratch buf now name block_num s)
  unfolding creat_mapped Stale add_entry
  creat_mapped-Stale scratch buf now name block_num s =
      elim (Bool-cases (
        name_taken nvme s.cached.sbi.ofs_dregion s.ns (s.cached.inode_reg 0) buf name
          (s.cached.inode_reg 0).size 0)) [
            | inl taken ↦ rw taken refl
            | inr new ↦ rw new (
                Stale-elim (new_slot (get_free_inode s.cached).0 (s.cached.inode_reg 0)) _ _ refl
                  (λ t. refl))
          ]

  creat_in-stale :
      (reg : InodeReg) (scratch : Scratch) (buf : Memory) (now : ℕ) (name : List ℕ) (block_num : ℕ)
      → (s : Mounted nvme.Ns) → reg ≢ stale_reg
      → (d : Mounted nvme.Ns) × (r : ℤ) × (creat_in nvme reg scratch buf now name block_num s
          ≡ done (d, r))
        × (d.inode_reg ≡ stale_reg)
  unfolding creat_in Stale
  creat_in-stale stale_reg scratch buf now name block_num s valid = absurd (valid refl)
  creat_in-stale null_reg scratch buf now name block_num s valid =
      let s' : Mounted nvme.Ns = record s { inode_reg = cached_reg; cached_mapped = true } in
      let r = creat_mapped nvme scratch buf now name block_num s' in
      (r.0, r.1, refl, creat_mapped-Stale scratch buf now name block_num s')
  creat_in-stale cached_reg scratch buf now name block_num s valid =
      let s' : Mounted nvme.Ns = record s { cached_mapped = true } in
      let r = creat_mapped nvme scratch buf now name block_num s' in
      (r.0, r.1, refl, creat_mapped-Stale scratch buf now name block_num s')

  vsfs_creat_at :
      (env : Env) (scratch : Scratch) (buf : Memory) (name : List ℕ) (block_num : ℕ)
      → (s : Mounted nvme.Ns) → length name < 254
      → env.cached_opens ≡ true
      → vsfs_creat nvme env scratch buf name block_num s
        ≡ creat_in nvme s.inode_reg scratch buf env.now name block_num s
  unfolding vsfs_creat
  vsfs_creat_at env scratch buf name block_num s short opens =
      let e : (s.cached_mapped || env.cached_opens) ≡ true =
        ap (λ (b : Bool). s.cached_mapped || b) opens ∙ or-true s.cached_mapped in
      rw (lt→leb 254 (length name) short, e) refl
    where
      or-true : (b : Bool) → (b || true) ≡ true
      or-true true = refl
      or-true false = refl

  -- Where names are below 254 bytes, `vsfs_cached` opens, and `inode_reg` is null or valid:
  -- `vsfs_creat` returns, whether it makes the file or not, and a `vsfs_creat` after it faults, as
  -- `inode_reg` is left to where the inodes were mapped.
  pub vsfs_creat_twice :
      (env : Env) (scratch : Scratch) (buf : Memory) (name : List ℕ) (block_num : ℕ)
      → (s : Mounted nvme.Ns) → length name < 254
      → env.cached_opens ≡ true
      → s.inode_reg ≢ stale_reg
      → (env' : Env) (scratch' : Scratch) (buf' : Memory) (name' : List ℕ) (block_num' : ℕ)
      → length name' < 254
      → env'.cached_opens ≡ true
      → (d : Mounted nvme.Ns) × (r : ℤ) × (vsfs_creat nvme env scratch buf name block_num s
          ≡ done (d, r))
        × (vsfs_creat nvme env' scratch' buf' name' block_num' d ≡ fault)
  unfolding creat_in
  vsfs_creat_twice env scratch buf name block_num s short opens valid env' scratch' buf' name'
        block_num' short' opens' =
      let (d, r, first, stale) =
        creat_in-stale s.inode_reg scratch buf env.now name block_num s valid in
      (
        d,
        r,
        vsfs_creat_at env scratch buf name block_num s short opens ∙ first,
        vsfs_creat_at env' scratch' buf' name' block_num' d short' opens'
            ∙ ap (λ (g : InodeReg). creat_in nvme g scratch' buf' env'.now name' block_num' d)
                stale,
      )
