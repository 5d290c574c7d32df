-- ===== src/Shell/Commands.antt =====
-- The commands of src/ufs/ufs_sh.c over the operations of src/inc/vsfsio_spdk.h. Buffers have the
-- sizes that the source gives them: what runs past one, and a use of one that was never filled, is
-- `crashed`.
use test_vsfs.Prelude.{
  ℕ, zero, suc, ◌+◌, ◌-◌, ◌*◌, ◌%◌, Bool, true, false, Option, none, some, List, [], ◌∷◌, ◌==◌, leb,
  ltb, length, if◌then◌else◌,
}
use test_vsfs.Word.{ℤ, pos, negsuc}
use test_vsfs.Memory.{Memory, strcpy}
use test_vsfs.Layout.{block_size}
use test_vsfs.State.{Run, done, fault, Env}
use test_vsfs.Session.{o_rdwr}
use test_vsfs.FileIo.Seek.{seek_set}
use test_vsfs.Spdk.{Nvme}
use test_vsfs.Device.{read_block}
use test_vsfs.Device.State.{Mounted, Scratch}
use test_vsfs.Device.Directory.{vsfs_creat}
use test_vsfs.Device.Session.{vsfs_open}
use test_vsfs.Device.Session.Close.{vsfs_close}
use test_vsfs.Device.Files.{vsfs_write, vsfs_read, vsfs_lseek}
use test_vsfs.Shell.{scan_word, at_eof, nothing, line, scan_line, drop_char, word_eq, tokens}

-- The shell: the mounted device, whether `sb` is mapped, the rest of the input, the buffer `cmd`,
-- how many calls were made so far, and the texts that `ls` and `read` have printed, the last first.
pub record Ufs (Ns : Type 0) : Type 0 where
  pub device : Mounted Ns
  pub sb : Bool
  pub input : List ℕ
  pub cmd : List ℕ
  pub calls : ℕ
  pub printed : List (List ℕ)

-- `busy`: the rounds that are given have run out.
pub data Next (Ns : Type 0) : Type 0 where
  goes_on : Ufs Ns → Next Ns
  leaves : Ufs Ns → Next Ns
  crashed : Next Ns
  busy : Next Ns

infixl 5 ◌>>=◌
abbrev pub ◌>>=◌ : {Ns : Type 0} → Next Ns → (Ufs Ns → Next Ns) → Next Ns
goes_on u >>= f = f u
leaves u >>= f = leaves u
crashed >>= f = crashed
busy >>= f = busy

-- The bytes up to a zero, within `rounds` bytes.
pub text_at : Memory → (rounds a : ℕ) → Option (List ℕ)
text_at m zero a = none
text_at m (suc rounds) a =
    let rest = text_at m rounds (a + 1) in
    if m a == 0 then some [] else elim rest [ none ↦ none | some t ↦ some (m a ∷ t) ]

abbrev pub zeroed : Memory
zeroed _ = 0

-- A word for a buffer of `size` bytes, and then the rest.
abbrev pub with_word :
    {Ns : Type 0}
    → (size : ℕ) → Option (List ℕ) × List ℕ
    → (missing : Next Ns) → (List ℕ → List ℕ → Next Ns)
    → Next Ns
with_word size (none, rest) missing f = missing
with_word size (some w, rest) missing f = if leb size (length w) then crashed else f w rest

module _ (nvme : Nvme) (answers : ℕ → Env) (scratch : Scratch) (buf : Memory) where
  -- The result of a call that is not looked at.
  abbrev pub after : Ufs nvme.Ns → Run (Mounted nvme.Ns × ℤ) → Next nvme.Ns
  after u fault = crashed
  after u (done (device, result)) = goes_on (record u { device = device; calls = u.calls + 1 })

  pub create_all : List (List ℕ) → Ufs nvme.Ns → Next nvme.Ns
  create_all [] u = goes_on u
  create_all (name ∷ names) u = do
    u' ← after u (vsfs_creat nvme (answers u.calls) scratch buf name 0 u.device)
    create_all names u'

  -- Where nothing stands behind the command, its result is -1.
  unfoldable pub cmd_create : Ufs nvme.Ns → Next nvme.Ns
  unfolding create_all
  cmd_create u =
      let (got, rest) = scan_line u.input in
      elim got [
        | at_eof ↦ crashed
        | nothing ↦ leaves (record u { input = drop_char rest })
        | line l ↦
            if leb 256 (length l)
            then crashed
            else create_all (tokens [] l) (record u { input = drop_char rest })
      ]

  -- The loop of `cmd_ls`, from entry `i` on. `files[i]` is in the buffer for `i` below 16.
  pub ls_names :
      Mounted nvme.Ns
      → (dir : Memory) → (rounds i : ℕ) → (printed : List (List ℕ)) → Option (List (List ℕ))
  unfolding text_at
  ls_names s dir zero i printed = some printed
  ls_names s dir (suc rounds) i printed =
      let root = s.cached.inode_reg 0 in
      let dir' =
        if i % 16 == 0
        then read_block nvme s.cached.sbi.ofs_dregion s.ns dir (root.l1 i)
        else dir in
      elim (ltb i 16) [
        | false ↦ none
        | true ↦ elim (text_at dir' (block_size - (i * 256 + 2)) (i * 256 + 2)) [
          | none ↦ none
          | some name ↦ ls_names s dir' rounds (i + 1) (name ∷ printed)
        ]
      ]

  pub cmd_ls : Ufs nvme.Ns → Next nvme.Ns
  unfolding ls_names
  cmd_ls u =
      if u.sb
      then elim (ls_names u.device zeroed (u.device.cached.inode_reg 0).size 0 u.printed) [
        | none ↦ crashed
        | some printed ↦ goes_on (record u { printed = printed })
      ]
      else crashed

  -- `p_root_info` ends with `free_dma_buffer` of the shared inodes, which is no buffer.
  pub cmd_print : Ufs nvme.Ns → Next nvme.Ns
  cmd_print u = with_word 10 (scan_word u.input) crashed (λ w rest.
      if word_eq w (b's' ∷ b'y' ∷ b's' ∷ [])
      then if u.sb then goes_on (record u { input = rest }) else crashed
      else if word_eq w (b'r' ∷ b'o' ∷ b'o' ∷ b't' ∷ [])
      then crashed
      else goes_on (record u { input = rest }))

  -- `vsfs_open` with `O_RDWR`, and what follows with the descriptor where it is not -1.
  pub with_file : (path : List ℕ) → Ufs nvme.Ns → (ℕ → Ufs nvme.Ns → Next nvme.Ns) → Next nvme.Ns
  with_file path u f = elim (vsfs_open nvme (answers u.calls) scratch buf path o_rdwr u.device) [
    | fault ↦ crashed
    | done (device, fd) ↦
        let u' = record u { device = device; calls = u.calls + 1 } in
        elim fd [ pos n ↦ f n u' | negsuc n ↦ goes_on u' ]
  ]

  pub write_close : (fd : ℕ) → (src : Memory) → Ufs nvme.Ns → Next nvme.Ns
  write_close fd src u = do
    u' ← after u (vsfs_write nvme (answers u.calls).now scratch fd src block_size u.device)
    after u' (vsfs_close fd u'.device)

  pub cmd_write : Ufs nvme.Ns → Next nvme.Ns
  unfolding with_file write_close
  cmd_write u = with_word 1000 (scan_word u.input) crashed (λ path rest.
      with_file path (record u { input = rest })
        (λ fd u'.
          let (text, rest') = scan_word u'.input in
          with_word block_size (text, rest') (write_close fd zeroed (record u' { input = rest' }))
            (λ w r. write_close fd (strcpy zeroed 0 w) (record u' { input = r }))))

  -- `while (vsfs_read(fd, src, 4096) != EOF) printf("%s", src)`, in `rounds` rounds.
  pub read_all : (rounds fd : ℕ) → (src : Memory) → Ufs nvme.Ns → Next nvme.Ns
  unfolding text_at
  read_all zero fd src u = busy
  read_all (suc rounds) fd src u =
      elim (vsfs_read nvme (answers u.calls).now fd 4096 src u.device) [
        | fault ↦ crashed
        | done (device, result, src') ↦
            let u' = record u { device = device; calls = u.calls + 1 } in
            elim result [
              | negsuc n ↦ goes_on u'
              | pos n ↦ elim (text_at src' block_size 0) [
                | none ↦ crashed
                | some t ↦ read_all rounds fd src' (record u' { printed = t ∷ u'.printed })
              ]
            ]
      ]

  pub cmd_read : (rounds : ℕ) → Ufs nvme.Ns → Next nvme.Ns
  unfolding with_file read_all
  cmd_read rounds u = with_word 256 (scan_word u.input) crashed (λ path rest.
      with_file path (record u { input = rest })
        (λ fd u'. elim (vsfs_lseek nvme scratch fd 0 seek_set u'.device) [
          | fault ↦ crashed
          | done (device, _) ↦ do
            u'' ← read_all rounds fd zeroed (record u' { device = device; calls = u'.calls + 1 })
            after u'' (vsfs_close fd u''.device)
        ]))
