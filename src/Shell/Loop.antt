-- ===== src/Shell/Loop.antt =====
-- `start_ufs` of src/ufs/ufs_sh.c.
pub mod Laws
pub mod Ends
use test_vsfs.Prelude.{
  ℕ, zero, suc, Bool, false, Option, none, some, List, [], ◌∷◌, leb, length, ◌||◌, if◌then◌else◌,
}
use test_vsfs.Memory.{Memory}
use test_vsfs.State.{Env}
use test_vsfs.Spdk.{Nvme}
use test_vsfs.Device.State.{Scratch}
use test_vsfs.Shell.{
  scan_word, Line, at_eof, nothing, line, scan_line, drop_char, Action, create, help, ls, pwd,
  print, quit, rm, read, stat, write, unknown, dispatch,
}
use test_vsfs.Shell.Commands.{
  Ufs, Next, goes_on, leaves, crashed, busy, cmd_create, cmd_ls, cmd_print, cmd_read, cmd_write,
}

-- `scanf("%s", cmd)` into 10 bytes. At the end of the input its result is -1, which the test lets
-- pass, and `cmd` is what it was; `none` is a word that is too long.
pub take_command : {Ns : Type 0} → Option (List ℕ) × List ℕ → Ufs Ns → Option (Ufs Ns)
take_command (none, rest) u = some (record u { input = rest })
take_command (some w, rest) u =
    if leb 10 (length w) then none else some (record u { input = rest; cmd = w })

pub next_command : {Ns : Type 0} → Ufs Ns → Option (Ufs Ns)
unfolding take_command
next_command u = take_command (scan_word u.input) u

-- An unknown command: the rest of its line is read and dropped.
pub skip_line : {Ns : Type 0} → Ufs Ns → Next Ns
skip_line u =
    let (got, rest) = scan_line u.input in
    let u' = record u { input = drop_char rest } in
    elim got [
      | at_eof ↦ goes_on u'
      | nothing ↦ goes_on u'
      | line l ↦ if leb 256 (length l) then crashed else goes_on u'
    ]

module _ (nvme : Nvme) (answers : ℕ → Env) (scratch : Scratch) (buf : Memory) (rounds : ℕ) where
  pub act : Action → Ufs nvme.Ns → Next nvme.Ns
  unfolding skip_line
  act create u = cmd_create nvme answers scratch buf u
  act help u = goes_on u
  act ls u = cmd_ls nvme answers scratch buf u
  act pwd u = goes_on u
  act print u = cmd_print nvme answers scratch buf u
  act quit u = leaves u
  act rm u = goes_on u
  act read u = cmd_read nvme answers scratch buf rounds u
  act stat u = goes_on u
  act write u = cmd_write nvme answers scratch buf u
  act unknown u = skip_line u

  -- A round of `while (1)`.
  pub round : Ufs nvme.Ns → Next nvme.Ns
  unfolding next_command act
  round u = elim (next_command u) [ none ↦ crashed | some u' ↦ act (dispatch u'.cmd) u' ]

  pub loop : (fuel : ℕ) → Ufs nvme.Ns → Next nvme.Ns
  unfolding round
  loop zero u = busy
  loop (suc fuel) u = elim (round u) [
    | goes_on u' ↦ loop fuel u'
    | leaves u' ↦ leaves u'
    | crashed ↦ crashed
    | busy ↦ busy
  ]

  -- `env_init`, the loop, and `env_exit`. A `sb` that does not open is not an error.
  pub start_ufs : (fuel : ℕ) → (opens : Bool) → Ufs nvme.Ns → Next nvme.Ns
  unfolding loop
  start_ufs fuel opens u = elim (loop fuel (record u { sb = u.sb || opens })) [
    | goes_on u' ↦ goes_on u'
    | leaves u' ↦ leaves (record u' { sb = false })
    | crashed ↦ crashed
    | busy ↦ busy
  ]
