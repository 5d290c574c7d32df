-- ===== src/Shell/Loop/Laws.antt =====
-- How `start_ufs` ends, and where it does not.
use test_vsfs.Prelude.{
  ℕ, zero, suc, ◌<◌, ◌≡◌, refl, arith, ap, ◌∙◌, Bool, true, false, none, some, List, [], ◌∷◌, ◌++◌,
  length, lt→leb,
}
use Prim.{Unit}
use test_vsfs.Memory.{Memory}
use test_vsfs.State.{Env}
use test_vsfs.Spdk.{Nvme}
use test_vsfs.Device.State.{Scratch}
use test_vsfs.Shell.{
  newline, is_space, word_end, scan_word, scan_line, Action, create, help, ls, pwd, print, quit, rm,
  read, stat, write, unknown, dispatch,
}
use test_vsfs.Shell.Commands.{Ufs, Next, goes_on}
use test_vsfs.Shell.Loop.{take_command, next_command, skip_line, act, round, loop}

-- The actions that use no file.
abbrev pub is_idle : Action → Bool
is_idle help = true
is_idle pwd = true
is_idle rm = true
is_idle stat = true
is_idle unknown = true
is_idle create = false
is_idle ls = false
is_idle print = false
is_idle quit = false
is_idle read = false
is_idle write = false

abbrev pub HasNoSpace : List ℕ → Type 0
HasNoSpace [] = Unit {0}
HasNoSpace (c ∷ cs) = (is_space c ≡ false) × HasNoSpace cs

-- A word that fits into `cmd`.
abbrev pub IsWord : List ℕ → Type 0
IsWord w = HasNoSpace w × (0 < length w) × (length w < 10)

-- Lines of one word each, and then `rest`.
abbrev pub lines : List (List ℕ) → (rest : List ℕ) → List ℕ
lines [] rest = rest
lines (w ∷ ws) rest = w ++ (newline ∷ lines ws rest)

abbrev pub AreIdle : List (List ℕ) → Type 0
AreIdle [] = Unit {0}
AreIdle (w ∷ ws) = (IsWord w × (is_idle (dispatch w) ≡ true)) × AreIdle ws

word_end-word :
    (w rest : List ℕ) → HasNoSpace w → word_end (w ++ (newline ∷ rest)) ≡ (w, newline ∷ rest)
unfolding word_end
word_end-word [] rest h = refl
word_end-word (c ∷ w) rest h = rw (h.0, word_end-word w rest h.1) refl

scan_word-word :
    (w rest : List ℕ) → IsWord w → scan_word (w ++ (newline ∷ rest)) ≡ (some w, newline ∷ rest)
unfolding scan_word
scan_word-word [] rest (h, some_char, short) = absurd (omega arith)
scan_word-word (c ∷ w) rest (h, some_char, short) = rw (h.0, word_end-word w rest h.1) refl

scan_word-newline : (s : List ℕ) → scan_word (newline ∷ s) ≡ scan_word s
unfolding scan_word
scan_word-newline s = refl

module _ {Ns : Type 0} where
  pub next_command-word :
      (u : Ufs Ns) (w rest : List ℕ)
      → IsWord w
      → scan_word u.input ≡ scan_word (w ++ (newline ∷ rest))
      → next_command u ≡ some (record u { input = newline ∷ rest; cmd = w })
  unfolding next_command
  next_command-word u w rest is e =
      ap (λ p. take_command p u) (e ∙ scan_word-word w rest is)
      ∙ rw (lt→leb 10 (length w) is.2, take_command) refl

  pub next_command-eof :
      (u : Ufs Ns)
      → scan_word u.input ≡ (none, [])
      → next_command u ≡ some (record u { input = [] })
  unfolding next_command
  next_command-eof u e = ap (λ p. take_command p u) e

  -- The same shell but for its input and `cmd`.
  abbrev pub SameButInput : Ufs Ns → Ufs Ns → Type 0
  SameButInput u v = v ≡ record u { input = v.input; cmd = v.cmd }

module _ (nvme : Nvme) (answers : ℕ → Env) (scratch : Scratch) (buf : Memory) (rounds : ℕ) where
  -- An idle command at the end of a line leaves the next word to be read.
  act-idle :
      (a : Action) (u : Ufs nvme.Ns) (rest : List ℕ)
      → is_idle a ≡ true
      → u.input ≡ newline ∷ rest
      → (v : Ufs nvme.Ns) × (act nvme answers scratch buf rounds a u ≡ goes_on v)
        × SameButInput u v
        × (scan_word v.input ≡ scan_word rest)
        × (v.cmd ≡ u.cmd)
  unfolding act skip_line scan_line
  act-idle help u rest h e = (u, refl, refl, ap scan_word e ∙ scan_word-newline rest, refl)
  act-idle pwd u rest h e = (u, refl, refl, ap scan_word e ∙ scan_word-newline rest, refl)
  act-idle rm u rest h e = (u, refl, refl, ap scan_word e ∙ scan_word-newline rest, refl)
  act-idle stat u rest h e = (u, refl, refl, ap scan_word e ∙ scan_word-newline rest, refl)
  act-idle unknown u rest h e = (record u { input = rest }, rw e refl, refl, refl, refl)
  act-idle create u rest h e = cc
  act-idle ls u rest h e = cc
  act-idle print u rest h e = cc
  act-idle quit u rest h e = cc
  act-idle read u rest h e = cc
  act-idle write u rest h e = cc

  -- One line with an idle command.
  pub round-idle :
      (u : Ufs nvme.Ns) (w rest : List ℕ)
      → IsWord w
      → is_idle (dispatch w) ≡ true
      → scan_word u.input ≡ scan_word (w ++ (newline ∷ rest))
      → (v : Ufs nvme.Ns) × (round nvme answers scratch buf rounds u ≡ goes_on v)
        × SameButInput u v
        × (scan_word v.input ≡ scan_word rest)
        × (v.cmd ≡ w)
  unfolding round
  round-idle u w rest is idle e =
      let (v, acted, same, next, kept) =
        act-idle (dispatch w) (record u { input = newline ∷ rest; cmd = w }) rest idle refl in
      (v, rw (next_command-word u w rest is e, round) acted, same, next, kept)

  -- After lines of idle commands, with rounds to spare, the loop comes to what follows them.
  pub loop-lines :
      (ws : List (List ℕ)) (rest : List ℕ) (result : Next nvme.Ns) (fuel : ℕ) (u : Ufs nvme.Ns)
      → length ws < fuel
      → AreIdle ws
      → scan_word u.input ≡ scan_word (lines ws rest)
      → ((k : ℕ) (v : Ufs nvme.Ns)
          → SameButInput u v
          → scan_word v.input ≡ scan_word rest
          → loop nvme answers scratch buf rounds (suc k) v ≡ result)
      → loop nvme answers scratch buf rounds fuel u ≡ result
  unfolding loop
  loop-lines ws rest result zero u h idle e then_on = absurd (omega arith)
  loop-lines [] rest result (suc k) u h idle e then_on = then_on k u refl e
  loop-lines (w ∷ ws) rest result (suc k) u h idle e then_on =
      let (v, went, same, next, _) = round-idle u w (lines ws rest) (idle.0).0 (idle.0).1 e in
      rw (went, loop)
        (loop-lines ws rest result k v (omega arith) idle.1 next (λ k' v' same' next'.
          then_on k' v'
            (same' ∙ ap (λ (x : Ufs nvme.Ns). record x { input = v'.input; cmd = v'.cmd }) same)
            next'))
