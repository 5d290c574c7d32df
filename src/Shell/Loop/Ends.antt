-- ===== src/Shell/Loop/Ends.antt =====
-- The ends of `start_ufs`, and inputs on which it has none.
use test_vsfs.Prelude.{
  ℕ, zero, suc, ◌<◌, ◌≡◌, refl, ap, ◌∙◌, Bool, true, false, List, [], ◌∷◌, ◌++◌, length, ◌||◌,
}
use test_vsfs.Memory.{Memory}
use test_vsfs.State.{Env}
use test_vsfs.Spdk.{Nvme}
use test_vsfs.Device.State.{Scratch}
use test_vsfs.Shell.{
  newline, scan_word, scan_line, Action, create, help, ls, pwd, print, quit, rm, read, stat, write,
  unknown, dispatch,
}
use test_vsfs.Shell.Commands.{Ufs, Next, goes_on, leaves, busy, cmd_create}
use test_vsfs.Shell.Loop.{skip_line, act, round, loop, start_ufs}
use test_vsfs.Shell.Loop.Laws.{
  is_idle, IsWord, AreIdle, lines, next_command-word, next_command-eof, round-idle, loop-lines,
}

module _ (nvme : Nvme) (answers : ℕ → Env) (scratch : Scratch) (buf : Memory) (rounds : ℕ) where
  -- A word that ends the loop, where the loop comes to it.
  round-quit :
      (u : Ufs nvme.Ns) (q rest : List ℕ)
      → IsWord q
      → dispatch q ≡ quit
      → scan_word u.input ≡ scan_word (q ++ (newline ∷ rest))
      → round nvme answers scratch buf rounds u
        ≡ leaves (record u { input = newline ∷ rest; cmd = q })
  unfolding round act
  round-quit u q rest is e next = rw (next_command-word u q rest is next, round, e) refl

  round-create :
      (u : Ufs nvme.Ns) (q rest : List ℕ)
      → IsWord q
      → dispatch q ≡ create
      → scan_word u.input ≡ scan_word (q ++ (newline ∷ rest))
      → round nvme answers scratch buf rounds u ≡ leaves (record u { input = rest; cmd = q })
  unfolding round act cmd_create scan_line
  round-create u q rest is e next = rw (next_command-word u q rest is next, round, e) refl

  -- The loop after idle lines, where a round then leaves.
  start_ufs-leaves :
      (ws : List (List ℕ)) (rest : List ℕ) (input cmd : List ℕ) (fuel : ℕ) (opens : Bool)
      (u : Ufs nvme.Ns)
      → AreIdle ws
      → length ws < fuel
      → u.input ≡ lines ws rest
      → ((v : Ufs nvme.Ns)
          → scan_word v.input ≡ scan_word rest
          → round nvme answers scratch buf rounds v
            ≡ leaves (record v { input = input; cmd = cmd }))
      → start_ufs nvme answers scratch buf rounds fuel opens u
        ≡ leaves (record u { sb = false; input = input; cmd = cmd })
  unfolding start_ufs loop
  start_ufs-leaves ws rest input cmd fuel opens u idle room given last =
      let opened : Ufs nvme.Ns = record u { sb = u.sb || opens } in
      let left : Ufs nvme.Ns → Next nvme.Ns = λ x. leaves (record x { input = input; cmd = cmd }) in
      rw
        (
          loop-lines nvme answers scratch buf rounds ws rest (left opened) fuel opened room idle
              (ap scan_word given) (λ k v same next. rw (last v next, loop) (ap left same)),
          start_ufs,
        )
        refl

  -- `start_ufs` reads lines of one word each, with `help`, `pwd`, `rm`, `stat` or an unknown word,
  -- and comes to its end at the first `quit` or `q`, with the device and what was printed as they
  -- were: one round for each line is enough. The words have at most 9 bytes.
  pub start_ufs-quit :
      (ws : List (List ℕ)) (q rest : List ℕ) (fuel : ℕ) (opens : Bool) (u : Ufs nvme.Ns)
      → AreIdle ws
      → IsWord q
      → dispatch q ≡ quit
      → length ws < fuel
      → u.input ≡ lines ws (q ++ (newline ∷ rest))
      → start_ufs nvme answers scratch buf rounds fuel opens u
        ≡ leaves (record u { sb = false; input = newline ∷ rest; cmd = q })
  start_ufs-quit ws q rest fuel opens u idle is e room given =
      start_ufs-leaves ws (q ++ (newline ∷ rest)) (newline ∷ rest) q fuel opens u idle room given
        (λ v next. round-quit v q rest is e next)

  -- After such lines `start_ufs` comes to its end at a `create` with no name behind it, too: what
  -- follows in the input is not read.
  pub start_ufs-create :
      (ws : List (List ℕ)) (q rest : List ℕ) (fuel : ℕ) (opens : Bool) (u : Ufs nvme.Ns)
      → AreIdle ws
      → IsWord q
      → dispatch q ≡ create
      → length ws < fuel
      → u.input ≡ lines ws (q ++ (newline ∷ rest))
      → start_ufs nvme answers scratch buf rounds fuel opens u
        ≡ leaves (record u { sb = false; input = rest; cmd = q })
  start_ufs-create ws q rest fuel opens u idle is e room given =
      start_ufs-leaves ws (q ++ (newline ∷ rest)) rest q fuel opens u idle room given
        (λ v next. round-create v q rest is e next)

  -- At the end of the input, an idle command is done again.
  act-eof :
      (a : Action) (u : Ufs nvme.Ns)
      → is_idle a ≡ true
      → u.input ≡ []
      → act nvme answers scratch buf rounds a u ≡ goes_on (record u { input = [] })
  unfolding act skip_line scan_line
  act-eof help u h e = ap (λ (i : List ℕ). goes_on (record u { input = i })) e
  act-eof pwd u h e = ap (λ (i : List ℕ). goes_on (record u { input = i })) e
  act-eof rm u h e = ap (λ (i : List ℕ). goes_on (record u { input = i })) e
  act-eof stat u h e = ap (λ (i : List ℕ). goes_on (record u { input = i })) e
  act-eof unknown u h e = rw e refl
  act-eof create u h e = cc
  act-eof ls u h e = cc
  act-eof print u h e = cc
  act-eof quit u h e = cc
  act-eof read u h e = cc
  act-eof write u h e = cc

  loop-forever :
      (ws : List (List ℕ)) (fuel : ℕ) (u : Ufs nvme.Ns)
      → is_idle (dispatch u.cmd) ≡ true
      → AreIdle ws
      → scan_word u.input ≡ scan_word (lines ws [])
      → loop nvme answers scratch buf rounds fuel u ≡ busy
  unfolding loop round
  loop-forever ws zero u cmd idle e = refl
  loop-forever [] (suc k) u cmd idle e =
      rw
        (
          next_command-eof u (unfold scan_word in e),
          round,
          act-eof (dispatch u.cmd) (record u { input = [] }) cmd refl,
          loop,
        )
        (loop-forever [] k (record u { input = [] }) cmd idle refl)
  loop-forever (w ∷ ws) (suc k) u cmd idle e =
      let (v, went, same, next, kept) =
        round-idle nvme answers scratch buf rounds u w (lines ws []) (idle.0).0 (idle.0).1 e in
      rw (went, loop)
        (loop-forever ws k v (ap (λ (c : List ℕ). is_idle (dispatch c)) kept ∙ (idle.0).1) idle.1
          next)

  -- Where the input ends after lines of such words, with no `quit`, `start_ufs` has no end: after
  -- any number of rounds it is still busy, with the last command once more. `cmd` holds such a word
  -- before the first line, too.
  pub start_ufs-busy :
      (ws : List (List ℕ)) (fuel : ℕ) (opens : Bool) (u : Ufs nvme.Ns)
      → is_idle (dispatch u.cmd) ≡ true
      → AreIdle ws
      → u.input ≡ lines ws []
      → start_ufs nvme answers scratch buf rounds fuel opens u ≡ busy
  unfolding start_ufs
  start_ufs-busy ws fuel opens u cmd idle given =
      rw
        (
          loop-forever ws fuel (record u { sb = u.sb || opens }) cmd idle (ap scan_word given),
          start_ufs,
        )
        refl
