-- ===== src/Shell/Choice.antt =====
-- The `switch` with its cases that run on into the next is a table of words.
use test_vsfs.Prelude.{ℕ, ◌≡◌, refl, arith, List, [], ◌∷◌, if◌then◌else◌}
use test_vsfs.Shell.{
  word_eq, Action, create, help, ls, pwd, print, quit, rm, read, stat, write, unknown, create_word,
  help_word, ls_word, pwd_word, quit_word, rm_word, read_word, stat_word, write_word, dispatch,
}

-- The words of the commands, with the action of each.
abbrev pub table : List (List ℕ × Action)
table =
    (create_word, create)
    ∷ (help_word, help)
    ∷ (b'h' ∷ [], help)
    ∷ (ls_word, ls)
    ∷ (pwd_word, pwd)
    ∷ (b'p' ∷ [], print)
    ∷ (quit_word, quit)
    ∷ (b'q' ∷ [], quit)
    ∷ (rm_word, rm)
    ∷ (read_word, read)
    ∷ (stat_word, stat)
    ∷ (write_word, write)
    ∷ []

abbrev pub named : List ℕ → List (List ℕ × Action) → Action
named cmd [] = unknown
named cmd ((w, a) ∷ rest) = if word_eq cmd w then a else named cmd rest

-- Every word, in whatever case of the `switch` it starts, is the command that the table has for it,
-- and unknown where the table has none.
pub dispatch-named : (cmd : List ℕ) → dispatch cmd ≡ named cmd table
unfolding dispatch word_eq
dispatch-named [] = refl
dispatch-named (c ∷ cs) = ground arith
