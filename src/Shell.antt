-- ===== src/Shell.antt =====
-- The shell src/ufs/ufs_sh.c: what it reads of its input, and the choice of a command.
pub mod Commands
pub mod Loop
pub mod Main
pub mod Choice
use test_vsfs.Prelude.{
  ℕ, zero, suc, Bool, true, false, Option, none, some, List, [], ◌∷◌, ◌++◌, ◌==◌, leb, ◌&&◌, ◌||◌,
  if◌then◌else◌,
}

abbrev pub newline : ℕ
newline = 10

-- `isspace`
abbrev pub is_space : ℕ → Bool
is_space c = (c == b' ') || (leb 9 c && leb c 13)

-- `scanf("%s")`: the word, or `none` at the end of the input, where the buffer is left alone.
pub word_end : List ℕ → List ℕ × List ℕ
word_end [] = ([], [])
word_end (c ∷ cs) =
    let (w, rest) = word_end cs in if is_space c then ([], c ∷ cs) else (c ∷ w, rest)

pub scan_word : List ℕ → Option (List ℕ) × List ℕ
unfolding word_end
scan_word [] = (none, [])
scan_word (c ∷ cs) =
    let later = scan_word cs in
    let (w, rest) = word_end cs in if is_space c then later else (some (c ∷ w), rest)

-- `scanf("%[^\n]")`: the rest of the line. Its result is -1 at the end of the input, 0 at a
-- newline, and 1 otherwise.
pub data Line : Type 0 where
  at_eof : Line
  nothing : Line
  line : List ℕ → Line

pub line_end : List ℕ → List ℕ × List ℕ
line_end [] = ([], [])
line_end (c ∷ cs) =
    let (w, rest) = line_end cs in if c == newline then ([], c ∷ cs) else (c ∷ w, rest)

pub scan_line : List ℕ → Line × List ℕ
unfolding line_end
scan_line [] = (at_eof, [])
scan_line (c ∷ cs) =
    let (w, rest) = line_end cs in if c == newline then (nothing, c ∷ cs) else (line (c ∷ w), rest)

-- `getchar`
abbrev pub drop_char : List ℕ → List ℕ
drop_char [] = []
drop_char (c ∷ cs) = cs

-- `!strcmp`
unfoldable pub word_eq : List ℕ → List ℕ → Bool
word_eq [] [] = true
word_eq [] (d ∷ ds) = false
word_eq (c ∷ cs) [] = false
word_eq (c ∷ cs) (d ∷ ds) = (c == d) && word_eq cs ds

-- The calls of `strtok` with " ": what stands between spaces, empty pieces left out. `w` is what
-- was read of the piece so far.
pub tokens : (w : List ℕ) → List ℕ → List (List ℕ)
tokens [] [] = []
tokens (d ∷ w) [] = (d ∷ w) ∷ []
tokens w (c ∷ cs) = elim (c == b' ') [
  | false ↦ tokens (w ++ c ∷ []) cs
  | true ↦ elim w [ [] ↦ tokens [] cs | d ∷ ds ↦ (d ∷ ds) ∷ tokens [] cs ]
]

pub data Action : Type 0 where
  create help ls pwd print quit rm read stat write unknown : Action

abbrev pub create_word : List ℕ
create_word = b'c' ∷ b'r' ∷ b'e' ∷ b'a' ∷ b't' ∷ b'e' ∷ []

abbrev pub help_word : List ℕ
help_word = b'h' ∷ b'e' ∷ b'l' ∷ b'p' ∷ []

abbrev pub ls_word : List ℕ
ls_word = b'l' ∷ b's' ∷ []

abbrev pub pwd_word : List ℕ
pwd_word = b'p' ∷ b'w' ∷ b'd' ∷ []

abbrev pub quit_word : List ℕ
quit_word = b'q' ∷ b'u' ∷ b'i' ∷ b't' ∷ []

abbrev pub rm_word : List ℕ
rm_word = b'r' ∷ b'm' ∷ []

abbrev pub read_word : List ℕ
read_word = b'r' ∷ b'e' ∷ b'a' ∷ b'd' ∷ []

abbrev pub stat_word : List ℕ
stat_word = b's' ∷ b't' ∷ b'a' ∷ b't' ∷ []

abbrev pub write_word : List ℕ
write_word = b'w' ∷ b'r' ∷ b'i' ∷ b't' ∷ b'e' ∷ []

-- The cases of the `switch`, the last one first: without a match each goes on with the next.
pub from_w : List ℕ → Action
from_w cmd = if word_eq cmd write_word then write else unknown

pub from_s : List ℕ → Action
from_s cmd = if word_eq cmd stat_word then stat else from_w cmd

pub from_r : List ℕ → Action
from_r cmd = if word_eq cmd rm_word then rm else if word_eq cmd read_word then read else from_s cmd

pub from_q : List ℕ → Action
from_q cmd = if word_eq cmd quit_word || word_eq cmd (b'q' ∷ []) then quit else from_r cmd

pub from_p : List ℕ → Action
from_p cmd =
    if word_eq cmd pwd_word then pwd else if word_eq cmd (b'p' ∷ []) then print else from_q cmd

pub from_l : List ℕ → Action
from_l cmd = if word_eq cmd ls_word then ls else from_p cmd

pub from_h : List ℕ → Action
from_h cmd = if word_eq cmd help_word || word_eq cmd (b'h' ∷ []) then help else from_l cmd

pub from_c : List ℕ → Action
from_c cmd = if word_eq cmd create_word then create else from_h cmd

abbrev pub first_char : List ℕ → ℕ
first_char [] = 0
first_char (c ∷ cs) = c

-- `switch (cmd[0])`
unfoldable pub dispatch : List ℕ → Action
unfolding from_c from_h from_l from_p from_q from_r from_s from_w
dispatch cmd =
    let c = first_char cmd in
    if c == b'c'
    then from_c cmd
    else if c == b'h'
    then from_h cmd
    else if c == b'l'
    then from_l cmd
    else if c == b'p'
    then from_p cmd
    else if c == b'q'
    then from_q cmd
    else if c == b'r'
    then from_r cmd
    else if c == b's'
    then from_s cmd
    else if c == b'w'
    then from_w cmd
    else unknown
