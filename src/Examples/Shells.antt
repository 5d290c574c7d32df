-- ===== src/Examples/Shells.antt =====
-- Inputs of the shell.
use test_vsfs.Prelude.{ℕ, ◌≡◌, refl, arith, true, false, List, [], ◌∷◌, ◌++◌}
use Prim.{tt}
use test_vsfs.Memory.{Memory}
use test_vsfs.State.{null}
use test_vsfs.Device.State.{Scratch, null_reg}
use test_vsfs.Shell.{newline, create_word, pwd_word, dispatch, word_eq}
use test_vsfs.Shell.Commands.{Ufs, leaves, busy}
use test_vsfs.Shell.Loop.{start_ufs}
use test_vsfs.Shell.Loop.Laws.{AreIdle, lines}
use test_vsfs.Shell.Loop.Ends.{start_ufs-quit, start_ufs-create, start_ufs-busy}
use test_vsfs.Shell.Choice.{table, named, dispatch-named}
use test_vsfs.Examples.{small_cached, all_well}
use test_vsfs.Examples.Devices.{disk}

abbrev empty : Memory
empty _ = 0

abbrev scratch : Scratch
scratch = record { array = empty; ptr_reg = empty; l3_ptr_reg = empty; dma_buf = empty }

-- The lines `pwd`, `q` or `create`, and the rest.
abbrev shell : (last rest : List ℕ) → Ufs (ℕ → ℕ → ℕ)
shell last rest = record {
  device = record {
    ns = λ _ _. 0;
    cached = small_cached;
    inode_reg = null_reg;
    op_counter = 0;
    op_ftable = λ _. record {
      offset = 0;
      inode_nr = 0;
      ptr_counter = 0;
      lock = 0;
      file_ptr = record {
        size = 0;
        mode = 0;
        blocks = 0;
        block = empty;
        inode = 0;
        atime = 0;
        ctime = 0;
        mtime = 0;
      };
    };
    fd_table = null;
    cached_mapped = false;
    optab_mapped = false;
  };
  sb = false;
  input = lines (pwd_word ∷ []) (last ++ rest);
  cmd = [];
  calls = 0;
  printed = [];
}

pwd-AreIdle : AreIdle (pwd_word ∷ [])
pwd-AreIdle =
    ((((refl, (refl, (refl, tt))), omega arith, omega arith), unfold dispatch word_eq in refl), tt)

abbrev to_quit : Ufs (ℕ → ℕ → ℕ)
to_quit = shell (b'q' ∷ []) (newline ∷ [])

start_ufs-quit_example :
    start_ufs disk (λ _. all_well) scratch empty 0 2 true to_quit
    ≡ leaves (record to_quit { sb = false; input = newline ∷ []; cmd = b'q' ∷ [] })
start_ufs-quit_example =
    start_ufs-quit disk (λ _. all_well) scratch empty 0 (pwd_word ∷ []) (b'q' ∷ []) [] 2 true
      to_quit pwd-AreIdle ((refl, tt), omega arith, omega arith) (unfold dispatch word_eq in refl)
      (omega arith) refl

abbrev to_create : Ufs (ℕ → ℕ → ℕ)
to_create = shell create_word (newline ∷ pwd_word)

start_ufs-create_example :
    start_ufs disk (λ _. all_well) scratch empty 0 2 true to_create
    ≡ leaves (record to_create { sb = false; input = pwd_word; cmd = create_word })
start_ufs-create_example =
    start_ufs-create disk (λ _. all_well) scratch empty 0 (pwd_word ∷ []) create_word pwd_word 2
      true to_create pwd-AreIdle
      ((refl, (refl, (refl, (refl, (refl, (refl, tt)))))), omega arith, omega arith)
      (unfold dispatch word_eq in refl) (omega arith) refl

abbrev no_quit : Ufs (ℕ → ℕ → ℕ)
no_quit = record (shell [] []) { cmd = pwd_word }

start_ufs-busy_example : start_ufs disk (λ _. all_well) scratch empty 0 5 true no_quit ≡ busy
start_ufs-busy_example =
    start_ufs-busy disk (λ _. all_well) scratch empty 0 (pwd_word ∷ []) 5 true no_quit
      (unfold dispatch word_eq in refl) pwd-AreIdle refl

dispatch-named_example : dispatch create_word ≡ named create_word table
dispatch-named_example = dispatch-named create_word
