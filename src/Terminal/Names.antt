-- ===== src/Terminal/Names.antt =====
-- terminal/t.c: the terminals of the standard descriptors.
use unix_study.Prelude.{
  [], ◌∷◌, ◌>>=◌, some, true, arith, ◌≡◌, ◌↔◌, Option, List, ℕ, Bytes, is_some,
}
use unix_study.Shell.Table.{stdin_fileno, stdout_fileno}

abbrev pub stderr_fileno : ℕ
stderr_fileno = 2

pub data Line : Type 0 where
  tty_in tty_out tty_err : ℕ → Bytes → Line

-- `ttyname`, where `none` is NULL, which `printf` must not be given.
unfoldable pub main : (ℕ → Option Bytes) → Option (List Line)
main ttyname = do
  input ← ttyname stdin_fileno
  output ← ttyname stdout_fileno
  errors ← ttyname stderr_fileno
  some
      (tty_in stdin_fileno input ∷ tty_out stdout_fileno output ∷ tty_err stderr_fileno errors ∷ [])

-- The program has a defined output exactly if all the three are terminals.
pub main_iff :
    (ttyname : ℕ → Option Bytes)
    → (is_some (main ttyname) ≡ true)
      ↔ ((is_some (ttyname 0) ≡ true) × (is_some (ttyname 1) ≡ true) × (is_some (ttyname 2) ≡ true))
unfolding main
main_iff ttyname = ground arith
