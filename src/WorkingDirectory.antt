-- ===== src/WorkingDirectory.antt =====
-- advanced_io/example.c: the working directory and the length of its paths.
use unix_study.Prelude.{[], ◌∷◌, ◌>>=◌, some, Option, List, ℕ, Bytes}

-- The system: `getcwd` for a size, where `none` is NULL, `pathconf` for `_PC_PATH_MAX`, where `none` is -1,
-- and the size of a pointer.
pub record Os : Type 0 where
  pub getcwd : ℕ → Option Bytes
  pub pathconf : Bytes → Option ℕ
  pub pointer_size : ℕ

pub data Line : Type 0 where
  size : ℕ → Line
  current : Bytes → Line
  max_length : Option ℕ → Line

-- `none` is undefined behaviour: `%s` for NULL.
unfoldable pub main : Os → Option (List Line)
main os = do
  path ← os.getcwd 200
  some (size os.pointer_size ∷ current path ∷ max_length (os.pathconf path) ∷ [])
