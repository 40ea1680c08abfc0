-- ===== src/Shell/Table.antt =====
-- The descriptors of a process, and `fd_check` of communication/shell.c.
pub mod Check
use unix_study.Prelude.{
  ℕ, zero, suc, ◌+◌, Option, none, some, is_some, List, [], ◌∷◌, Bytes, ◌==◌, if◌then◌else◌,
}

-- A descriptor in a variable of the program; `none` is -1.
abbrev pub Fd : Type 0
Fd = Option ℕ

abbrev pub stdin_fileno : ℕ
stdin_fileno = 0

abbrev pub stdout_fileno : ℕ
stdout_fileno = 1

pub data OpenMode : Type 0 where
  read_only create_append create_truncate : OpenMode

-- What a descriptor refers to: what the shell was started with, a file, or an end of the n-th pipe.
pub data File : Type 0 where
  inherited : ℕ → File
  opened : Bytes → OpenMode → File
  pipe_read : ℕ → File
  pipe_write : ℕ → File

abbrev pub Table : Type 0
Table = ℕ → Option File

unfoldable pub put : Table → ℕ → Option File → Table
put t fd x k = if k == fd then x else t k

-- `close` and `dup2`; both fail on a descriptor that is not open, and change nothing.
unfoldable pub close : Fd → Table → Table
close none t = t
close (some fd) t = put t fd none

unfoldable pub dup2 : Fd → ℕ → Table → Table
dup2 none new t = t
dup2 (some fd) new t = elim (t fd) [ none ↦ t | some f ↦ put t new (some f) ]

-- The open descriptors among `n` from `fd` on, in order.
unfoldable pub open_from : Table → ℕ → ℕ → List ℕ
open_from t zero fd = []
open_from t (suc n) fd =
    let rest = open_from t n (fd + 1) in if is_some (t fd) then fd ∷ rest else rest

-- The descriptors that `fd_check` complains of; if there is one it ends the process.
unfoldable pub fd_check : Table → List ℕ
unfolding open_from
fd_check t = open_from t 17 3
