-- ===== src/Shell/World.antt =====
-- The state of the shell of communication/shell.c, and the system that it calls.
pub mod Laws
use unix_study.Prelude.{◌==◌, if◌then◌else◌, some, ℕ, Bool, Option, List, [], ◌∷◌, Bytes}
use unix_study.Display.{StatusLine}
use unix_study.Shell.Lexer.{LexNote, Stdin}
use unix_study.Shell.Table.{OpenMode, Table}

-- What the shell prints.
pub data Note : Type 0 where
  lexical : LexNote → Note
  extra_args bad_assignment illegal_redirection : Note
  environment_line : Bytes → Note
  bad_directory : Bytes → Note
  fd_is_open : ℕ → Note
  no_new_process : Note
  background_pid : ℕ → Note
  too_many_args out_of_arg_memory extra_lt illegal_lt extra_gt illegal_gt conflicts_with_bar : Note
  missing_command bad_command prompt : Note
  status_line : StatusLine → Note

-- A variable and its value.
abbrev pub Binding : Type 0
Binding = Bytes × Bytes

-- What a child calls `execvp` with, and the environment, the descriptors and the signals that the
-- command starts with.
pub record Exec : Type 0 where
  pub path : Bytes
  pub args : List Bytes
  pub env : List Binding
  pub table : Table
  pub default_signals : Bool

-- What becomes of a child: it calls `execvp`, its `fd_check` ends it, or it reads a file name
-- past the end of its array.
pub data Child : Type 0 where
  execs : Exec → Child
  refused : Child
  undefined : Child

pub data Event : Type 0 where
  said : Note → Event
  allocated : Event
  piped : Event
  forked : ℕ → Child → Event
  fork_failed : Event
  changed_dir : Bytes → Event
  waited : Option ℕ → ℕ → Event

-- What `open` answers, by what the process has open, the name, and how it is to be opened; `none` is -1.
abbrev pub Opener : Type 0
Opener = Table → Bytes → OpenMode → Option ℕ

-- Answers of the system. Each may depend on all that happened before; each call adds an event, so
-- that two calls can be answered differently. `none` is -1.
pub record Os : Type 0 where
  pub malloc_works : List Event → Bool
  pub pipe_fds : Table → List Event → Option (ℕ × ℕ)
  pub fork_pid : List Event → Option ℕ
  pub open_fd : List Event → Opener
  pub chdir_works : Bytes → List Event → Bool
  pub wait_any : List Event → Option ℕ × ℕ
  -- What uninitialised variables hold: a `bool`, and the array `word`.
  pub some_bool : Bool
  pub some_bytes : Bytes

-- The log has the newest event first. `pipes` counts the pipes that were made.
pub record World : Type 0 where
  pub input : Stdin
  pub table : Table
  pub pipes : ℕ
  pub env : List Binding
  pub log : List Event

unfoldable pub emit : Event → World → World
emit e w = record w { log = e ∷ w.log }

unfoldable pub say : Note → World → World
say n w = record w { log = said n ∷ w.log }

unfoldable pub say_all : List Note → World → World
say_all [] w = w
say_all (n ∷ ns) w = say_all ns (say n w)

-- A list without a number.
unfoldable pub remove : ℕ → List ℕ → List ℕ
remove p [] = []
remove p (q ∷ qs) = let rest = remove p qs in if q == p then rest else q ∷ rest

-- The children that no wait has reported yet.
unfoldable pub alive : List Event → List ℕ
alive [] = []
alive (forked pid c ∷ log) = pid ∷ alive log
alive (waited (some pid) status ∷ log) = remove pid (alive log)
alive (_ ∷ log) = alive log

-- The directories that `chdir` was called with, the newest first.
unfoldable pub dirs_in : List Event → List Bytes
dirs_in [] = []
dirs_in (changed_dir path ∷ log) = path ∷ dirs_in log
dirs_in (_ ∷ log) = dirs_in log

-- The children in a log, the newest first.
unfoldable pub children_in : List Event → List Child
children_in [] = []
children_in (forked pid c ∷ log) = c ∷ children_in log
children_in (_ ∷ log) = children_in log
