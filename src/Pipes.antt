-- ===== src/Pipes.antt =====
-- communication/who_count.c, fsort.c, pipe.c and pread.c: programs joined by pipes. A process has a
-- table of descriptors, as in Shell/Table.
pub mod Fsort
pub mod Hello
pub mod InShell
mod Tests
pub mod WhoCount
use unix_study.Prelude.{zero, suc, none, some, Option, Bool, ◌∷◌, if◌then◌else◌, List, ℕ, Bytes}
use unix_study.Shell.Table.{File, Table, put, pipe_read, pipe_write}

-- What a process executes, with its descriptors.
pub record Exec : Type 0 where
  pub path : Bytes
  pub args : List Bytes
  pub table : Table

-- What happens, the newest event first. `forked` is the start of a child, which calls `execlp`, and
-- `born` is its own beginning. A process writes bytes to what a descriptor refers to. `waited` is a call of
-- `waitpid` with the descriptors that the process has while it waits.
pub data Event : Type 0 where
  forked : ℕ → Exec → Event
  born fork_error : Event
  wrote : Option File → Bytes → Event
  waited : Option ℕ → Table → Event

-- The system: `pipe` and `fork`, where `none` is -1, and whether `execlp` works for a program. A `fork`
-- that answers 0 is that of a child, so that one function is the program and its children.
pub record Os : Type 0 where
  pub pipe_fds : Table → Option (ℕ × ℕ)
  pub fork_pid : List Event → Option ℕ
  pub executes : Bytes → Bool

-- How a process ends: its `main` returns, it executes a program, it waits for ever for a `read`, or
-- it goes on with descriptors that were never set.
pub data Outcome : Type 0 where
  finished : Table → List Event → Outcome
  became : Exec → List Event → Outcome
  waiting : Outcome
  undefined : Outcome

-- What is behind a `switch` over `fork`: it has the answer, the descriptors, and what has happened.
abbrev pub Behind : Type 0
Behind = Option ℕ → Table → List Event → Outcome

-- `execlp`; where it fails, the process goes on behind the `switch`.
abbrev pub execute : Os → Exec → Option ℕ → List Event → Behind → Outcome
execute os e pid log next = if os.executes e.path then became e log else next pid e.table log

-- A `switch` over `fork`, whose `case -1` has no `break`, so that the process itself goes on into the
-- `case 0` of the child.
abbrev pub by_answer : Os → Exec → Table → List Event → Behind → Option ℕ → Outcome
by_answer os child t log next none = execute os child none (fork_error ∷ log) next
by_answer os child t log next (some zero) = execute os child (some 0) (born ∷ log) next
by_answer os child t log next (some (suc n)) = next (some (suc n)) t (forked (suc n) child ∷ log)

unfoldable pub switch_fork : Os → Exec → Table → List Event → Behind → Outcome
switch_fork os child t log next = by_answer os child t log next (os.fork_pid log)

-- The two descriptors of the `p`-th pipe.
abbrev pub with_pipe : ℕ → ℕ → ℕ → Table → Table
with_pipe p r wr t = put (put t r (some (pipe_read p))) wr (some (pipe_write p))
