-- ===== src/CommandLine.antt =====
-- process/cl.c: a command interpreter that reads a line at a time and waits for each command. The
-- words of a line are those of `strtok`, without quotes. A loop without fuel left is `none`. The
-- input is short enough to be in the buffer of standard input as a whole, so that a child has it too.
pub mod Doubling
pub mod Lines
pub mod LongLines
pub mod Session
pub mod Words
mod Tests
use unix_study.Shell.World.{Binding}
use unix_study.Display.{display_status, StatusLine}
use unix_study.Shell.Builtin.{setenv, after_eq, until_eq, token, skip_eq, contains}
use unix_study.Prelude.{
  ◌>>=◌, ◌&&◌, map, ◌-◌, ℕ, zero, suc, ◌+◌, Bool, true, false, ◌||◌, Option, none, some, List, [],
  ◌∷◌, ◌++◌, Bytes, codes, leb, length, ◌==◌, if◌then◌else◌, equal,
}

abbrev pub max_line : ℕ
max_line = 200

abbrev pub max_arg : ℕ
max_arg = 20

-- What the program prints, newest first in a log, and the processes that it starts.
pub data Event : Type 0 where
  read_error line_too_long too_many_args extra_args bad_assignment : Event
  prompt parent_error not_reached cannot_execute : Event
  user_line group_line : ℕ → Bytes → ℕ → Bytes → Event
  environment_line : Bytes → Event
  ran : ℕ → List Bytes → Event
  status_line : StatusLine → Event

-- The bytes that are still to be read from standard input, and whether reading fails behind them.
pub record Input : Type 0 where
  pub bytes : Bytes
  pub failed : Bool

-- `fgets` with room for `n` bytes: what it read, what is left, and whether it met the end.
unfoldable pub fgets : ℕ → Bytes → Bytes × Bytes × Bool
fgets zero bs = ([], bs, false)
fgets (suc n) [] = ([], [], true)
fgets (suc n) (c ∷ cs) =
    let (got, left, at_end) = fgets n cs in
    if c == b'\n' then (c ∷ [], cs, false) else (c ∷ got, left, at_end)

-- `fgets` returns NULL at the end of the file, when nothing was read, and when reading fails.
abbrev pub is_null : Bytes → Bool → Bool → Bool
is_null [] at_end failed = at_end
is_null (_ ∷ _) at_end failed = at_end && failed

-- What a string function sees of the buffer.
unfoldable pub before_nul : Bytes → Bytes
before_nul [] = []
before_nul (c ∷ cs) = if c == 0 then [] else c ∷ before_nul cs

-- The loop that eats up the rest of a line. At the end of the file `continue` calls `getchar` again.
unfoldable pub eat_rest : ℕ → Bytes → Option Bytes
eat_rest zero bs = none
eat_rest (suc fuel) [] = eat_rest fuel []
eat_rest (suc fuel) (c ∷ cs) = let rest = eat_rest fuel cs in if c == b'\n' then some cs else rest

abbrev pub is_separator : ℕ → Bool
is_separator c = c == b' ' || c == b'\t' || c == b'\n'

-- `strtok(cmdp, " \t\n")`: the separators in front, the word, and what is behind its end.
unfoldable pub skip_separators : Bytes → Bytes
skip_separators [] = []
skip_separators (c ∷ cs) = let rest = skip_separators cs in if is_separator c then rest else c ∷ cs

unfoldable pub until_separator : Bytes → Bytes
until_separator [] = []
until_separator (c ∷ cs) = if is_separator c then [] else c ∷ until_separator cs

unfoldable pub after_separator : Bytes → Bytes
after_separator [] = []
after_separator (c ∷ cs) = if is_separator c then cs else after_separator cs

abbrev pub first_word : Bytes → Option (Bytes × Bytes)
first_word [] = none
first_word (c ∷ cs) = some (until_separator (c ∷ cs), after_separator (c ∷ cs))

abbrev pub strtok : Bytes → Option (Bytes × Bytes)
strtok s = first_word (skip_separators s)

-- The loop over the words, of which it takes `max` at most.
unfoldable pub fill : ℕ → Bytes → List Bytes
fill zero s = []
fill (suc max) s = elim (strtok s) [ none ↦ [] | some (word, rest) ↦ word ∷ fill max rest ]

-- What `getargs` answers: nothing and the end of the file, nothing, or the words.
pub data Args : Type 0 where
  end_of_file ignored : Args
  words : List Bytes → Args

abbrev pub taken : List Bytes → Args × List Event
taken argv = if leb max_arg (length argv) then (ignored, too_many_args ∷ []) else (words argv, [])

unfoldable pub has_newline : Bytes → Bool
has_newline [] = false
has_newline (c ∷ cs) = c == b'\n' || has_newline cs

abbrev pub answered : Input → Args × List Event → Args × Input × List Event
answered i (args, es) = (args, i, es)

abbrev pub too_long : Input → Option Bytes → Option (Args × Input × List Event)
too_long i none = none
too_long i (some left) = some (ignored, record i { bytes = left }, line_too_long ∷ [])

-- `getargs`: the answer, the input left, and what is printed.
unfoldable pub getargs : ℕ → Input → Option (Args × Input × List Event)
getargs fuel i =
    let (cmd, rest, at_end) = fgets (max_line - 1) i.bytes in
    if is_null cmd at_end i.failed
    then some (end_of_file, record i { bytes = rest }, if i.failed then read_error ∷ [] else [])
    else if has_newline (before_nul cmd)
    then some (answered (record i { bytes = rest }) (taken (fill max_arg (before_nul cmd))))
    else too_long i (eat_rest fuel rest)

pub record State : Type 0 where
  pub input : Input
  pub env : List Binding
  pub log : List Event

-- What the system answers: the ids of the user and the group, real and effective, and their names,
-- of which `none` is NULL; `fork`; whether `execvp` works, and the status that `waitpid` then gives.
pub record Os : Type 0 where
  pub uid : ℕ
  pub euid : ℕ
  pub gid : ℕ
  pub egid : ℕ
  pub getpwuid : ℕ → Option Bytes
  pub getgrgid : ℕ → Option Bytes
  pub fork_pid : List Event → Option ℕ
  pub executes : List Binding → List Bytes → Bool
  pub status_of : ℕ → List Event → ℕ

-- `print_user`, the last line first. It does not test for NULL, whose member it reads: `none`.
unfoldable pub print_user : Os → Option (List Event)
print_user os = do
  pwd ← os.getpwuid os.uid
  epwd ← os.getpwuid os.euid
  grp ← os.getgrgid os.gid
  egrp ← os.getgrgid os.egid
  some (group_line os.gid grp os.egid egrp ∷ user_line os.uid pwd os.euid epwd ∷ [])

unfoldable pub asg : Bytes → List Bytes → State → State
asg arg [] s =
    let t = skip_eq arg in
    elim (token (until_eq t)) [
      | none ↦ record s { log = bad_assignment ∷ s.log }
      | some name ↦ elim (token (after_eq t)) [
        | none ↦ record s { log = bad_assignment ∷ s.log }
        | some val ↦ record s { env = setenv name val s.env }
      ]
    ]
asg arg (_ ∷ _) s = record s { log = extra_args ∷ s.log }

unfoldable pub print_all : List Event → List Event → List Event
print_all [] log = log
print_all (e ∷ es) log = print_all es (e ∷ log)

unfoldable pub set : List Bytes → State → State
set [] s = record s {
  log = print_all (map (λ (b : Binding). environment_line (b.0 ++ b'=' ∷ b.1)) s.env) s.log;
}
set (_ ∷ _) s = record s { log = extra_args ∷ s.log }

abbrev pub noted : Event → State → State
noted e s = record s { log = e ∷ s.log }

-- How a command leaves the interpreter: it goes on; or a child whose `execvp` failed goes on first,
-- and when it has ended, with the log that it leaves, the parent does.
pub data Next : Type 0 where
  goes_on : State → Next
  strays : State → (List Event → State) → Next

-- The `switch` of `execute2` and `execute3`, with what the parent does at the end of its child, which
-- has a status. Behind the end of the input `main` exits with success.
unfoldable pub run_child : Os → (ℕ → ℕ → State → State) → List Bytes → State → Next
run_child os waited argv s = elim (os.fork_pid s.log) [
  | none ↦ goes_on (noted parent_error s)
  | some pid ↦
      let t = noted (ran pid argv) s in
      if os.executes s.env argv
      then goes_on (waited pid (os.status_of pid t.log) t)
      else strays (noted not_reached t) (λ log. waited pid 0 (record t { log = log }))
]

-- The process is another program, or goes on here.
unfoldable pub execute : Os → List Bytes → State → Option State
execute os argv s = if os.executes s.env argv then none else some (noted cannot_execute s)

abbrev pub execute2 : Os → List Bytes → State → Next
execute2 os = run_child os (λ pid status s. s)

abbrev pub show_status : ℕ → ℕ → State → State
show_status pid status s = record s {
  log = print_all (map status_line (display_status (some pid) status)) s.log;
}

abbrev pub execute3 : Os → List Bytes → State → Next
execute3 os = run_child os show_status

-- What `main` does with the words of a line.
unfoldable pub run_args : Os → List Bytes → State → Next
run_args os [] s = goes_on s
run_args os (arg ∷ args) s =
    if contains b'=' arg
    then goes_on (asg arg args s)
    else if equal arg (codes "set")
    then goes_on (set args s)
    else execute3 os (arg ∷ args) s

-- How `main` ends: with `exit`, or by a NULL in `print_user`.
pub data Ended : Type 0 where
  exited : State → Ended
  undefined : Ended

-- What follows the end of a child that was a second interpreter.
abbrev pub after_child : (List Event → Option Ended) → Option Ended → Option Ended
after_child parent none = none
after_child parent (some undefined) = some undefined
after_child parent (some (exited t)) = parent t.log

abbrev pub after_run : (State → Option Ended) → Next → Option Ended
after_run next (goes_on s) = next s
after_run next (strays child parent) = after_child (λ log. next (parent log)) (next child)

abbrev pub after_args :
    Os → (State → Option Ended) → State → Option (Args × Input × List Event) → Option Ended
after_args os next s none = none
after_args os next s (some (end_of_file, i, es)) =
    some (exited (record s { input = i; log = es ++ s.log }))
after_args os next s (some (ignored, i, es)) = next (record s { input = i; log = es ++ s.log })
after_args os next s (some (words argv, i, es)) =
    after_run next (run_args os argv (record s { input = i; log = es ++ s.log }))

abbrev pub after_user : Os → (State → Option Ended) → ℕ → State → Option (List Event) → Option Ended
after_user os next fuel s none = some undefined
after_user os next fuel s (some es) =
    after_args os next (record s { log = prompt ∷ es ++ s.log }) (getargs fuel s.input)

-- The loop of `main`; it ends with the end of the file.
unfoldable pub main : Os → ℕ → State → Option Ended
main os zero s = none
main os (suc fuel) s = after_user os (main os fuel) fuel s (print_user os)
