-- ===== src/Shell/Invoke.antt =====
-- `redirect` and `invoke` of communication/shell.c.
pub mod Frame
pub mod Redirection
pub mod Sealed
use unix_study.Prelude.{
  ℕ, Bool, false, not, ◌&&◌, Option, none, some, List, [], ◌∷◌, Bytes, codes, c_string, ltb, ◌==◌,
  if◌then◌else◌,
}
use unix_study.Shell.Table.{
  Fd, stdin_fileno, stdout_fileno, OpenMode, read_only, create_append, create_truncate, opened,
  Table, put, close, dup2, fd_check,
}
use unix_study.Shell.World.{
  Opener, Binding, Os, no_new_process, background_pid, Child, execs, refused, undefined, forked,
  fork_failed, World, emit, say,
}
use unix_study.Shell.Builtin.{builtin, is_fd}

-- Where a command reads and writes: the descriptors, the two name arrays, and `append`.
pub record Io : Type 0 where
  pub srcfd : Fd
  pub srcfile : Bytes
  pub dstfd : Fd
  pub dstfile : Bytes
  pub append : Bool

-- `open`, which a child calls at most once to read and once to write: the descriptor, and the table that has it.
unfoldable pub open_file : Opener → Bytes → OpenMode → Table → Fd × Table
open_file open_fd name mode t = elim (open_fd t name mode) [
  | none ↦ (none, t)
  | some fd ↦ (some fd, put t fd (some (opened name mode)))
]

-- Opens the file that an array names, if its first byte is not NUL. `none` is an array without NUL.
unfoldable pub open_named : Opener → Option Bytes → OpenMode → Fd → Table → Option (Fd × Table)
open_named open_fd none mode fd t = none
open_named open_fd (some []) mode fd t = some (fd, t)
open_named open_fd (some (c ∷ cs)) mode fd t = some (open_file open_fd (c ∷ cs) mode t)

-- `dup2` onto a standard descriptor, and `close` unless they are the same.
unfoldable pub move_fd : Fd → ℕ → Table → Table
move_fd fd std t = if is_fd std fd then dup2 fd std t else close fd (dup2 fd std t)

-- The source of the input, once a background command has been cut off from the terminal.
unfoldable pub source_of : Io → Bool → Fd × Option Bytes
source_of io bckgrnd =
    if is_fd stdin_fileno io.srcfd && bckgrnd
    then (none, some (codes "/dev/null"))
    else (io.srcfd, c_string io.srcfile)

-- The table that `redirect` leaves; `none` is a name that runs past its array.
unfoldable pub redirect : Opener → Io → Bool → Table → Option Table
redirect open_fd io bckgrnd t =
    let (srcfd, srcfile) = source_of io bckgrnd in
    elim (open_named open_fd srcfile read_only srcfd t) [
      | none ↦ none
      | some (src, t₁) ↦
          let t₂ = move_fd src stdin_fileno t₁ in
          elim (open_named open_fd (c_string io.dstfile)
            (if io.append then create_append else create_truncate) io.dstfd t₂) [
              | none ↦ none
              | some (dst, t₃) ↦ some (move_fd dst stdout_fileno t₃)
            ]
    ]

-- `strchr(argv[0], '/')`, and what is behind it.
unfoldable pub after_slash : Bytes → Option Bytes
after_slash [] = none
after_slash (c ∷ cs) = if c == b'/' then some cs else after_slash cs

abbrev pub cmdname : Bytes → Bytes
cmdname arg = elim (after_slash arg) [ none ↦ arg | some name ↦ name ]

abbrev pub run_child : Bytes → List Bytes → List Binding → Bool → Option Table → Child
run_child arg args env bckgrnd none = undefined
run_child arg args env bckgrnd (some t) = elim (fd_check t) [
  | [] ↦ execs (record {
    path = arg;
    args = cmdname arg ∷ args;
    env = env;
    table = t;
    default_signals = not bckgrnd;
  })
  | _ ∷ _ ↦ refused
]

-- `case 0` of `invoke`, in the child's copy of the environment and the descriptors.
unfoldable pub child : Opener → Bytes → List Bytes → List Binding → Io → Bool → Fd → Table → Child
child open_fd arg args env io bckgrnd closefd t =
    run_child arg args env bckgrnd (redirect open_fd io bckgrnd (close closefd t))

-- `fd > STDOUT_FILENO`
abbrev pub is_above_stdout : Fd → Bool
is_above_stdout none = false
is_above_stdout (some fd) = ltb stdout_fileno fd

abbrev pub close_above : Fd → Table → Table
close_above fd t = if is_above_stdout fd then close fd t else t

-- Behind the `switch`, in the parent.
abbrev pub in_parent : Io → Bool → ℕ → World → World × ℕ
in_parent io bckgrnd pid w =
    let w₁ = record w { table = close_above io.dstfd (close_above io.srcfd w.table) } in
    (if bckgrnd then say (background_pid pid) w₁ else w₁, pid)

abbrev pub start : Os → Bytes → List Bytes → Io → Bool → Fd → World → World × ℕ
start os arg args io bckgrnd closefd w = elim (os.fork_pid w.log) [
  | none ↦ (say no_new_process (emit fork_failed w), 0)
  | some pid ↦
      in_parent io bckgrnd pid
        (emit (forked pid (child (os.open_fd w.log) arg args w.env io bckgrnd closefd w.table)) w)
]

-- The state afterwards and the process to wait for; 0 is none.
unfoldable pub invoke : Os → List Bytes → Io → Bool → Fd → World → World × ℕ
invoke os [] io bckgrnd closefd w = (w, 0)
invoke os (arg ∷ args) io bckgrnd closefd w = elim (builtin os arg args io.srcfd io.dstfd w) [
  | some w' ↦ (w', 0)
  | none ↦ start os arg args io bckgrnd closefd w
]
