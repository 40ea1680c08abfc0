-- ===== src/Shell/Builtin.antt =====
-- `asg`, `set`, the change of directory and `builtin` of communication/shell.c.
pub mod Assign
pub mod Frame
use unix_study.Prelude.{
  ℕ, Bool, false, not, ◌||◌, Option, none, some, List, [], ◌∷◌, ◌++◌, Bytes, codes, equal, map,
  ◌==◌, if◌then◌else◌,
}
use unix_study.Shell.Table.{Fd, stdin_fileno, stdout_fileno}
use unix_study.Shell.World.{
  Os, extra_args, bad_assignment, illegal_redirection, environment_line, bad_directory, changed_dir,
  Binding, World, emit, say, say_all,
}

-- `getenv`, and `setenv` with overwriting.
unfoldable pub getenv : Bytes → List Binding → Option Bytes
getenv name [] = none
getenv name ((n, v) ∷ env) = if equal n name then some v else getenv name env

unfoldable pub setenv : Bytes → Bytes → List Binding → List Binding
setenv name val [] = (name, val) ∷ []
setenv name val ((n, v) ∷ env) =
    if equal n name then (name, val) ∷ env else (n, v) ∷ setenv name val env

-- The two calls of `strtok`: leading `=` are skipped, the name runs to the next `=`, and the value
-- is all that follows.
unfoldable pub skip_eq : Bytes → Bytes
skip_eq [] = []
skip_eq (c ∷ cs) = if c == b'=' then skip_eq cs else c ∷ cs

unfoldable pub until_eq : Bytes → Bytes
until_eq [] = []
until_eq (c ∷ cs) = if c == b'=' then [] else c ∷ until_eq cs

unfoldable pub after_eq : Bytes → Bytes
after_eq [] = []
after_eq (c ∷ cs) = if c == b'=' then cs else after_eq cs

-- `strtok` gives NULL for an empty token.
abbrev pub token : Bytes → Option Bytes
token [] = none
token (c ∷ cs) = some (c ∷ cs)

abbrev pub assign : Option Bytes → Option Bytes → World → World
assign (some name) (some val) w = record w { env = setenv name val w.env }
assign _ _ w = say bad_assignment w

-- `argv[0]` and the arguments behind it.
unfoldable pub asg : Bytes → List Bytes → World → World
asg arg [] w = let s = skip_eq arg in assign (token (until_eq s)) (token (after_eq s)) w
asg arg (_ ∷ _) w = say extra_args w

unfoldable pub set : List Bytes → World → World
set [] w = say_all (map (λ (b : Binding). environment_line (b.0 ++ b'=' ∷ b.1)) w.env) w
set (_ ∷ _) w = say extra_args w

-- The path of `cd`: the argument, `$HOME`, or `.`.
abbrev pub cd_path : List Bytes → World → Bytes
cd_path [] w = elim (getenv (codes "HOME") w.env) [ none ↦ codes "." | some home ↦ home ]
cd_path (path ∷ _) w = path

unfoldable pub cd : Os → List Bytes → World → World
cd os args w =
    let path = cd_path args w in
    let after = emit (changed_dir path) w in
    if os.chdir_works path w.log then after else say (bad_directory path) after

-- `strchr(s, c) != NULL`
unfoldable pub contains : ℕ → Bytes → Bool
contains c [] = false
contains c (x ∷ xs) = x == c || contains c xs

abbrev pub is_fd : ℕ → Fd → Bool
is_fd n none = false
is_fd n (some fd) = fd == n

-- The check behind the built-in commands.
abbrev pub checked : Fd → Fd → World → World
checked srcfd dstfd w =
    if not (is_fd stdin_fileno srcfd) || not (is_fd stdout_fileno dstfd)
    then say illegal_redirection w
    else w

-- `none` is the answer `false`: the command is not built in.
unfoldable pub builtin : Os → Bytes → List Bytes → Fd → Fd → World → Option World
builtin os arg args srcfd dstfd w =
    if contains b'=' arg
    then some (checked srcfd dstfd (asg arg args w))
    else if equal arg (codes "set")
    then some (checked srcfd dstfd (set args w))
    else if equal arg (codes "cd")
    then some (checked srcfd dstfd (cd os args w))
    else none
