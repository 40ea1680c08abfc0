-- ===== src/Shell/Loop/Line.antt =====
-- What `command` comes to for each kind of line that is followed through `start_shell`.
use unix_study.Prelude.{
  codes, [], ◌∷◌, ◌++◌, none, false, arith, ap, ◌∙◌, ◌≡◌, ◌≢◌, ◌<◌, ◌+◌, List, ℕ, Bytes, length,
  All,
}
use unix_study.Shell.Builtin.Frame.{builtin-SameIo}
use unix_study.Shell.Lexer.{Stdin, Token, t_nl}
use unix_study.Shell.Table.{File, Fd}
use unix_study.Shell.World.{dirs_in, Os, World, Child, Binding, children_in}
use unix_study.Shell.Builtin.{cd, setenv}
use unix_study.Shell.Command.Inside.{builtin-asg, builtin-cd, command-Inside, cd-env, cd-dirs}
use unix_study.Shell.Builtin.Assign.{asg-assigned, contains-equals}
use unix_study.Shell.Invoke.Redirection.{Request, Opens}
use unix_study.Shell.Command.{Outcome, returned, command}
use unix_study.Shell.Command.Words.{Fits, line}
use unix_study.Shell.Pipeline.{standard, Simple, IsExternal, Healthy, pipeline_text, children}
use unix_study.Shell.Pipeline.Run.{command-pipeline}
use unix_study.Shell.Pipeline.Redirected.{NamesFit, command_text, end_token, redirected}
use unix_study.Shell.Pipeline.Requested.{command-Redirected}

-- A pipeline; one command with files for its input and output, or in the background; the assignment
-- `name=val`, where each part is given by its first byte and the others; `cd` to a directory.
pub data Line : Type 0 where
  pipeline : Simple → List Simple → Line
  single : Simple → Request → Line
  assignment : ℕ → Bytes → ℕ → Bytes → Line
  directory : Bytes → Line

abbrev pub assigned_word : ℕ → Bytes → ℕ → Bytes → Bytes
assigned_word c name d val = c ∷ name ++ b'=' ∷ d ∷ val

-- As it is typed in, with `rest` behind it.
abbrev pub line_text : Line → Bytes → Bytes
line_text (pipeline c cs) rest = pipeline_text (c ∷ cs) rest
line_text (single c q) rest = command_text c q rest
line_text (assignment c name d val) rest = line (assigned_word c name d val ∷ []) (b'\n' ∷ rest)
line_text (directory path) rest = line (codes "cd" ∷ path ∷ []) (b'\n' ∷ rest)

-- The commands are not built in, everything fits, and the name of a variable holds no `=`.
abbrev pub IsPlain : Line → Type 0
IsPlain (pipeline c cs) = All IsExternal (c ∷ cs)
IsPlain (single c q) = IsExternal c × NamesFit q
IsPlain (assignment c name d val) =
    All (λ x. x ≢ b'=') (c ∷ name) × Fits (assigned_word c name d val)
IsPlain (directory path) = Fits path

-- The token that ends it, the pipes that it needs, and the environment behind it.
abbrev pub line_token : Line → Token
line_token (pipeline c cs) = t_nl
line_token (single c q) = end_token q.background
line_token (assignment c name d val) = t_nl
line_token (directory path) = t_nl

abbrev pub line_pipes : Line → ℕ
line_pipes (pipeline c cs) = length cs
line_pipes (single c q) = 0
line_pipes (assignment c name d val) = 0
line_pipes (directory path) = 0

abbrev pub line_env : Line → List Binding → List Binding
line_env (pipeline c cs) env = env
line_env (single c q) env = env
line_env (assignment c name d val) env = setenv (c ∷ name) (d ∷ val) env
line_env (directory path) env = env

-- The directories that it names.
abbrev pub line_dirs : Line → List Bytes
line_dirs (pipeline c cs) = []
line_dirs (single c q) = []
line_dirs (assignment c name d val) = []
line_dirs (directory path) = path ∷ []

abbrev pub line_children : File → File → File → List Binding → ℕ → Line → List Child
line_children f₀ f₁ f₂ env p (pipeline c cs) = children f₀ f₁ f₂ env false p (c ∷ cs)
line_children f₀ f₁ f₂ env p (single c q) = redirected f₀ f₁ f₂ env c q ∷ []
line_children f₀ f₁ f₂ env p (assignment c name d val) = []
line_children f₀ f₁ f₂ env p (directory path) = []

-- `command` has done what the line says, has read it and no more, and the shell holds the standard
-- descriptors alone.
pub record Did (f₀ f₁ f₂ : File) (l : Line) (w : World) (rest : Bytes) (out : Outcome)
    : Type 0 where
  pub pid : ℕ
  pub fd : Fd
  pub world : World
  pub out_is : out ≡ returned (line_token l) pid fd world
  pub children_are :
      children_in world.log ≡ line_children f₀ f₁ f₂ w.env w.pipes l ++ children_in w.log
  pub table_is : world.table ≡ standard f₀ f₁ f₂
  pub pipes_is : world.pipes ≡ w.pipes + line_pipes l
  pub env_is : world.env ≡ line_env l w.env
  pub dirs_is : dirs_in world.log ≡ line_dirs l ++ dirs_in w.log
  pub input_is : world.input.bytes ≡ rest
  pub failed_is : world.input.failed ≡ w.input.failed

-- Each kind of line.
pub command-Did :
    (f₀ f₁ f₂ : File) (os : Os)
    → Healthy os
    → Opens os
    → (l : Line) (fuel : ℕ) (w : World) (rest : Bytes) → IsPlain l
    → w.table ≡ standard f₀ f₁ f₂
    → w.input.bytes ≡ line_text l rest
    → length w.input.bytes + 1 < fuel
    → Did f₀ f₁ f₂ l w rest (command os false fuel w)
command-Did f₀ f₁ f₂ os h opens (pipeline c cs) fuel w rest x t bytes lt =
    let r = command-pipeline f₀ f₁ f₂ os h c cs fuel w rest x t bytes lt in
    record {
      pid = r.pid;
      fd = r.fd;
      world = r.world;
      out_is = r.out_is;
      children_are = r.children_are;
      table_is = r.left.1;
      pipes_is = r.left.2;
      env_is = r.env_is;
      dirs_is = r.dirs_is;
      input_is = r.input_is;
      failed_is = r.failed_is;
    }
command-Did f₀ f₁ f₂ os h opens (single c q) fuel w rest x t bytes lt =
    let r = command-Redirected f₀ f₁ f₂ os h opens c q fuel w rest x.0 x.1 t bytes lt in
    record {
      pid = r.pid;
      fd = none;
      world = r.world;
      out_is = r.out_is;
      children_are = r.children_are;
      table_is = r.table_is;
      pipes_is = r.pipes_is ∙ omega arith;
      env_is = r.env_is;
      dirs_is = r.dirs_is;
      input_is = r.input_is;
      failed_is = r.failed_is;
    }
command-Did f₀ f₁ f₂ os h opens (assignment c name d val) fuel w rest x t bytes lt =
    let text = assigned_word c name d val in
    let r =
      command-Inside os h text [] (λ u. record u { env = setenv (c ∷ name) (d ∷ val) u.env }) fuel w
        rest
        (λ u.
          builtin-asg os text u _ (contains-equals (c ∷ name) (d ∷ val))
            (asg-assigned c name d val u x.0))
        (omega arith) (x.1, tt) bytes lt in
    record {
      pid = 0;
      fd = none;
      world = _;
      out_is = r.out_is;
      children_are = r.only_read.children;
      table_is = r.only_read.table ∙ t;
      pipes_is = r.only_read.pipes ∙ omega arith;
      env_is = ap (setenv (c ∷ name) (d ∷ val)) r.only_read.env;
      dirs_is = r.only_read.dirs;
      input_is = r.input_is;
      failed_is = r.only_read.failed;
    }
command-Did f₀ f₁ f₂ os h opens (directory path) fuel w rest x t bytes lt =
    let r =
      command-Inside os h (codes "cd") (path ∷ []) (cd os (path ∷ [])) fuel w rest
        (builtin-cd os path) (omega arith) ((omega arith, ground arith), (x, tt)) bytes lt in
    let same =
      builtin-SameIo os (codes "cd") (path ∷ []) _ _ r.world (builtin-cd os path r.world) in
    record {
      pid = 0;
      fd = none;
      world = _;
      out_is = r.out_is;
      children_are = same.children ∙ r.only_read.children;
      table_is = same.table ∙ r.only_read.table ∙ t;
      pipes_is = same.pipes ∙ r.only_read.pipes ∙ omega arith;
      env_is = cd-env os path r.world ∙ r.only_read.env;
      dirs_is = cd-dirs os path r.world ∙ ap (λ ds. path ∷ ds) r.only_read.dirs;
      input_is = ap (λ (i : Stdin). i.bytes) same.input ∙ r.input_is;
      failed_is = ap (λ (i : Stdin). i.failed) same.input ∙ r.only_read.failed;
    }
