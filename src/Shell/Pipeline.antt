-- ===== src/Shell/Pipeline.antt =====
-- What a pipeline of external commands should come to: the children that are started, and the
-- descriptors of each. Stage and Finish are about one command of it, Run is about the whole, and
-- Leak is about a built-in command in it.
pub mod Finish
pub mod Leak
pub mod Redirected
pub mod Requested
pub mod Run
pub mod Stage
use unix_study.Prelude.{
  ℕ, ◌+◌, ◌<◌, ◌≡◌, ◌≢◌, Bool, true, false, none, some, List, [], ◌∷◌, Bytes, All, codes, equal,
  length, ◌==◌, if◌then◌else◌,
}
use unix_study.Shell.Table.{File, pipe_read, pipe_write, Table}
use unix_study.Shell.World.{Binding, Os, Child, execs, Event}
use unix_study.Shell.Builtin.{contains}
use unix_study.Shell.Invoke.{cmdname}
use unix_study.Shell.Command.{max_word}
use unix_study.Shell.Command.Words.{Fits, line}

-- A table with the standard descriptors and no other.
unfoldable pub standard : File → File → File → Table
standard f₀ f₁ f₂ k =
    if k == 0 then some f₀ else if k == 1 then some f₁ else if k == 2 then some f₂ else none

pub record Simple : Type 0 where
  pub path : Bytes
  pub args : List Bytes

-- A command that is not built in, and whose words fit the arrays.
pub record IsExternal (c : Simple) : Type 0 where
  pub no_assignment : contains b'=' c.path ≡ false
  pub not_set : equal c.path (codes "set") ≡ false
  pub not_cd : equal c.path (codes "cd") ≡ false
  pub few : length c.args < 49
  pub fit : All Fits (c.path ∷ c.args)

-- Each word between quotes, a bar between commands, and a newline behind the last.
abbrev pub pipeline_text : List Simple → Bytes → Bytes
pipeline_text [] rest = rest
pipeline_text (c ∷ []) rest = line (c.path ∷ c.args) (b'\n' ∷ rest)
pipeline_text (c ∷ d ∷ cs) rest = line (c.path ∷ c.args) (b'|' ∷ pipeline_text (d ∷ cs) rest)

-- Besides the standard descriptors, none but perhaps `d` is open.
abbrev pub OneMore : ℕ → Table → Type 0
OneMore d t = (k : ℕ) → 2 < k → k ≢ d → t k ≡ none

-- The system grants what it is asked for: memory, processes, and a pipe to a process with at most
-- four open descriptors. A new pipe has two descriptors that were not open.
pub record Healthy (os : Os) : Type 0 where
  pub malloc_works : (log : List Event) → os.malloc_works log ≡ true
  pub fork_works : (log : List Event) → (pid : ℕ) × (os.fork_pid log ≡ some pid) × (0 < pid)
  pub pipe_works :
      (t : Table) (d : ℕ) (log : List Event)
      → OneMore d t
      → (r wr : ℕ) × (os.pipe_fds t log ≡ some (r, wr)) × (t r ≡ none) × (t wr ≡ none) × (r ≢ wr)
  pub word_size : length os.some_bytes ≡ max_word

-- The command starts in the foreground, with this environment, these descriptors and no other.
abbrev pub started : Simple → List Binding → Table → Child
started c env t = execs (record {
  path = c.path;
  args = cmdname c.path ∷ c.args;
  env = env;
  table = t;
  default_signals = true;
})

module _ (f₀ f₁ f₂ : File) where
  -- The children of a pipeline, the first command first. The pipes from `p` on belong to it, made
  -- from the last command backwards. `reads` says whether the first command reads from a pipe too.
  abbrev pub children : List Binding → Bool → ℕ → List Simple → List Child
  children env reads p [] = []
  children env reads p (c ∷ []) =
      started c env (standard (if reads then pipe_read p else f₀) f₁ f₂) ∷ []
  children env reads p (c ∷ d ∷ cs) =
      started c env (
        standard (if reads then pipe_read (p + length cs + 1) else f₀) (pipe_write (p + length cs))
          f₂)
      ∷ children env true p (d ∷ cs)
