-- ===== src/Shell/Pipeline/Stage.antt =====
-- One command of a pipeline: the descriptors of the child and of the shell.
use mathlib.Core.Path.{fun_ext}
use unix_study.Prelude.{List, ℕ, ◌<◌, ◌≡◌, ◌≢◌, Bool, false, none, some, refl, [], arith, c_string}
use unix_study.Shell.Table.{
  Fd, stdin_fileno, stdout_fileno, File, pipe_read, pipe_write, Table, put, close, dup2, fd_check,
}
use unix_study.Shell.World.{Opener, Binding}
use unix_study.Shell.Invoke.{
  run_child, Io, open_named, move_fd, source_of, redirect, child, close_above,
}
use unix_study.Shell.Command.{no_name}
use unix_study.Shell.Pipeline.{OneMore, standard, Simple, started}

-- Where a command writes: to the shell's standard output, or into a pipe that the shell holds.
pub data Sink : Type 0 where
  shell : Sink
  into : ℕ → ℕ → Sink

abbrev pub sink_fd : Sink → Fd
sink_fd shell = some stdout_fileno
sink_fd (into d q) = some d

abbrev pub sink_table : Sink → Table → Table
sink_table shell t = t
sink_table (into d q) t = put t d (some (pipe_write q))

abbrev pub sink_file : Sink → File → File
sink_file shell f = f
sink_file (into d q) f = pipe_write q

abbrev pub IsFree : Sink → Type 0
IsFree shell = Unit {0}
IsFree (into d q) = 2 < d

-- The descriptor that the shell holds for it.
abbrev pub extra : Sink → ℕ
extra shell = 3
extra (into d q) = d

pub sink-OneMore :
    (f₀ f₁ f₂ : File) (s : Sink) → OneMore (extra s) (sink_table s (standard f₀ f₁ f₂))
unfolding put standard
sink-OneMore f₀ f₁ f₂ shell k lo ne = ground arith
sink-OneMore f₀ f₁ f₂ (into d q) k lo ne = ground arith

no_name_empty : c_string no_name ≡ some []
unfolding c_string no_name
no_name_empty = refl

run_child-standard :
    (c : Simple) (env : List Binding) (f₀ f₁ f₂ : File)
    → run_child c.path c.args env false (some (standard f₀ f₁ f₂))
      ≡ started c env (standard f₀ f₁ f₂)
unfolding fd_check standard
run_child-standard c env f₀ f₁ f₂ = refl

abbrev pub named : Fd → Fd → Bool → Io
named src dst append = record {
  srcfd = src;
  srcfile = no_name;
  dstfd = dst;
  dstfile = no_name;
  append = append;
}

source_of-named :
    (src dst : Fd) (append : Bool) → source_of (named src dst append) false ≡ (src, some [])
unfolding source_of
source_of-named src dst append = rw no_name_empty (ground arith)

-- Without names `redirect` moves the two descriptors.
redirect-named :
    (open_fd : Opener) (src dst : Fd) (append : Bool) (t : Table)
    → redirect open_fd (named src dst append) false t
      ≡ some (move_fd dst stdout_fileno (move_fd src stdin_fileno t))
unfolding redirect open_named source_of move_fd
redirect-named open_fd src dst append t = rw (source_of-named src dst append, no_name_empty)

module _ (f₀ f₁ f₂ : File) (p r wr : ℕ) where
  moved_shell :
      standard f₀ f₁ f₂ r ≡ none
      → standard f₀ f₁ f₂ wr ≡ none
      → r ≢ wr
      → (k : ℕ)
      → move_fd
          (some 1)
          1
          (move_fd (some r) 0 (
            close
              (some wr)
              (put (put (standard f₀ f₁ f₂) r (some (pipe_read p))) wr (some (pipe_write p)))))
          k
        ≡ standard (pipe_read p) f₁ f₂ k
  unfolding move_fd close dup2 put standard
  moved_shell hr hw ne k = ground arith

  moved_into :
      (d q : ℕ)
      → 2 < d
      → put (standard f₀ f₁ f₂) d (some (pipe_write q)) r ≡ none
      → put (standard f₀ f₁ f₂) d (some (pipe_write q)) wr ≡ none
      → r ≢ wr
      → (k : ℕ)
      → move_fd
          (some d)
          1
          (move_fd (some r) 0 (
            close (some wr) (
              put
                (put (put (standard f₀ f₁ f₂) d (some (pipe_write q))) r (some (pipe_read p)))
                wr
                (some (pipe_write p)))))
          k
        ≡ standard (pipe_read p) (pipe_write q) f₂ k
  unfolding move_fd close dup2 put standard
  moved_into d q free hr hw ne k = ground arith

module _ (f₀ f₁ f₂ : File) where
  moved_first_shell :
      (k : ℕ) → move_fd (some 1) 1 (move_fd (some 0) 0 (standard f₀ f₁ f₂)) k ≡ standard f₀ f₁ f₂ k
  unfolding move_fd dup2 put standard
  moved_first_shell k = ground arith

  moved_first_into :
      (d q : ℕ)
      → 2 < d
      → (k : ℕ)
      → move_fd (some d) 1 (move_fd (some 0) 0 (put (standard f₀ f₁ f₂) d (some (pipe_write q)))) k
        ≡ standard f₀ (pipe_write q) f₂ k
  unfolding move_fd close dup2 put standard
  moved_first_into d q free k = ground arith

  -- The child of the first command writes where it should, and keeps no other descriptor.
  pub child-first :
      (open_fd : Opener) (c : Simple) (env : List Binding) (append : Bool) (s : Sink)
      → IsFree s
      → child open_fd c.path c.args env
          (named (some stdin_fileno) (sink_fd s) append)
          false
          none
          (sink_table s (standard f₀ f₁ f₂))
        ≡ started c env (standard f₀ (sink_file s f₁) f₂)
  unfolding child close
  child-first open_fd c env append shell free =
      rw
        (
          redirect-named open_fd (some 0) (some 1) append (standard f₀ f₁ f₂),
          fun_ext moved_first_shell,
        )
        (run_child-standard c env f₀ f₁ f₂)
  child-first open_fd c env append (into d q) free =
      rw (redirect-named open_fd (some 0) (some d) append _, fun_ext (moved_first_into d q free))
        (run_child-standard c env f₀ (pipe_write q) f₂)

  -- The shell is left with the standard descriptors.
  pub table-first :
      (s : Sink)
      → IsFree s
      → close_above (sink_fd s) (close_above (some stdin_fileno) (sink_table s (standard f₀ f₁ f₂)))
        ≡ standard f₀ f₁ f₂
  unfolding close put standard
  table-first shell free = refl
  table-first (into d q) free = fun_ext λ k. ground arith

-- The table behind `pipe`, when the shell holds the sink already.
abbrev pub with_pipe : ℕ → ℕ → ℕ → Table → Table
with_pipe p r wr t = put (put t r (some (pipe_read p))) wr (some (pipe_write p))

module _ (f₀ f₁ f₂ : File) (p r wr : ℕ) (ne : r ≢ wr) where
  -- The child of a command behind a bar: it reads from its pipe, and has not kept the other end.
  pub child-piped :
      (open_fd : Opener) (c : Simple) (env : List Binding) (append : Bool) (s : Sink)
      → IsFree s
      → sink_table s (standard f₀ f₁ f₂) r ≡ none
      → sink_table s (standard f₀ f₁ f₂) wr ≡ none
      → child open_fd c.path c.args env
          (named (some r) (sink_fd s) append)
          false
          (some wr)
          (with_pipe p r wr (sink_table s (standard f₀ f₁ f₂)))
        ≡ started c env (standard (pipe_read p) (sink_file s f₁) f₂)
  unfolding child
  child-piped open_fd c env append shell free hr hw =
      rw
        (
          redirect-named open_fd (some r) (some 1) append _,
          fun_ext (moved_shell f₀ f₁ f₂ p r wr hr hw ne),
        )
        (run_child-standard c env (pipe_read p) f₁ f₂)
  child-piped open_fd c env append (into d q) free hr hw =
      rw
        (
          redirect-named open_fd (some r) (some d) append _,
          fun_ext (moved_into f₀ f₁ f₂ p r wr d q free hr hw ne),
        )
        (run_child-standard c env (pipe_read p) (pipe_write q) f₂)

  -- The shell is left with the standard descriptors and the end that the command before writes to.
  pub table-piped :
      (s : Sink)
      → IsFree s
      → sink_table s (standard f₀ f₁ f₂) r ≡ none
      → sink_table s (standard f₀ f₁ f₂) wr ≡ none
      → close_above
          (sink_fd s)
          (close_above (some r) (with_pipe p r wr (sink_table s (standard f₀ f₁ f₂))))
        ≡ sink_table (into wr p) (standard f₀ f₁ f₂)
  unfolding close put standard
  table-piped shell free hr hw = fun_ext λ k. ground arith
  table-piped (into d q) free hr hw = fun_ext λ k. ground arith

  -- A descriptor that is free is none of the standard ones.
  pub free-piped : (s : Sink) → sink_table s (standard f₀ f₁ f₂) wr ≡ none → 2 < wr
  unfolding put standard
  free-piped shell hw = ground arith
  free-piped (into d q) hw = ground arith
