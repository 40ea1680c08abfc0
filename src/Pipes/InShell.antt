-- ===== src/Pipes/InShell.antt =====
-- communication/who_count.c against communication/shell.c: the program is the pipeline that the shell makes
-- of `"ls"|"wc" "-l"`.
use unix_study.Pipes.WhoCount.{main, ls, wc, who_count-pipeline}
use unix_study.Shell.Invoke.{after_slash}
use unix_study.Prelude.{
  equal, suc, ap, sym, ◌∙◌, ◌+◌, length, false, [], ◌∷◌, ◌++◌, none, some, true, refl, arith, ◌≡◌,
  ◌≢◌, ◌<◌, List, ℕ, Bytes, codes,
}
use unix_study.Prelude.{fun_ext}
use unix_study.Shell.Table.{File, put, stdin_fileno, stdout_fileno, pipe_read, pipe_write}
use unix_study.Shell.World.{Os as ShellOs, World, Binding, Child, execs, children_in}
use unix_study.Shell.Builtin.{contains}
use unix_study.Shell.Pipeline.{standard, Simple, IsExternal, Healthy, pipeline_text, children}
use unix_study.Pipes.{waited, finished, Event, Os, forked}
use unix_study.Shell.Lexer.{t_nl}
use unix_study.Shell.Command.{returned, command}
use unix_study.Shell.Pipeline.Run.{command-pipeline}

-- The children of a program with the environment `env` that has not touched the signals, the first one
-- first.
unfoldable pub programs : List Binding → List Event → List Child
programs env [] = []
programs env (forked pid e ∷ log) =
    programs env log
    ++ execs (record {
      path = e.path;
      args = e.args;
      env = env;
      table = e.table;
      default_signals = true;
    })
      ∷ []
programs env (_ ∷ log) = programs env log

-- The two commands as they are typed.
abbrev pub ls_command : Simple
ls_command = record { path = codes "ls"; args = [] }

abbrev pub wc_command : Simple
wc_command = record { path = codes "wc"; args = codes "-l" ∷ [] }

abbrev pub typed : Bytes → Bytes
typed rest = pipeline_text (ls_command ∷ wc_command ∷ []) rest

ls_command-IsExternal : IsExternal ls_command
unfolding contains equal
ls_command-IsExternal = record {
  no_assignment = refl;
  not_set = refl;
  not_cd = refl;
  few = omega arith;
  fit = ground arith;
}

wc_command-IsExternal : IsExternal wc_command
unfolding contains equal
wc_command-IsExternal = record {
  no_assignment = refl;
  not_set = refl;
  not_cd = refl;
  few = omega arith;
  fit = ground arith;
}

module _ (f₀ f₁ f₂ : File) where
  to_pipe :
      put (standard f₀ f₁ f₂) stdout_fileno (some (pipe_write 0)) ≡ standard f₀ (pipe_write 0) f₂
  unfolding put standard
  to_pipe = fun_ext λ k. ground arith

  from_pipe :
      put (standard f₀ f₁ f₂) stdin_fileno (some (pipe_read 0)) ≡ standard (pipe_read 0) f₁ f₂
  unfolding put standard
  from_pipe = fun_ext λ k. ground arith

  above : (k : ℕ) → 2 < k → standard f₀ f₁ f₂ k ≡ none
  unfolding standard
  above k h = ground arith

  open_in : standard f₀ f₁ f₂ stdin_fileno ≢ none
  unfolding standard
  open_in = ground arith

  open_out : standard f₀ f₁ f₂ stdout_fileno ≢ none
  unfolding standard
  open_out = ground arith

  -- What the program has started, in terms of the shell.
  programs-children :
      (env : List Binding) (pid₁ pid₂ : ℕ)
      → programs env (
          waited (some pid₂) (standard f₀ f₁ f₂)
          ∷ waited (some pid₁) (standard f₀ f₁ f₂)
          ∷ forked pid₂ (wc (put (standard f₀ f₁ f₂) stdin_fileno (some (pipe_read 0))))
          ∷ forked pid₁ (ls (put (standard f₀ f₁ f₂) stdout_fileno (some (pipe_write 0))))
          ∷ [])
        ≡ children f₀ f₁ f₂ env false 0 (ls_command ∷ wc_command ∷ [])
  unfolding programs after_slash
  programs-children env pid₁ pid₂ = rw (to_pipe, from_pipe) refl

-- In systems that grant both what they ask for, on standard descriptors alone and with no pipe before:
-- the shell, at the command `"ls"|"wc" "-l"`, with two more rounds of fuel than there are bytes to read,
-- starts exactly the children that the program starts in the shell's environment, with the same
-- arguments, environment and descriptors, in the foreground; both keep their standard descriptors alone.
pub main-command :
    (f₀ f₁ f₂ : File) (os : ShellOs) (os' : Os) (r wr pid₁ pid₂ fuel : ℕ) (w : World) (rest : Bytes)
    → Healthy os
    → os'.pipe_fds (standard f₀ f₁ f₂) ≡ some (r, wr)
    → 2 < r
    → 2 < wr
    → r ≢ wr
    → os'.fork_pid [] ≡ some (suc pid₁)
    → ((e : Event) → os'.fork_pid (e ∷ []) ≡ some (suc pid₂))
    → w.table ≡ standard f₀ f₁ f₂
    → w.pipes ≡ 0
    → w.input.bytes ≡ typed rest
    → length w.input.bytes + 1 < fuel
    → (log : List Event) × (pid : ℕ) × (v : World) × (main os' (standard f₀ f₁ f₂)
        ≡ finished (standard f₀ f₁ f₂) log)
      × (command os false fuel w ≡ returned t_nl pid none v)
      × (v.table ≡ standard f₀ f₁ f₂)
      × (children_in v.log ≡ programs w.env log ++ children_in w.log)
main-command f₀ f₁ f₂ os os' r wr pid₁ pid₂ fuel w rest h made hr hw ne fork₁ fork₂ t p bytes
      enough =
    let ran =
      command-pipeline f₀ f₁ f₂ os h ls_command (wc_command ∷ []) fuel w rest
        (ls_command-IsExternal, (wc_command-IsExternal, tt)) t bytes enough in
    let run =
      who_count-pipeline os' (standard f₀ f₁ f₂) r wr pid₁ pid₂ made ne (above f₀ f₁ f₂ r hr)
        (above f₀ f₁ f₂ wr hw) (open_in f₀ f₁ f₂) (open_out f₀ f₁ f₂) fork₁ fork₂ in
    (
      _,
      ran.pid,
      ran.world,
      run,
      ran.out_is ∙ ap (λ fd. returned t_nl ran.pid fd ran.world) ran.left.0,
      ran.left.1,
      ran.children_are
          ∙ ap
              (λ n.
                children f₀ f₁ f₂ w.env false n (ls_command ∷ wc_command ∷ []) ++ children_in w.log)
              p
          ∙ ap (λ cs. cs ++ children_in w.log)
              (sym (programs-children f₀ f₁ f₂ w.env (suc pid₁) (suc pid₂))),
    )
