-- ===== src/Environment/Typed.antt =====
-- process/env.c, started by communication/shell.c behind an assignment.
use unix_study.Prelude.{
  All-append, append_assoc, append-nil, equal, [], ◌∷◌, ◌++◌, false, arith, sym, ap, ◌∙◌, ◌≡◌, ◌≢◌,
  ◌+◌, if◌then◌else◌, List, ℕ, Bytes, codes, All,
}
use unix_study.Shell.Table.{File}
use unix_study.Environment.{equal, variable, value, listing, found, main, main-setenv}
use mathlib.Core.List.{append_assoc, append-nil, Mem}
use unix_study.Shell.World.{Binding, Child, Os, World, children_in}
use unix_study.Shell.Builtin.{setenv, getenv}
use unix_study.Shell.Invoke.Redirection.{Opens}
use unix_study.Shell.Command.Words.{Fits}
use unix_study.Shell.Pipeline.{standard, Simple, IsExternal, Healthy, started}
use unix_study.Shell.Loop.{exits, start_shell}
use unix_study.Shell.Loop.Reap.{Reaps}
use unix_study.Shell.Loop.Line.{
  Line, pipeline, assignment, IsPlain, assigned_word, line_pipes, line_env, line_children,
}
use unix_study.Shell.Loop.Session.{session_text, session_env, session_children, start_shell-session}

-- How many pipes the lines need.
abbrev pub session_pipes : List Line → ℕ
session_pipes [] = 0
session_pipes (l ∷ ls) = line_pipes l + session_pipes ls

session_children-append :
    (f₀ f₁ f₂ : File) (env : List Binding) (p : ℕ) (ls ms : List Line)
    → session_children f₀ f₁ f₂ env p (ls ++ ms)
      ≡ session_children f₀ f₁ f₂ (session_env ls env) (p + session_pipes ls) ms
        ++ session_children f₀ f₁ f₂ env p ls
session_children-append f₀ f₁ f₂ env p [] ms =
    ap (λ n. session_children f₀ f₁ f₂ env n ms) (omega arith)
    ∙ sym (append-nil (session_children f₀ f₁ f₂ env (p + 0) ms))
session_children-append f₀ f₁ f₂ env p (l ∷ ls) ms =
    ap (λ cs. cs ++ line_children f₀ f₁ f₂ env p l)
      (session_children-append f₀ f₁ f₂ (line_env l env) (p + line_pipes l) ls ms)
    ∙ append_assoc
        (session_children f₀ f₁ f₂ (session_env ls (line_env l env))
          (p + line_pipes l + session_pipes ls) ms)
        (session_children f₀ f₁ f₂ (line_env l env) (p + line_pipes l) ls)
        (line_children f₀ f₁ f₂ env p l)
    ∙ ap
        (λ n.
          session_children f₀ f₁ f₂ (session_env ls (line_env l env)) n ms
          ++ (session_children f₀ f₁ f₂ (line_env l env) (p + line_pipes l) ls
              ++ line_children f₀ f₁ f₂ env p l))
        (omega arith)

-- In the shell's own session, in a system that grants what it is asked for, opens every file
-- and in which every child ends and a wait reports one that was not reported yet: behind any lines that it can run, an assignment `name=val`, where neither part is
-- empty and the name holds no `=`, and then an external command, with each word between quotes and
-- within the limits. The shell exits with success, the last child that it has started is that command,
-- and if its program is env.c, it lists the line `name=val`, and shows the value for LOGNAME if that is
-- the name, and otherwise what the lines before have left there.
pub main-session :
    (f₀ f₁ f₂ : File) (os : Os)
    → Healthy os
    → Opens os
    → Reaps os
    → (before : List Line) (c : ℕ) (name : Bytes) (d : ℕ) (val : Bytes) (cmd : Simple) (w : World)
    → All IsPlain before
    → All (λ x. x ≢ b'=') (c ∷ name)
    → Fits (assigned_word c name d val)
    → IsExternal cmd
    → w.input ≡ record {
      bytes = session_text (before ++ assignment c name d val ∷ pipeline cmd [] ∷ []);
      failed = false;
    }
    → w.table ≡ standard f₀ f₁ f₂
    → (v : World) × (env : List Binding) × (older : List Child) × (start_shell os w ≡ exits 0 v)
      × (children_in v.log ≡ started cmd env (standard f₀ f₁ f₂) ∷ older)
      × Mem (variable (assigned_word c name d val)) (listing env)
      × (main env
          ≡ listing env
            ++ (if equal (c ∷ name) (codes "LOGNAME")
                then value (d ∷ val)
                else found (getenv (codes "LOGNAME") (session_env before w.env)))
              ∷ [])
main-session f₀ f₁ f₂ os h opens r before c name d val cmd w xs plain fits x e t =
    let last = assignment c name d val ∷ pipeline cmd [] ∷ [] in
    let ran =
      start_shell-session f₀ f₁ f₂ os h opens r (before ++ last) w
        (All-append IsPlain before last xs ((plain, fits), ((x, tt), tt))) e t in
    let (listed, shown) = main-setenv (c ∷ name) (d ∷ val) (session_env before w.env) in
    (
      ran.world,
      setenv (c ∷ name) (d ∷ val) (session_env before w.env),
      session_children f₀ f₁ f₂ w.env w.pipes before ++ children_in w.log,
      ran.out_is,
      ran.children_are
          ∙ ap (λ cs. cs ++ children_in w.log)
              (session_children-append f₀ f₁ f₂ w.env w.pipes before last),
      listed,
      shown,
    )
