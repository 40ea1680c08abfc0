-- ===== src/Shell/Loop/Session.antt =====
-- A whole session of `start_shell`: the lines that are typed in, and the end of the file.
use unix_study.Shell.Command.Ends.{unread, Ends, command-Ends}
use unix_study.Shell.Loop.Ends.{prompted-OnlyWaited, settle-OnlyWaited}
use unix_study.Shell.Command.Starts.{command-Starts, Starts}
use unix_study.Shell.Loop.Line.{
  line_dirs, Line, line_text, IsPlain, line_token, line_pipes, line_env, line_children, Did,
  command-Did,
}
use unix_study.Shell.Command.{
  Outcome, command, dispatch, after_token, initial, round, gather, conclude,
}
use unix_study.Prelude.{
  Bytes, append_assoc, zero, suc, [], ◌∷◌, ◌++◌, false, refl, arith, sym, ap, ◌∙◌, subst, ◌≡◌, ◌<◌,
  ◌+◌, List, ℕ, Bytes, length, All,
}
use unix_study.Shell.Lexer.{Token, Stdin, at_eof, scan, t_nl, gettoken, stdin_error}
use unix_study.Shell.World.{dirs_in, Binding, say_all, say, lexical, children_in, Child}
use unix_study.Shell.Table.{fd_check, File}
use unix_study.Shell.Loop.{
  fuel_for, bad_command, prompted, react, shell_loop, error, exits, End, World, Os, start_shell,
}
use unix_study.Shell.Loop.Reap.{OnlyWaited, Reaps}
use unix_study.Shell.Pipeline.{started, Healthy, standard}
use unix_study.Shell.Invoke.Redirection.{Opens}

abbrev pub session_text : List Line → Bytes
session_text [] = []
session_text (l ∷ ls) = line_text l (session_text ls)

-- The environment behind the lines, from the first to the last.
abbrev pub session_env : List Line → List Binding → List Binding
session_env [] env = env
session_env (l ∷ ls) env = session_env ls (line_env l env)

-- The directories that the lines name, the last one first.
abbrev pub session_dirs : List Line → List Bytes
session_dirs [] = []
session_dirs (l ∷ ls) = session_dirs ls ++ line_dirs l

-- The children of all the lines, those of the last line first; the pipes are counted from `p` on.
abbrev pub session_children : File → File → File → List Binding → ℕ → List Line → List Child
session_children f₀ f₁ f₂ env p [] = []
session_children f₀ f₁ f₂ env p (l ∷ ls) =
    session_children f₀ f₁ f₂ (line_env l env) (p + line_pipes l) ls
    ++ line_children f₀ f₁ f₂ env p l

-- The shell exits with success; it has started these children, has made these assignments, has read
-- everything and holds the standard descriptors alone.
pub record SessionRan (f₀ f₁ f₂ : File) (ls : List Line) (w : World) (out : End) : Type 0 where
  pub world : World
  pub out_is : out ≡ exits 0 world
  pub children_are :
      children_in world.log ≡ session_children f₀ f₁ f₂ w.env w.pipes ls ++ children_in w.log
  pub env_is : world.env ≡ session_env ls w.env
  pub dirs_are : dirs_in world.log ≡ session_dirs ls ++ dirs_in w.log
  pub table_is : world.table ≡ standard f₀ f₁ f₂
  pub nothing_left : world.input.bytes ≡ []

-- The end of the file is an error to `command`, which is left at once.
command_at_end_of :
    (os : Os) (w : World)
    → command os false 2 (record w { input = record { bytes = []; failed = false } })
      ≡ error
          (say (lexical stdin_error) (record w { input = record { bytes = []; failed = false } }))
unfolding command conclude gather round initial gettoken scan at_eof after_token say_all dispatch
command_at_end_of os w = refl

command_at_end :
    (os : Os) (w : World)
    → w.input ≡ record { bytes = []; failed = false }
    → command os false 2 w ≡ error (say (lexical stdin_error) w)
command_at_end os w e =
    subst
      (λ i.
        command os false 2 (record w { input = i })
        ≡ error (say (lexical stdin_error) (record w { input = i })))
      (sym e) (command_at_end_of os w)

fd_check-standard : (f₀ f₁ f₂ : File) → fd_check (standard f₀ f₁ f₂) ≡ []
unfolding fd_check standard
fd_check-standard f₀ f₁ f₂ = refl

module _ (f₀ f₁ f₂ : File) (os : Os) (h : Healthy os) (opens : Opens os) (r : Reaps os) where
  session_end :
      (fuel : ℕ) (term : Token) (w : World)
      → w.input ≡ record { bytes = []; failed = false }
      → w.table ≡ standard f₀ f₁ f₂
      → SessionRan f₀ f₁ f₂ [] w (shell_loop os (suc fuel) term w)
  unfolding shell_loop react say children_in dirs_in
  session_end fuel term w e t =
      let v = prompted term w in
      let only = prompted-OnlyWaited term w in
      let done = command_at_end os v (only.input ∙ e) in
      record {
        world = say bad_command (say (lexical stdin_error) v);
        out_is =
            let two = ap (λ (i : Stdin). suc (suc (length i.bytes))) e in
            ap (react os (shell_loop os fuel)) (
              subst (λ n. command os false n v ≡ error (say (lexical stdin_error) v)) (sym two)
                done);
        children_are = only.children;
        env_is = only.env;
        dirs_are = only.dirs;
        table_is = only.table ∙ t;
        nothing_left = ap (λ (i : Stdin). i.bytes) (only.input ∙ e);
      }

  -- Behind a line: the wait, the check of the descriptors, and the rest of the session.
  session_line :
      (fuel : ℕ) (l : Line) (ls : List Line) (w v : World) (out : Outcome)
      → OnlyWaited w v
      → Did f₀ f₁ f₂ l v (session_text ls) out
      → Starts out
      → w.input.failed ≡ false
      → ((t : Token) (u : World)
          → u.input ≡ record { bytes = session_text ls; failed = false }
          → u.table ≡ standard f₀ f₁ f₂
          → SessionRan f₀ f₁ f₂ ls u (shell_loop os fuel t u))
      → SessionRan f₀ f₁ f₂ (l ∷ ls) w (react os (shell_loop os fuel) out)
  unfolding react
  session_line fuel l ls w v out same did started ok rest =
      let (u, waited, only) =
        settle-OnlyWaited os r (line_token l) did.pid did.world (subst Starts did.out_is started) in
      let table = only.table ∙ did.table_is in
      let failed = did.failed_is ∙ ap (λ (i : Stdin). i.failed) same.input ∙ ok in
      let next =
        rest (line_token l) u
          (only.input ∙ λ k. record { bytes = did.input_is k; failed = failed k }) table in
      record {
        world = next.world;
        out_is = rw (did.out_is, waited, table, fd_check-standard f₀ f₁ f₂) next.out_is;
        children_are =
            next.children_are
            ∙ (λ k.
                session_children f₀ f₁ f₂ ((only.env ∙ did.env_is ∙ ap (line_env l) same.env) k)
                  ((only.pipes ∙ did.pipes_is ∙ ap (λ n. n + line_pipes l) same.pipes) k) ls
                ++ (only.children ∙ did.children_are) k)
            ∙ (λ k.
                session_children f₀ f₁ f₂ (line_env l w.env) (w.pipes + line_pipes l) ls
                ++ (line_children f₀ f₁ f₂ (same.env k) (same.pipes k) l ++ same.children k))
            ∙ sym (
                append_assoc
                  (session_children f₀ f₁ f₂ (line_env l w.env) (w.pipes + line_pipes l) ls)
                  (line_children f₀ f₁ f₂ w.env w.pipes l) (children_in w.log));
        env_is =
            next.env_is ∙ ap (session_env ls) (only.env ∙ did.env_is ∙ ap (line_env l) same.env);
        dirs_are =
            next.dirs_are
            ∙ ap (λ ds. session_dirs ls ++ ds)
                (only.dirs ∙ did.dirs_is ∙ ap (λ ds. line_dirs l ++ ds) same.dirs)
            ∙ sym (append_assoc (session_dirs ls) (line_dirs l) (dirs_in w.log));
        table_is = next.table_is;
        nothing_left = next.nothing_left;
      }

  shell_loop-session :
      (ls : List Line) (fuel : ℕ) (term : Token) (w : World)
      → All IsPlain ls
      → w.input ≡ record { bytes = session_text ls; failed = false }
      → w.table ≡ standard f₀ f₁ f₂
      → length w.input.bytes < fuel
      → SessionRan f₀ f₁ f₂ ls w (shell_loop os fuel term w)
  unfolding shell_loop
  shell_loop-session ls zero term w x e t lt = elim lt [ ]
  shell_loop-session [] (suc fuel) term w x e t lt = session_end fuel term w e t
  shell_loop-session (l ∷ ls) (suc fuel) term w x e t lt =
      let v = prompted term w in
      let same = prompted-OnlyWaited term w in
      let out = command os false (fuel_for w) v in
      let bytes = ap (λ (i : Stdin). i.bytes) (same.input ∙ e) in
      let size = ap (λ (i : Stdin). length i.bytes) same.input in
      let shorter = command-Ends os false (fuel_for w) v (omega (arith, size)) in
      let did =
        command-Did f₀ f₁ f₂ os h opens l (fuel_for w) v (session_text ls) x.0 (same.table ∙ t)
          bytes (omega (arith, size)) in
      let less = subst (Ends (unread v)) did.out_is shorter in
      session_line fuel l ls w v out same did (command-Starts os false (fuel_for w) v)
        (ap (λ (i : Stdin). i.failed) e)
        λ term' u eu tu.
          shell_loop-session ls fuel term' u x.1 eu tu (
            omega
              (arith, size, less, ap length did.input_is, ap (λ (i : Stdin). length i.bytes) eu))

-- In a system that grants what it is asked for, opens every file and in which every child ends,
-- and a wait reports one that was not reported yet, a shell that has the standard descriptors alone runs a whole session as its lines
-- say. The lines hold pipelines of external commands, single external commands with files for their
-- input and output or in the background, assignments `name=val`, where neither part is empty and the
-- name holds no `=`, and changes of the directory, with each word between quotes and within the limits,
-- and the end of the file follows. The children are exactly those of the lines, line by line, each with
-- the environment that the assignments in the lines before it have made; the shell's own environment is
-- what all of them have made; it has called `chdir` for the directories of the lines, in order; it reads
-- everything, is left with the standard descriptors alone, and exits with success.
pub start_shell-session :
    (f₀ f₁ f₂ : File) (os : Os)
    → Healthy os
    → Opens os
    → Reaps os
    → (ls : List Line) (w : World) → All IsPlain ls
    → w.input ≡ record { bytes = session_text ls; failed = false }
    → w.table ≡ standard f₀ f₁ f₂
    → SessionRan f₀ f₁ f₂ ls w (start_shell os w)
unfolding start_shell
start_shell-session f₀ f₁ f₂ os h opens r ls w x e t =
    shell_loop-session f₀ f₁ f₂ os h opens r ls (suc (length w.input.bytes)) t_nl w x e t
      (omega arith)
