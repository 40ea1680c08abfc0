-- ===== src/Shell/Tests/Sessions.antt =====
-- Sessions of communication/shell.c.
use unix_study.Shell.Pipeline.{standard, started, Simple, IsExternal}
use mathlib.Core.List.{Memᴰ}
use unix_study.Shell.World.{alive, World, Binding, Child, children_in}
use unix_study.Shell.Command.{command, max_word}
use unix_study.Shell.Pipeline.Redirected.{command_text, Redirected}
use unix_study.Shell.Pipeline.Requested.{command-Redirected}
use unix_study.Prelude.{
  ◌⊎◌, ℕ, equal, All, replicate, map, false, ◌≡◌, ◌++◌, true, some, none, [], ◌∷◌, refl, arith, ◌≢◌,
  List, codes,
}
use unix_study.Shell.Lexer.{t_error}
use unix_study.Shell.Listing.{
  Lexeme, word, gtgt, gt, amp, nl, token_line, test_gettoken, test_gettoken-text_of, text_of,
  line_of,
}
use unix_study.Shell.Invoke.{Io}
use unix_study.Shell.Invoke.Redirection.{Opens, Request}
use unix_study.Shell.Loop.Line.{directory, Line, pipeline, single, assignment, IsPlain}
use mathlib.Core.List.{Mem}
use unix_study.Shell.Builtin.{contains}
use unix_study.Environment.{main, variable, value, listing}
use unix_study.Environment.Typed.{main-session}
use unix_study.Shell.Invoke.Sealed.{Sealed, IsClosed}
use unix_study.Shell.Loop.Sealed.{start_shell-Sealed}
use unix_study.Shell.Loop.Ends.{start_shell-ends}
use unix_study.Shell.Table.{inherited}
use unix_study.Shell.Loop.Session.{start_shell-session, session_text, SessionRan}
use unix_study.Shell.Loop.{undefined, exits, unfinished, start_shell}
use unix_study.Shell.Loop.Reap.{Reaps}
use unix_study.Shell.Tests.Demo.{
  first, wc-IsExternal, ls_l-IsExternal, demo-Healthy, wc, ls_l, begin, demo,
}

-- In the demonstration a wait reports a child, if there is one.
demo-Reaps : Reaps demo
demo-Reaps = record { reports = λ pid log m. reported (alive log) m }
  where
    reported : {pid : ℕ} (ps : List ℕ) → Memᴰ pid ps → (p : ℕ) × (first ps ≡ some p) × Memᴰ p ps
    reported [] m = elim m [ ]
    reported (p ∷ ps) m = (p, refl, Memᴰ.head refl)

start_shell-ends_example : start_shell demo (begin (codes "ls -l | wc\n")) ≢ unfinished
start_shell-ends_example = start_shell-ends demo (begin (codes "ls -l | wc\n")) demo-Reaps

demo-Opens : Opens demo
demo-Opens = λ _. record { opens = λ _ _ _ _ _. (3, refl, omega arith) }

-- `wc <in >>out &`
abbrev files : Io
files = record {
  srcfd = none;
  srcfile = codes "in" ++ 0 ∷ [];
  dstfd = none;
  dstfile = codes "out" ++ 0 ∷ [];
  append = true;
}

abbrev in_background : Request
in_background = record {
  source = some (codes "in");
  destination = some (codes "out", true);
  background = true;
}

abbrev lexemes : List Lexeme
lexemes = word (codes "ls") ∷ gtgt ∷ word (codes "a\"b") ∷ gt ∷ amp ∷ nl ∷ []

test_gettoken-text_of_example :
    test_gettoken 10 (replicate max_word 0) (record { bytes = text_of lexemes; failed = false })
    ≡ some (map line_of lexemes ++ token_line t_error ∷ [])
test_gettoken-text_of_example =
    test_gettoken-text_of 10 (replicate max_word 0) lexemes refl
      ((omega arith, ground arith), (tt, ((omega arith, ground arith), (tt, (tt, (tt, tt))))))
      (omega arith)

-- "wc" "-l" <"in" >>"out" &, and a line behind it.
abbrev in_and_out : World
in_and_out = begin (command_text wc in_background (codes "x"))

command-Redirected_example :
    Redirected
      (inherited 0)
      (inherited 1)
      (inherited 2)
      wc
      in_background
      in_and_out
      (codes "x")
      (command demo false 100 in_and_out)
command-Redirected_example =
    command-Redirected (inherited 0) (inherited 1) (inherited 2) demo demo-Healthy demo-Opens wc
      in_background 100 in_and_out (codes "x") wc-IsExternal
      ((tt, (omega arith, ground arith)), (tt, (omega arith, ground arith))) refl refl (omega arith)

-- An assignment, a pipeline, a change of the directory, a command in the background, and a command.
abbrev five_lines : List Line
five_lines =
    assignment b'a' [] b'1' []
    ∷ pipeline ls_l (wc ∷ [])
    ∷ directory (codes "/tmp")
    ∷ single wc in_background
    ∷ pipeline wc []
    ∷ []

five_lines-IsPlain : All IsPlain five_lines
five_lines-IsPlain = (
  ((ground arith, tt), (omega arith, ground arith)),
  (
    (ls_l-IsExternal, (wc-IsExternal, tt)),
    (
      (omega arith, ground arith),
      (
        (wc-IsExternal, ((tt, (omega arith, ground arith)), (tt, (omega arith, ground arith)))),
        ((wc-IsExternal, tt), tt),
      ),
    ),
  ),
)

start_shell-session_example :
    SessionRan
      (inherited 0)
      (inherited 1)
      (inherited 2)
      five_lines
      (begin (session_text five_lines))
      (start_shell demo (begin (session_text five_lines)))
start_shell-session_example =
    start_shell-session (inherited 0) (inherited 1) (inherited 2) demo demo-Healthy demo-Opens
      demo-Reaps five_lines (begin (session_text five_lines)) five_lines-IsPlain refl refl

abbrev env_command : Simple
env_command = record { path = codes "./env"; args = [] }

env_command-IsExternal : IsExternal env_command
unfolding contains equal
env_command-IsExternal = record {
  no_assignment = refl;
  not_set = refl;
  not_cd = refl;
  few = omega arith;
  fit = ((omega arith, ground arith), tt);
}

-- LOGNAME=me, behind the five lines.
main-session_example :
    (v : World) × (env : List Binding) × (older : List Child) × (start_shell demo (
        begin (
          session_text (
            five_lines
            ++ assignment b'L' (codes "OGNAME") b'm' (codes "e") ∷ pipeline env_command [] ∷ [])))
      ≡ exits 0 v)
    × (children_in v.log
        ≡ started env_command env (standard (inherited 0) (inherited 1) (inherited 2)) ∷ older)
    × Mem (variable (codes "LOGNAME=me")) (listing env)
    × (main env ≡ listing env ++ value (codes "me") ∷ [])
unfolding equal
main-session_example =
    main-session (inherited 0) (inherited 1) (inherited 2) demo demo-Healthy demo-Opens demo-Reaps
      five_lines b'L' (codes "OGNAME") b'm' (codes "e") env_command
      (begin (
        session_text (
          five_lines
          ++ assignment b'L' (codes "OGNAME") b'm' (codes "e") ∷ pipeline env_command [] ∷ [])))
      five_lines-IsPlain (ground arith) (omega arith, ground arith) env_command-IsExternal refl refl

-- A redirection of a built-in command behind a bar.
start_shell-Sealed_example :
    (start_shell demo (begin (codes "ls | cd >x\nwc &")) ≡ undefined)
    ⊎ ((n : ℕ) × (v : World) × (start_shell demo (begin (codes "ls | cd >x\nwc &")) ≡ exits n v)
        × Sealed v
        × ((n ≡ 0) ⊎ ((n ≡ 1) × ¬ IsClosed v.table)))
unfolding children_in
start_shell-Sealed_example =
    start_shell-Sealed demo (begin (codes "ls | cd >x\nwc &")) demo-Reaps tt
