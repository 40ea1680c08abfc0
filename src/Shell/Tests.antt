-- ===== src/Shell/Tests.antt =====
-- Runs of communication/shell.c on small inputs, in the system of Demo.
pub mod Demo
mod Composed
mod Sessions
use unix_study.Shell.Tests.Demo.{
  wc-IsExternal, ls_l-IsExternal, demo-Healthy, wc, demo, ls_l, begin,
}
use unix_study.Shell.Lexer.Progress.{gettoken_at_end}
use unix_study.Shell.Lexer.Overflow.{gettoken_long}
use unix_study.Shell.Pipeline.Stage.{named}
use unix_study.Shell.Command.{returned, finish, initial, gather, command}
use unix_study.Shell.Lexer.Holding.{ReadsWord}
use unix_study.Shell.Lexer.Words.{gettoken_quoted}
use unix_study.Shell.Pipeline.Leak.{behind_pipe, finish-builtin}
use unix_study.Shell.Command.Ends.{command-Ends, Ends}
use unix_study.Shell.Command.Bounds.{gather_within_argv, StaysInRoom}
use unix_study.Shell.Pipeline.{IsExternal, pipeline_text, Healthy, standard}
use unix_study.Shell.Pipeline.Run.{command-pipeline, Ran}
use unix_study.Shell.Builtin.{set, builtin, contains}
use unix_study.Prelude.{
  c_string, equal, ◌≡◌, ◌≢◌, none, some, true, false, [], ◌∷◌, codes, replicate, refl, arith,
}
use unix_study.Shell.Lexer.{Stdin, t_word, t_error, t_eof, t_nl, gettoken}
use unix_study.Shell.Table.{pipe_read, fd_check, inherited}
use unix_study.Shell.World.{say_all, illegal_redirection, say, World}

command-pipeline_example :
    Ran
      (inherited 0)
      (inherited 1)
      (inherited 2)
      false
      ls_l
      (wc ∷ [])
      (begin (pipeline_text (ls_l ∷ wc ∷ []) []))
      []
      (command demo false 40 (begin (pipeline_text (ls_l ∷ wc ∷ []) [])))
command-pipeline_example =
    command-pipeline (inherited 0) (inherited 1) (inherited 2) demo demo-Healthy ls_l (wc ∷ []) 40
      (begin (pipeline_text (ls_l ∷ wc ∷ []) [])) [] (ls_l-IsExternal, (wc-IsExternal, tt)) refl
      refl (omega arith)

command-Ends_example : Ends 12 (command demo false 14 (begin (codes "ls -l | wc\n ")))
command-Ends_example = command-Ends demo false 14 (begin (codes "ls -l | wc\n ")) (omega arith)

gather_within_argv_example :
    StaysInRoom (gather demo false 5 (initial demo) (begin (codes "a b c\n")))
gather_within_argv_example = gather_within_argv demo false 5 (begin (codes "a b c\n"))

gettoken_quoted_example :
    ReadsWord
      (codes "a\"b")
      (codes "\n")
      false
      []
      (gettoken 8 (replicate 8 7) (record { bytes = codes " \"a\\\"b\"\n"; failed = false }))
gettoken_quoted_example =
    gettoken_quoted 8 (replicate 8 7) false (codes " ") (codes "a\"b") (codes "\n") refl
      (omega arith) (refl, tt) (ground arith, (ground arith, (ground arith, tt)))

gettoken_long_example :
    (c_string (gettoken 2 (replicate 2 7) (record { bytes = codes "cat\n"; failed = false })).word
      ≡ none)
    × ((gettoken 2 (replicate 2 7) (record { bytes = codes "cat\n"; failed = false })).token
        ≡ t_word)
gettoken_long_example =
    gettoken_long 2 (replicate 2 7) false [] b'c' (codes "at") b'\n' [] refl (omega arith)
      (omega arith) tt (ground arith)
      ((refl, ground arith), ((refl, ground arith), ((refl, ground arith), tt))) refl

-- The end of the file behind a word without a newline.
abbrev unfinished : Stdin
unfinished = record { bytes = codes "  ls"; failed = false }

gettoken_at_end_example :
    ((gettoken 4 (replicate 4 7) unfinished).token ≡ t_error)
    × ((gettoken 4 (replicate 4 7) unfinished).input.bytes ≡ [])
    × ((other : Stdin)
        → ((gettoken 4 (replicate 4 7) other).token ≡ t_eof → other.failed ≡ true)
          × ((gettoken 4 (replicate 4 7) other).token ≡ t_error → other.failed ≡ false))
gettoken_at_end_example =
    gettoken_at_end 4 (replicate 4 7) unfinished (codes "  ") (codes "ls") (refl, (refl, tt))
      ((refl, ground arith), ((refl, ground arith), tt)) refl

-- The shell behind `... | set`.
abbrev refused_set : World
refused_set = say illegal_redirection (behind_pipe 3 4 (begin []))

finish-builtin_example :
    (finish demo true t_nl t_nl 101 (codes "set" ∷ []) (named (some 0) (some 1) false) (begin [])
      ≡ returned t_nl 0 (some 4) refused_set)
    × (refused_set.table 3 ≡ some (pipe_read 0))
    × (fd_check refused_set.table ≢ [])
unfolding standard builtin contains equal set say_all
finish-builtin_example =
    finish-builtin demo t_nl t_nl 101 (codes "set") [] (named (some 0) (some 1) false) (begin [])
      refused_set 3 4 refl refl (ground arith) (omega arith) (omega arith) refl
