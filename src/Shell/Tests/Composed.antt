-- ===== src/Shell/Tests/Composed.antt =====
-- The shell of communication/shell.c beside another program.
use unix_study.Prelude.{ℕ, ◌≡◌, refl, arith, false, true, none, some, List, [], ◌++◌}
use unix_study.Shell.Lexer.{t_nl}
use unix_study.Shell.Table.{inherited}
use unix_study.Shell.World.{World, children_in}
use unix_study.Shell.Command.{command, returned}
use unix_study.Shell.Pipeline.{standard}
use unix_study.Shell.Tests.Demo.{demo, demo-Healthy, begin}
use unix_study.Pipes.{finished, Os as PipesOs, Event as PipesEvent}
use unix_study.Pipes.WhoCount.{main as who_count}
use unix_study.Pipes.InShell.{programs, typed, main-command}

-- The two programs of communication/who_count.c, on the descriptors 3 and 4.
abbrev two_processes : PipesOs
two_processes = record {
  pipe_fds = λ t. some (3, 4);
  fork_pid = λ log. some 101;
  executes = λ path. true;
}

main-command_example :
    (log : List PipesEvent) × (pid : ℕ) × (v : World) × (who_count two_processes
        (standard (inherited 0) (inherited 1) (inherited 2))
      ≡ finished (standard (inherited 0) (inherited 1) (inherited 2)) log)
    × (command demo false 40 (begin (typed [])) ≡ returned t_nl pid none v)
    × (v.table ≡ standard (inherited 0) (inherited 1) (inherited 2))
    × (children_in v.log ≡ programs [] log ++ [])
unfolding children_in
main-command_example =
    main-command (inherited 0) (inherited 1) (inherited 2) demo two_processes 3 4 100 100 40
      (begin (typed [])) [] demo-Healthy refl (omega arith) (omega arith) (omega arith) refl
      (λ e. refl) refl refl refl (omega arith)
