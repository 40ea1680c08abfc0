-- ===== src/Pipes/Tests.antt =====
-- Runs of the programs with pipes.
use unix_study.Prelude.{
  [], ◌∷◌, none, some, true, false, refl, arith, ap, ◌≡◌, if◌then◌else◌, ℕ, Bytes, codes, replicate,
  is_some,
}
use unix_study.Prelude.{is_some}
use unix_study.Pipes.Hello.{main as pipe_main, main-pread, pread, greeting, read_bytes}
use unix_study.Pipes.{Exec, wrote, born, waiting, with_pipe, forked, waited, finished, Os}
use unix_study.Pipes.Fsort.Run.{fsort-run, fsort-no_sort, sort, Grants, answers}
use unix_study.Pipes.Fsort.{wrote_all, fsort, sort_child, failed}
use unix_study.Shell.Pipeline.{standard}
use unix_study.Shell.Table.{pipe_read, pipe_write, close, put, inherited, Table}
use unix_study.Pipes.WhoCount.{who_count-pipeline, who_count-no_ls, main, ls, wc}

-- A system with the descriptors 3 to 6 for two pipes, and two processes.
abbrev demo : Os
demo = record {
  pipe_fds = λ t. some (if is_some (t 3) then (5, 6) else (3, 4));
  fork_pid = λ log. elim log [ [] ↦ some 101 | _ ∷ _ ↦ some 102 ];
  executes = λ _. true;
}

-- The first child of a program, where nothing can be executed.
abbrev bare : Os
bare = record demo {
  fork_pid = λ log. elim log [ [] ↦ some 0 | _ ∷ _ ↦ some 102 ];
  executes = λ _. false;
}

abbrev tty : Table
tty = standard (inherited 0) (inherited 1) (inherited 2)

who_count-pipeline_example :
    main demo tty
    ≡ finished tty (
        waited (some 102) tty
        ∷ waited (some 101) tty
        ∷ forked 102 (wc (put tty 0 (some (pipe_read 0))))
        ∷ forked 101 (ls (put tty 1 (some (pipe_write 0))))
        ∷ [])
unfolding standard
who_count-pipeline_example =
    who_count-pipeline demo tty 3 4 100 101 refl (omega arith) refl refl (ground arith)
      (ground arith) refl λ _. refl

who_count-no_ls_example :
    main bare tty
    ≡ finished (put tty 1 (some (pipe_write 0))) (
        waited (some 102) (put tty 1 (some (pipe_write 0)))
        ∷ waited (some 0) (put tty 1 (some (pipe_write 0)))
        ∷ forked 102 (wc (put tty 1 (some (pipe_write 0))))
        ∷ born
        ∷ [])
unfolding standard
who_count-no_ls_example =
    who_count-no_ls bare tty 3 4 101 refl (omega arith) refl refl (ground arith) refl refl refl

fds-Grants : (os : Os) → os.pipe_fds ≡ demo.pipe_fds → Grants os tty 3 4 5 6 3
unfolding standard put close
fds-Grants os e = record {
  first = ap (λ f. f tty) e;
  second = ap (λ f. f (with_pipe 0 3 4 tty)) e;
  or_free = refl;
  ow_free = refl;
  or_ne = omega arith;
  ir_free = refl;
  iw_free = refl;
  ir_ne = omega arith;
  fd_free = refl;
  std_in = ground arith;
  std_out = ground arith;
}

fsort-run_example :
    fsort demo
      (some 3)
      (answers (codes "b\n" ∷ codes "a\n" ∷ []))
      (answers (codes "a\nb\n" ∷ []))
      tty
    ≡ finished tty (
        waited (some 101) tty
        ∷ wrote_all (tty 1) (codes "a\nb\n" ∷ []) (
            wrote_all (some (pipe_write 0)) (codes "b\n" ∷ codes "a\n" ∷ []) (
              forked 101 (sort (put (put tty 0 (some (pipe_read 0))) 1 (some (pipe_write 1))))
              ∷ [])))
fsort-run_example =
    fsort-run demo tty 3 4 5 6 3 100 (codes "b\n" ∷ codes "a\n" ∷ []) (codes "a\nb\n" ∷ [])
      (fds-Grants demo refl) refl (tt, (tt, tt)) (tt, tt)

-- A number printed as one byte, and read again.
abbrev first_byte : Bytes → ℕ
first_byte [] = 0
first_byte (c ∷ cs) = c

main-pread_example :
    (e : Exec) × (pipe_main demo (λ n. n ∷ []) tty
      ≡ finished
          (put tty 4 (some (pipe_write 0)))
          (wrote (some (pipe_write 0)) greeting ∷ forked 101 e ∷ []))
    × (e.table 4 ≡ none)
    × (pread first_byte (λ _. some greeting) e ≡ read_bytes 6 (some (codes "hello")))
unfolding standard
main-pread_example =
    main-pread demo (λ n. n ∷ []) first_byte (λ _. some greeting) tty 3 4 100 refl (omega arith)
      refl refl refl refl

fsort-no_sort_example :
    ((sort_child 3 4 5 6 (with_pipe 1 5 6 (with_pipe 0 3 4 tty))).table 5 ≡ none)
    × (fsort bare (some 3) (answers (codes "b" ∷ [])) (replicate 1000 failed) tty ≡ waiting)
fsort-no_sort_example =
    fsort-no_sort bare tty 3 4 5 6 3 1000 (answers (codes "b" ∷ [])) (fds-Grants bare refl) refl
      refl
