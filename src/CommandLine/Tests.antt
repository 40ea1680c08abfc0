-- ===== src/CommandLine/Tests.antt =====
-- Lines of process/cl.c.
use unix_study.Shell.Builtin.{contains}
use unix_study.Prelude.{
  equal, ◌^◌, [], ◌∷◌, none, some, false, refl, arith, ◌≡◌, ◌+◌, Bool, List, Bytes, codes,
}
use unix_study.CommandLine.Lines.{getargs_unterminated}
use unix_study.CommandLine.Doubling.{IsBarren, runs, main-doubles}
use unix_study.CommandLine.{
  until_separator, after_separator, skip_separators, fill, State, Os, main, exited, getargs,
}
use unix_study.CommandLine.Session.{typed}

getargs_unterminated_example : getargs 1000 (record { bytes = codes "ls"; failed = false }) ≡ none
getargs_unterminated_example =
    getargs_unterminated 1000 b'l' (codes "s") (ground arith, (ground arith, tt))

-- Two lines: an assignment, and a command.
abbrev two_lines : List Bytes
two_lines = codes "a=b" ∷ codes "ls" ∷ []

abbrev fresh : State
fresh = record { input = typed two_lines; env = []; log = [] }

-- A system where everyone is called alike and every process is 5; `works` says whether programs can be
-- executed.
abbrev small_os : Bool → Os
small_os works = record {
  uid = 0;
  euid = 0;
  gid = 0;
  egid = 0;
  getpwuid = λ _. some (codes "root");
  getgrgid = λ _. some (codes "wheel");
  fork_pid = λ _. some 5;
  executes = λ _ _. works;
  status_of = λ _ _. 0;
}

abbrev commands : List Bytes
commands = codes "a" ∷ codes "b c" ∷ []

abbrev at_commands : State
at_commands = record { input = typed commands; env = []; log = [] }

small_os-IsBarren : IsBarren (small_os false)
small_os-IsBarren = record {
  pwd = λ i. (codes "root", refl);
  grp = λ i. (codes "wheel", refl);
  forks = λ log. (5, refl);
  fails = λ env argv. refl;
}

main-doubles_example :
    (t : State) × (main (small_os false) 20 at_commands ≡ some (exited t))
    × (runs t.log + 1 ≡ 2 ^ 2)
unfolding fill skip_separators after_separator contains until_separator equal runs
main-doubles_example =
    main-doubles (small_os false) 20 commands at_commands small_os-IsBarren (ground arith)
      (refl, (refl, tt)) (omega arith) refl
