-- ===== src/Children/Tests.antt =====
-- A run of process/pc.c.
use unix_study.Prelude.{[], ◌∷◌, none, refl, ◌≡◌, List}
use unix_study.Display.{SigInfo, cld_killed}
use unix_study.Children.{Os, Event, exits, hung_up, main}
use unix_study.Children.Reports.{Describes}
use unix_study.Children.Waits.{IsParent, made, seen, reports, main-reports}

-- Process 7 was killed by signal 1.
abbrev killed : SigInfo
killed = record { si_pid = 7; si_code = cld_killed; si_status = 1; si_errno = 0 }

killed-Describes : Describes killed 7 1
killed-Describes = record {
  same_process = refl;
  same_end = refl;
  value_is = λ e. cc;
  signal_is = λ e. refl;
}

-- A system where no process can be made, and there is one from before.
abbrev full : Os
full = record { fork_pid = λ _. none; waitid = λ _. killed }

abbrev full-IsParent : IsParent full
full-IsParent = record {
  no_child = λ log e. cc;
  pid = λ _. 6;
  status = λ _. 1;
  described = λ _. killed-Describes;
}

main-reports_example :
    (l₁ l₂ l₃ log before_second before_third : List Event) × (main full ≡ exits 0 log)
    × (l₁ ≡ made none ∷ [])
    × (l₂ ≡ made none ∷ before_second)
    × (l₃ ≡ hung_up none ∷ made none ∷ before_third)
    × (reports [] before_second ≡ seen full full-IsParent l₁ ∷ [])
    × (reports [] before_third ≡ seen full full-IsParent l₂ ∷ seen full full-IsParent l₁ ∷ [])
    × (reports [] log
        ≡ seen full full-IsParent l₃ ∷ seen full full-IsParent l₂ ∷ seen full full-IsParent l₁ ∷ [])
main-reports_example = main-reports full full-IsParent
