-- ===== src/Children.antt =====
-- process/pc.c: three children that end in three ways, and what is shown of them.
pub mod Reports
pub mod Waits
mod Tests
use unix_study.Prelude.{zero, suc, [], ◌∷◌, ◌>>=◌, none, some, Option, List, ℕ}
use unix_study.Display.{SigInfo, InfoLine, display_status_s}

-- What happens, the newest event first: a child is made or not, `kill` with SIGHUP, where `none` is -1,
-- and a line that is printed.
pub data Event : Type 0 where
  forked : ℕ → Event
  fork_error : Event
  hung_up : Option ℕ → Event
  waited : Event
  shown : InfoLine → Event

-- The system: `fork`, where `none` is -1 and 0 makes the run that of the child, and what `waitid` leaves in
-- `info`.
pub record Os : Type 0 where
  pub fork_pid : List Event → Option ℕ
  pub waitid : List Event → SigInfo

-- How a process ends: with a value, or by a division by zero.
pub data Outcome : Type 0 where
  exits : ℕ → List Event → Outcome
  undefined : Outcome

unfoldable pub show_all : List InfoLine → List Event → List Event
show_all [] log = log
show_all (l ∷ ls) log = show_all ls (shown l ∷ log)

unfoldable pub wait_and_display : Os → List Event → List Event
wait_and_display os log = show_all (display_status_s (os.waitid log)) (waited ∷ log)

-- `if(fork() == 0)`: the child, or what the parent goes on with.
abbrev pub by_answer :
    (List Event → Outcome) → (Option ℕ → List Event → Outcome) → List Event → Option ℕ → Outcome
by_answer child parent log none = parent none (fork_error ∷ log)
by_answer child parent log (some zero) = child log
by_answer child parent log (some (suc n)) = parent (some (suc n)) (forked (suc n) ∷ log)

abbrev pub fork :
    Os → (List Event → Outcome) → (Option ℕ → List Event → Outcome) → List Event → Outcome
fork os child parent log = by_answer child parent log (os.fork_pid log)

unfoldable pub third : Os → List Event → Outcome
third os = fork os (exits 0) λ pid log. exits 0 (wait_and_display os (hung_up pid ∷ log))

unfoldable pub second : Os → List Event → Outcome
second os = fork os (λ log. undefined) λ pid log. third os (wait_and_display os log)

unfoldable pub main : Os → Outcome
main os = fork os (exits 123) (λ pid log. second os (wait_and_display os log)) []
