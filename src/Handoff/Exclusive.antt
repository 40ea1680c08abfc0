-- ===== src/Handoff/Exclusive.antt =====
-- The mutex and the list of process/mut.c.
use unix_study.Prelude.{
  [], none, some, true, false, refl, arith, ◌≡◌, ◌≢◌, ◌&&◌, not, Bool, Option, List, ℕ,
}
use unix_study.Handoff.{
  creates, makes, faults, leaves, locks, links, signals, unlocks, cancels, joins, enters, waits,
  finds, wakes, relocks, takes, prints, releases, stops_waiting, dies, stops_printing,
  frees_nothing, frees_garbage, ends, creating, linking, signalling, unlocking, joining, returned,
  unborn, testing, taking, releasing, printing, dying, cleaning, leaving, ended, corrupt, main,
  taker, begins, steps, Thread, Producer, Consumer, State, Platform, Step, Reachable,
}

-- The statements between the lock and the unlock.
abbrev pub main_holds : Producer → Bool
main_holds (linking _) = true
main_holds (signalling _) = true
main_holds (unlocking _) = true
main_holds _ = false

abbrev pub taker_holds : Consumer → Bool
taker_holds testing = true
taker_holds taking = true
taker_holds (printing _) = true
taker_holds releasing = true
taker_holds cleaning = true
taker_holds leaving = true
taker_holds corrupt = true
taker_holds _ = false

abbrev owner_of : Bool → Bool → Option Thread
owner_of true _ = some main
owner_of false true = some taker
owner_of false false = none

abbrev takes_from : Consumer → List ℕ → Bool
takes_from taking [] = false
takes_from _ _ = true

-- What a thread can do at a time: before the thread is created `main` alone runs, before the
-- cancellation the other thread does not end, and `main` has returned behind its end only.
abbrev pub in_turn : Producer → Consumer → Bool → Bool
in_turn creating unborn c = not c
in_turn creating _ c = false
in_turn joining unborn c = false
in_turn joining _ c = c
in_turn returned ended c = c
in_turn returned _ c = false
in_turn _ unborn c = false
in_turn _ dying c = false
in_turn _ cleaning c = false
in_turn _ leaving c = false
in_turn _ ended c = false
in_turn _ corrupt c = false
in_turn _ _ c = not c

-- The owner of the mutex is the thread that is between its lock and its unlock, not both are, and
-- the thread that is about to take a node finds one.
pub record IsOrdered (s : State) : Type 0 where
  pub one : main_holds s.producer && taker_holds s.consumer ≡ false
  pub owner_is : s.owner ≡ owner_of (main_holds s.producer) (taker_holds s.consumer)
  pub node : takes_from s.consumer s.head ≡ true
  pub turn : in_turn s.producer s.consumer s.cancelled ≡ true

abbrev Facts : State → Type 0
Facts s =
    (main_holds s.producer && taker_holds s.consumer ≡ false)
    × (s.owner ≡ owner_of (main_holds s.producer) (taker_holds s.consumer))
    × (takes_from s.consumer s.head ≡ true)
    × (in_turn s.producer s.consumer s.cancelled ≡ true)

parts : {s : State} → IsOrdered s → Facts s
parts h = (h.one, h.owner_is, h.node, h.turn)

combined : (s : State) → Facts s → IsOrdered s
combined s f = record { one = f.0; owner_is = f.1; node = f.2; turn = f.3 }

Step-IsOrdered : {p : Platform} {s t : State} → Step p s t → IsOrdered s → IsOrdered t
Step-IsOrdered (creates e) h = combined _ (ground (arith, parts h))
Step-IsOrdered (makes e lt m) h = combined _ (ground (arith, parts h))
Step-IsOrdered (faults e lt m) h = combined _ (ground (arith, parts h))
Step-IsOrdered (leaves e le) h = combined _ (ground (arith, parts h))
Step-IsOrdered (locks e o) h = combined _ (ground (arith, parts h))
Step-IsOrdered (links e) h = combined _ (ground (arith, parts h))
Step-IsOrdered (signals {s} e) h = combined _ (ground (arith, parts h))
Step-IsOrdered (unlocks e) h = combined _ (ground (arith, parts h))
Step-IsOrdered (cancels e) h = combined _ (ground (arith, parts h))
Step-IsOrdered (joins e d) h = combined _ (ground (arith, parts h))
Step-IsOrdered (enters e o) h = combined _ (ground (arith, parts h))
Step-IsOrdered (waits e o) h = combined _ (ground (arith, parts h))
Step-IsOrdered (finds e o) h = combined _ (ground (arith, parts h))
Step-IsOrdered (wakes e) h = combined _ (ground (arith, parts h))
Step-IsOrdered (relocks e o) h = combined _ (ground (arith, parts h))
Step-IsOrdered (takes e o) h = combined _ (ground (arith, parts h))
Step-IsOrdered (prints e) h = combined _ (ground (arith, parts h))
Step-IsOrdered (releases e) h = combined _ (ground (arith, parts h))
Step-IsOrdered (stops_waiting e c) h = combined _ (ground (arith, parts h))
Step-IsOrdered (dies e o) h = combined _ (ground (arith, parts h))
Step-IsOrdered (stops_printing e c) h = combined _ (ground (arith, parts h))
Step-IsOrdered (frees_nothing e g) h = combined _ (ground (arith, parts h))
Step-IsOrdered (frees_garbage e g) h = combined _ (ground (arith, parts h))
Step-IsOrdered (ends e) h = combined _ (ground (arith, parts h))

pub Reachable-IsOrdered : {p : Platform} {s : State} → Reachable p s → IsOrdered s
Reachable-IsOrdered begins = record { one = refl; owner_is = refl; node = refl; turn = refl }
Reachable-IsOrdered (steps r st) = Step-IsOrdered st (Reachable-IsOrdered r)

-- In every state that the two threads can reach, in whatever order they run and wherever the other one
-- is cancelled, not both are between lock and unlock, and where the other thread is about to take
-- the first node there is one.
pub Reachable-exclusive :
    (p : Platform) (s : State)
    → Reachable p s
    → (main_holds s.producer && taker_holds s.consumer ≡ false)
      × (s.consumer ≡ taking → s.head ≢ [])
Reachable-exclusive p s r =
    let h = Reachable-IsOrdered r in (h.one, λ e empty. ground (arith, h.node))
