-- ===== src/Handoff/Faults.antt =====
-- The faults of process/mut.c and what they come from.
use unix_study.Prelude.{true, refl, arith, ◌≡◌, not, Bool, is_some}
use unix_study.Handoff.{
  creates, makes, faults, leaves, locks, links, signals, unlocks, cancels, joins, enters, waits,
  finds, wakes, relocks, takes, prints, releases, stops_waiting, dies, stops_printing,
  frees_nothing, frees_garbage, ends, faulting, leaving, ended, corrupt, begins, steps, Producer,
  Consumer, State, Platform, Step, Reachable,
}

-- `main` stores through NULL only where `malloc` failed, and the handler corrupts the heap exactly
-- if `p` held a pointer before it was set.
abbrev fault_ok : Platform → Producer → Bool
fault_ok p (faulting i) = not (p.malloc_works i)
fault_ok p _ = true

abbrev cleanup_ok : Platform → Consumer → Bool
cleanup_ok p corrupt = is_some p.garbage
cleanup_ok p leaving = not (is_some p.garbage)
cleanup_ok p ended = not (is_some p.garbage)
cleanup_ok p _ = true

pub record IsCaused (p : Platform) (s : State) : Type 0 where
  pub fault : fault_ok p s.producer ≡ true
  pub cleanup : cleanup_ok p s.consumer ≡ true

abbrev Facts : Platform → State → Type 0
Facts p s = (fault_ok p s.producer ≡ true) × (cleanup_ok p s.consumer ≡ true)

parts : {p : Platform} {s : State} → IsCaused p s → Facts p s
parts h = (h.fault, h.cleanup)

combined : (p : Platform) (s : State) → Facts p s → IsCaused p s
combined p s f = record { fault = f.0; cleanup = f.1 }

Step-IsCaused : {p : Platform} {s t : State} → Step p s t → IsCaused p s → IsCaused p t
Step-IsCaused (creates e) h = combined _ _ (ground (arith, parts h))
Step-IsCaused (makes e lt m) h = combined _ _ (ground (arith, parts h))
Step-IsCaused (faults e lt m) h = combined _ _ (ground (arith, parts h))
Step-IsCaused (leaves e le) h = combined _ _ (ground (arith, parts h))
Step-IsCaused (locks e o) h = combined _ _ (ground (arith, parts h))
Step-IsCaused (links e) h = combined _ _ (ground (arith, parts h))
Step-IsCaused (signals {s} e) h = combined _ _ (ground (arith, parts h))
Step-IsCaused (unlocks e) h = combined _ _ (ground (arith, parts h))
Step-IsCaused (cancels e) h = combined _ _ (ground (arith, parts h))
Step-IsCaused (joins e d) h = combined _ _ (ground (arith, parts h))
Step-IsCaused (enters e o) h = combined _ _ (ground (arith, parts h))
Step-IsCaused (waits e o) h = combined _ _ (ground (arith, parts h))
Step-IsCaused (finds e o) h = combined _ _ (ground (arith, parts h))
Step-IsCaused (wakes e) h = combined _ _ (ground (arith, parts h))
Step-IsCaused (relocks e o) h = combined _ _ (ground (arith, parts h))
Step-IsCaused (takes e o) h = combined _ _ (ground (arith, parts h))
Step-IsCaused (prints e) h = combined _ _ (ground (arith, parts h))
Step-IsCaused (releases e) h = combined _ _ (ground (arith, parts h))
Step-IsCaused (stops_waiting e c) h = combined _ _ (ground (arith, parts h))
Step-IsCaused (dies e o) h = combined _ _ (ground (arith, parts h))
Step-IsCaused (stops_printing e c) h = combined _ _ (ground (arith, parts h))
Step-IsCaused (frees_nothing e g) h = combined _ _ (ground (arith, parts h))
Step-IsCaused (frees_garbage e g) h = combined _ _ (ground (arith, parts h))
Step-IsCaused (ends e) h = combined _ _ (ground (arith, parts h))

pub Reachable-IsCaused : {p : Platform} {s : State} → Reachable p s → IsCaused p s
Reachable-IsCaused begins = record { fault = refl; cleanup = refl }
Reachable-IsCaused (steps r st) = Step-IsCaused st (Reachable-IsCaused r)
