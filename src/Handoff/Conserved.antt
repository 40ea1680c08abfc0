-- ===== src/Handoff/Conserved.antt =====
-- Where the numbers of process/mut.c are.
use unix_study.Prelude.{
  [], ◌∷◌, true, false, refl, arith, ◌≡◌, ◌≤◌, ◌+◌, ◌==◌, if◌then◌else◌, ltb, Bool, List, ℕ,
}
use unix_study.Handoff.{
  creates, makes, faults, leaves, locks, links, signals, unlocks, cancels, joins, enters, waits,
  finds, wakes, relocks, takes, prints, releases, stops_waiting, dies, stops_printing,
  frees_nothing, frees_garbage, ends, creating, making, locking, linking, signalling, unlocking,
  faulting, unborn, printing, begins, steps, Producer, Consumer, State, numbers, Platform, Step,
  Reachable,
}

-- How often a number is in a list.
abbrev pub count : ℕ → List ℕ → ℕ
count n [] = 0
count n (x ∷ xs) = (if x == n then 1 else 0) + count n xs

-- The node that the other thread has taken and not printed yet.
abbrev pub in_hand : ℕ → Consumer → ℕ
in_hand n (printing m) = if m == n then 1 else 0
in_hand n _ = 0

-- How many numbers `main` has put into the list.
abbrev pub linked : Producer → ℕ
linked creating = 0
linked (making i) = i
linked (locking i) = i
linked (linking i) = i
linked (signalling i) = i + 1
linked (unlocking i) = i + 1
linked (faulting i) = i
linked _ = numbers

-- Where `main` is in its loop.
abbrev pub next : Producer → ℕ
next creating = 0
next (making i) = i
next (locking i) = i + 1
next (linking i) = i + 1
next (signalling i) = i + 1
next (unlocking i) = i + 1
next (faulting i) = i + 1
next _ = numbers

-- The other thread has no node before it is there.
abbrev in_place : Producer → Consumer → Bool
in_place creating unborn = true
in_place creating _ = false
in_place _ _ = true

record IsConserved (n : ℕ) (s : State) : Type 0 where
  bound : next s.producer ≤ numbers
  born : in_place s.producer s.consumer ≡ true
  counts :
      count n s.head + in_hand n s.consumer + count n s.got + count n s.lost
      ≡ (if ltb n (linked s.producer) then 1 else 0)

abbrev Facts : ℕ → State → Type 0
Facts n s =
    (next s.producer ≤ numbers)
    × (in_place s.producer s.consumer ≡ true)
    × (count n s.head + in_hand n s.consumer + count n s.got + count n s.lost
        ≡ (if ltb n (linked s.producer) then 1 else 0))

parts : {n : ℕ} {s : State} → IsConserved n s → Facts n s
parts h = (h.bound, h.born, h.counts)

combined : (n : ℕ) (s : State) → Facts n s → IsConserved n s
combined n s f = record { bound = f.0; born = f.1; counts = f.2 }

Step-IsConserved :
    {p : Platform} {s t : State} (n : ℕ) → Step p s t → IsConserved n s → IsConserved n t
Step-IsConserved n (creates e) h = combined _ _ (ground (arith, parts h))
Step-IsConserved n (makes e lt m) h = combined _ _ (ground (arith, parts h))
Step-IsConserved n (faults e lt m) h = combined _ _ (ground (arith, parts h))
Step-IsConserved n (leaves e le) h = combined _ _ (ground (arith, parts h))
Step-IsConserved n (locks e o) h = combined _ _ (ground (arith, parts h))
Step-IsConserved n (links e) h = combined _ _ (ground (arith, parts h))
Step-IsConserved n (signals {s} e) h = combined _ _ (ground (arith, parts h))
Step-IsConserved n (unlocks e) h = combined _ _ (ground (arith, parts h))
Step-IsConserved n (cancels e) h = combined _ _ (ground (arith, parts h))
Step-IsConserved n (joins e d) h = combined _ _ (ground (arith, parts h))
Step-IsConserved n (enters e o) h = combined _ _ (ground (arith, parts h))
Step-IsConserved n (waits e o) h = combined _ _ (ground (arith, parts h))
Step-IsConserved n (finds e o) h = combined _ _ (ground (arith, parts h))
Step-IsConserved n (wakes e) h = combined _ _ (ground (arith, parts h))
Step-IsConserved n (relocks e o) h = combined _ _ (ground (arith, parts h))
Step-IsConserved n (takes e o) h = combined _ _ (ground (arith, parts h))
Step-IsConserved n (prints e) h = combined _ _ (ground (arith, parts h))
Step-IsConserved n (releases e) h = combined _ _ (ground (arith, parts h))
Step-IsConserved n (stops_waiting e c) h = combined _ _ (ground (arith, parts h))
Step-IsConserved n (dies e o) h = combined _ _ (ground (arith, parts h))
Step-IsConserved n (stops_printing e c) h = combined _ _ (ground (arith, parts h))
Step-IsConserved n (frees_nothing e g) h = combined _ _ (ground (arith, parts h))
Step-IsConserved n (frees_garbage e g) h = combined _ _ (ground (arith, parts h))
Step-IsConserved n (ends e) h = combined _ _ (ground (arith, parts h))

Reachable-IsConserved : {p : Platform} {s : State} (n : ℕ) → Reachable p s → IsConserved n s
Reachable-IsConserved n begins = record { bound = omega arith; born = refl; counts = ground arith }
Reachable-IsConserved n (steps r st) = Step-IsConserved n st (Reachable-IsConserved n r)

pub Reachable-bound : {p : Platform} {s : State} → Reachable p s → next s.producer ≤ numbers
Reachable-bound r = let h = Reachable-IsConserved 0 r in h.bound

-- In every state that can be reached, each number that `main` has put into the list is exactly once
-- in the list, in the hand of the other thread, in the output, or in a node that the thread had taken
-- when it was cancelled, and no other number is there.
pub Reachable-once :
    (p : Platform) (s : State) (n : ℕ)
    → Reachable p s
    → count n s.head + in_hand n s.consumer + count n s.got + count n s.lost
      ≡ (if ltb n (linked s.producer) then 1 else 0)
Reachable-once p s n r = let h = Reachable-IsConserved n r in h.counts
