-- ===== src/Handoff/Tests.antt =====
-- A run of process/mut.c.
use unix_study.Prelude.{
  [], ◌∷◌, none, some, true, false, refl, arith, ◌≡◌, ◌≢◌, ◌+◌, ◌&&◌, ◌↔◌, if◌then◌else◌, ltb,
}
use unix_study.Handoff.Stack.{Spec, view, Step-Spec}
use unix_study.Handoff.Conserved.{count, linked, in_hand, Reachable-once}
use unix_study.Handoff.Exclusive.{Reachable-exclusive, taker_holds, main_holds}
use unix_study.Prelude.{Leads}
use unix_study.Handoff.Returns.{Reachable-returned_iff}
use unix_study.Handoff.{
  taking, links, locks, main, makes, begins, entering, signalling, linking, steps, creates,
  returned, State, Platform, Step, Reachable,
}

-- A `malloc` that works, and a `p` that happens to be NULL.
abbrev kind_platform : Platform
kind_platform = record { malloc_works = λ i. true; garbage = none }

-- `main` has the mutex, and the first number is in the node that it is about to link.
abbrev first_made : State
first_made = record {
  producer = linking 0;
  consumer = entering;
  owner = some main;
  cancelled = false;
  head = [];
  got = [];
  lost = [];
}

-- The first number is in the list, and `main` still holds the mutex.
abbrev first_linked : State
first_linked = record {
  producer = signalling 0;
  consumer = entering;
  owner = some main;
  cancelled = false;
  head = 0 ∷ [];
  got = [];
  lost = [];
}

first_made-Reachable : Reachable kind_platform first_made
first_made-Reachable =
    steps (steps (steps begins (creates refl)) (makes refl (omega arith) refl)) (locks refl refl)

first_made-Step : Step kind_platform first_made first_linked
first_made-Step = links refl

first_linked-Reachable : Reachable kind_platform first_linked
first_linked-Reachable = steps first_made-Reachable first_made-Step

Reachable-exclusive_example :
    (main_holds first_linked.producer && taker_holds first_linked.consumer ≡ false)
    × (first_linked.consumer ≡ taking → first_linked.head ≢ [])
Reachable-exclusive_example = Reachable-exclusive kind_platform first_linked first_linked-Reachable

Reachable-once_example :
    count 0 first_linked.head
      + in_hand 0 first_linked.consumer
      + count 0 first_linked.got
      + count 0 first_linked.lost
    ≡ (if ltb 0 (linked first_linked.producer) then 1 else 0)
Reachable-once_example = Reachable-once kind_platform first_linked 0 first_linked-Reachable

Reachable-returned_iff_example :
    ((s : State)
      → Reachable kind_platform s
      → (t : State) × Leads (Step kind_platform) s t × (t.producer ≡ returned))
    ↔ (kind_platform.garbage ≡ none)
Reachable-returned_iff_example = Reachable-returned_iff kind_platform (λ i. refl)

Step-Spec_example : Spec (view first_made) (view first_linked)
Step-Spec_example = Step-Spec first_made-Reachable first_made-Step
