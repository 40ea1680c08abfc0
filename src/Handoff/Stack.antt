-- ===== src/Handoff/Stack.antt =====
-- What the two threads of process/mut.c do together: numbers are put on a stack and taken from it.
use unix_study.Prelude.{
  [], ◌∷◌, ◌++◌, ◌&&◌, false, true, refl, arith, sym, ap, ◌∙◌, ◌≡◌, Bool, List, ℕ,
}
use unix_study.Handoff.{
  creates, makes, faults, leaves, locks, links, signals, unlocks, cancels, joins, enters, waits,
  finds, wakes, relocks, takes, prints, releases, stops_waiting, dies, stops_printing,
  frees_nothing, frees_garbage, ends, creating, releasing, printing, linking, Producer, Consumer,
  State, Platform, signalled, Step, Reachable,
}
use unix_study.Handoff.Exclusive.{Reachable-IsOrdered, in_turn, main_holds, taker_holds}

-- The numbers that are on their way, the last one first: the one in the hand of the other thread, if
-- there is one, in front of the list; and the output.
pub record View : Type 0 where
  pub pending : List ℕ
  pub output : List ℕ
  pub closed : Bool

abbrev pub hand : Consumer → List ℕ
hand (printing n) = n ∷ []
hand _ = []

abbrev pub view : State → View
view s = record { pending = hand s.consumer ++ s.head; output = s.got; closed = s.cancelled }

-- What may be seen of a step: nothing, a number that comes in, one that comes out and is printed, the
-- end, and behind that one that comes out and is lost.
pub data Spec : View → View → Type 0 where
  idle : {v u : View} → v ≡ u → Spec v u
  puts : {v u : View} (n : ℕ) → u ≡ record v { pending = n ∷ v.pending } → Spec v u
  prints_one :
      {v u : View} (n : ℕ)
      → v ≡ record { pending = n ∷ u.pending; output = v.output; closed = u.closed }
      → u.output ≡ n ∷ v.output
      → Spec v u
  closes : {v u : View} → u ≡ record v { closed = true } → Spec v u
  loses :
      {v u : View} (n : ℕ) → v.closed ≡ true → v ≡ record u { pending = n ∷ u.pending } → Spec v u

hand-signalled : (c : Consumer) → hand (signalled c) ≡ hand c
hand-signalled c = ground arith

abbrev view_of : State → Consumer → List ℕ → View
view_of s c head = record { pending = hand c ++ head; output = s.got; closed = s.cancelled }

hand-creating :
    (d : Producer) (c : Consumer) (b : Bool) → d ≡ creating → in_turn d c b ≡ true → hand c ≡ []
hand-creating d c b e h = ground arith

hand-linking :
    (d : Producer) (c : Consumer) (i : ℕ)
    → d ≡ linking i
    → main_holds d && taker_holds c ≡ false
    → hand c ≡ []
hand-linking d c i e h = ground arith

-- The two threads together are a stack: every step of a reachable state puts a number on top of it,
-- takes the number on top and prints it, closes it, or is not seen; only once it is closed may the number
-- on top be lost. So what is printed is always the number that was put in last of those that are left.
pub Step-Spec : {p : Platform} {s t : State} → Reachable p s → Step p s t → Spec (view s) (view t)
Step-Spec r (creates {s} e) =
    let o = Reachable-IsOrdered r in
    let nothing : hand s.consumer ≡ [] = hand-creating s.producer s.consumer s.cancelled e o.turn in
    idle (ap (λ h. record { pending = h ++ s.head; output = s.got; closed = s.cancelled }) nothing)
Step-Spec r (makes e lt m) = idle refl
Step-Spec r (faults e lt m) = idle refl
Step-Spec r (leaves e le) = idle refl
Step-Spec r (locks e o) = idle refl
Step-Spec r (links {s} {i} e) =
    let o = Reachable-IsOrdered r in
    let nothing : hand s.consumer ≡ [] = hand-linking s.producer s.consumer i e o.one in
    puts i (
      ap (λ h. record { pending = h ++ i ∷ s.head; output = s.got; closed = s.cancelled }) nothing
      ∙ ap (λ h. record { pending = i ∷ (h ++ s.head); output = s.got; closed = s.cancelled })
          (sym nothing))
Step-Spec r (signals {s} e) = idle (
    ap (λ h. record { pending = h ++ s.head; output = s.got; closed = s.cancelled })
      (sym (hand-signalled s.consumer)))
Step-Spec r (unlocks e) = idle refl
Step-Spec r (cancels e) = closes refl
Step-Spec r (joins e d) = idle refl
Step-Spec r (enters {s} e o) = idle (ap (λ c. view_of s c s.head) e)
Step-Spec r (waits {s} e o) = idle (ap (λ c. view_of s c s.head) e)
Step-Spec r (finds {s} e o) = idle (ap (λ c. view_of s c s.head) e)
Step-Spec r (wakes {s} e) = idle (ap (λ c. view_of s c s.head) e)
Step-Spec r (relocks {s} e o) = idle (ap (λ c. view_of s c s.head) e)
Step-Spec r (takes {s} {n} {ns} e o) =
    idle (ap (λ c. view_of s c s.head) e ∙ ap (λ l. view_of s releasing l) o)
Step-Spec r (prints {s} {n} e) = prints_one n (ap (λ c. view_of s c s.head) e) refl
Step-Spec r (releases {s} e) = idle (ap (λ c. view_of s c s.head) e)
Step-Spec r (stops_waiting {s} e c) = idle (ap (λ c. view_of s c s.head) e)
Step-Spec r (dies {s} e o) = idle (ap (λ c. view_of s c s.head) e)
Step-Spec r (stops_printing {s} {n} e c) = loses n c (ap (λ c. view_of s c s.head) e)
Step-Spec r (frees_nothing {s} e g) = idle (ap (λ c. view_of s c s.head) e)
Step-Spec r (frees_garbage {s} e g) = idle (ap (λ c. view_of s c s.head) e)
Step-Spec r (ends {s} e) = idle (ap (λ c. view_of s c s.head) e)
