-- ===== src/Handoff/Returns.antt =====
-- When `main` of process/mut.c can come to its end.
use unix_study.Handoff.Conserved.{Reachable-bound, next}
use unix_study.Prelude.{Leads, Lowers, stays, goes, descends}
use unix_study.Prelude.{
  ◌⊎◌, ◌↔◌, Bool-cases, ◌≢◌, suc, ◌≤◌, List-cases, ◌*◌, none, true, inl, inr, refl, arith, ◌≡◌, ◌+◌,
  ◌-◌, ℕ, length,
}
use unix_study.Handoff.{
  begins, start, steps, signalled, faulting, cancels, unlocks, signals, links, locks, leaves, makes,
  creates, numbers, returned, Reachable, joins, enters, waits, finds, relocks, takes, prints,
  releases, stops_waiting, dies, frees_nothing, ends, creating, making, locking, linking,
  signalling, unlocking, cancelling, joining, unborn, entering, testing, waiting, relocking, taking,
  releasing, printing, dying, cleaning, leaving, ended, corrupt, Producer, Consumer, State,
  Platform, Step,
}
use native.Mathlib.Decide.{dec_lt}
use unix_study.Handoff.Exclusive.{Reachable-IsOrdered, IsOrdered, taker_holds}
use unix_study.Handoff.Faults.{Reachable-IsCaused, IsCaused}

-- A number that some step makes smaller until `main` has returned: above all how far `main` is, then
-- the nodes in the list, then how far the other thread is from its end.
abbrev producer_rank : Producer → ℕ
producer_rank creating = 104
producer_rank (making i) = 10 * (10 - i) + 3
producer_rank (locking i) = 10 * (10 - i) + 2
producer_rank (linking i) = 10 * (10 - i) + 1
producer_rank (signalling i) = 10 * (10 - i)
producer_rank (unlocking i) = 10 * (10 - i) - 1
producer_rank cancelling = 2
producer_rank joining = 1
producer_rank _ = 0

abbrev consumer_rank : Consumer → ℕ
consumer_rank (printing n) = 14
consumer_rank releasing = 13
consumer_rank unborn = 12
consumer_rank entering = 12
consumer_rank relocking = 12
consumer_rank testing = 11
consumer_rank taking = 10
consumer_rank waiting = 10
consumer_rank dying = 3
consumer_rank cleaning = 2
consumer_rank leaving = 1
consumer_rank _ = 0

abbrev rank : State → ℕ
rank s = 20 * producer_rank s.producer + 8 * length s.head + consumer_rank s.consumer

-- Inside its lock the other thread can always go on.
holding :
    (p : Platform) (s : State) (c : Consumer)
    → p.garbage ≡ none
    → IsOrdered s
    → IsCaused p s
    → s.consumer ≡ c
    → taker_holds c ≡ true
    → Lowers (Step p) rank s
holding p s testing g o f e h = elim (List-cases s.head) [
  | inl z ↦ record { state = _; step = waits e z; less = ground arith }
  | inr (n, ns, z) ↦ record { state = _; step = finds e z; less = ground arith }
]
holding p s taking g o f e h = elim (List-cases s.head) [
  | inl z ↦ absurd (ground (arith, o.node))
  | inr (n, ns, z) ↦ record { state = _; step = takes e z; less = ground arith }
]
holding p s (printing n) g o f e h = record { state = _; step = prints e; less = ground arith }
holding p s releasing g o f e h = record { state = _; step = releases e; less = ground arith }
holding p s cleaning g o f e h = record { state = _; step = frees_nothing e g; less = ground arith }
holding p s leaving g o f e h = record { state = _; step = ends e; less = ground arith }
holding p s corrupt g o f e h = absurd (ground (arith, f.cleanup))
holding p s unborn g o f e h = absurd (cc)
holding p s entering g o f e h = absurd (cc)
holding p s waiting g o f e h = absurd (cc)
holding p s relocking g o f e h = absurd (cc)
holding p s dying g o f e h = absurd (cc)
holding p s ended g o f e h = absurd (cc)

-- Behind the cancellation the other thread can always go on, or has ended.
dying_away :
    (p : Platform) (s : State) (c : Consumer)
    → p.garbage ≡ none
    → IsOrdered s
    → IsCaused p s
    → s.producer ≡ joining
    → s.consumer ≡ c
    → Lowers (Step p) rank s
dying_away p s entering g o f j e = record {
  state = _;
  step = enters e (ground (arith, o.owner_is));
  less = ground arith;
}
dying_away p s relocking g o f j e = record {
  state = _;
  step = relocks e (ground (arith, o.owner_is));
  less = ground arith;
}
dying_away p s dying g o f j e = record {
  state = _;
  step = dies e (ground (arith, o.owner_is));
  less = ground arith;
}
dying_away p s waiting g o f j e = record {
  state = _;
  step = stops_waiting e (ground (arith, o.turn));
  less = ground arith;
}
dying_away p s ended g o f j e = record { state = _; step = joins j e; less = ground arith }
dying_away p s unborn g o f j e = absurd (ground (arith, o.turn))
dying_away p s testing g o f j e = holding p s testing g o f e refl
dying_away p s taking g o f j e = holding p s taking g o f e refl
dying_away p s releasing g o f j e = holding p s releasing g o f e refl
dying_away p s (printing n) g o f j e = holding p s (printing n) g o f e refl
dying_away p s cleaning g o f j e = holding p s cleaning g o f e refl
dying_away p s leaving g o f j e = holding p s leaving g o f e refl
dying_away p s corrupt g o f j e = holding p s corrupt g o f e refl

consumer_rank-signalled : (c : Consumer) → consumer_rank (signalled c) ≤ consumer_rank c + 2
consumer_rank-signalled c = ground arith

returned-cases : (d : Producer) → (d ≡ returned) ⊎ (d ≢ returned)
returned-cases returned = inl refl
returned-cases creating = inr (λ e. cc)
returned-cases (making i) = inr (λ e. cc)
returned-cases (locking i) = inr (λ e. cc)
returned-cases (linking i) = inr (λ e. cc)
returned-cases (signalling i) = inr (λ e. cc)
returned-cases (unlocking i) = inr (λ e. cc)
returned-cases (faulting i) = inr (λ e. cc)
returned-cases cancelling = inr (λ e. cc)
returned-cases joining = inr (λ e. cc)

module _ (p : Platform) (malloc_works : (i : ℕ) → p.malloc_works i ≡ true)
    (null : p.garbage ≡ none) where
  lowers :
      (s : State) (d : Producer)
      → IsOrdered s
      → IsCaused p s
      → next s.producer ≤ numbers
      → s.producer ≡ d
      → d ≢ returned
      → Lowers (Step p) rank s
  lowers s creating o f b e ne = record {
    state = _;
    step = creates e;
    less = ground (arith, o.turn);
  }
  lowers s (making i) o f b e ne = elim (dec_lt i numbers) [
    | yes lt ↦ record { state = _; step = makes e lt (malloc_works i); less = ground arith }
    | no ge ↦ record { state = _; step = leaves e (omega arith); less = ground arith }
  ]
  lowers s (locking i) o f b e ne = elim (Bool-cases (taker_holds s.consumer)) [
    | inl held ↦ holding p s s.consumer null o f refl held
    | inr free ↦ record {
      state = _;
      step = locks e (ground (arith, o.owner_is));
      less = ground arith;
    }
  ]
  lowers s (linking i) o f b e ne = record { state = _; step = links e; less = ground arith }
  lowers s (signalling i) o f b e ne = record {
    state = _;
    step = signals e;
    less = ground (arith, b, consumer_rank-signalled s.consumer);
  }
  lowers s (unlocking i) o f b e ne = record {
    state = _;
    step = unlocks e;
    less = ground (arith, b);
  }
  lowers s cancelling o f b e ne = record { state = _; step = cancels e; less = ground arith }
  lowers s joining o f b e ne = dying_away p s s.consumer null o f e refl
  lowers s returned o f b e ne = absurd (ne refl)
  lowers s (faulting i) o f b e ne = absurd (ground (arith, f.fault, malloc_works i))

  progress : (s : State) → Reachable p s → (s.producer ≡ returned) ⊎ Lowers (Step p) rank s
  progress s r = elim (returned-cases s.producer) [
    | inl e ↦ inl e
    | inr ne ↦ inr (
        lowers s s.producer (Reachable-IsOrdered r) (Reachable-IsCaused r) (Reachable-bound r) refl
          ne)
  ]

Leads-Reachable : {p : Platform} {s t : State} → Reachable p s → Leads (Step p) s t → Reachable p t
Leads-Reachable r stays = r
Leads-Reachable r (goes st l) = Leads-Reachable (steps r st) l

-- Behind its end `main` has waited for the handler, which has freed what `p` held.
returned-null :
    {p : Platform} {s : State} → Reachable p s → s.producer ≡ returned → p.garbage ≡ none
returned-null {p} {s} r e =
    let o = Reachable-IsOrdered r in
    let f = Reachable-IsCaused r in ground (arith, o.turn, f.cleanup)

-- Where every `malloc` works, `main` can come to its end from every state that the two threads can
-- reach, in whatever order they have run, so that they never block each other for good: exactly if the
-- value that `p` has before it is set, and that the cleanup handler frees, is NULL.
pub Reachable-returned_iff :
    (p : Platform)
    → ((i : ℕ) → p.malloc_works i ≡ true)
    → ((s : State) → Reachable p s → (t : State) × Leads (Step p) s t × (t.producer ≡ returned))
      ↔ (p.garbage ≡ none)
Reachable-returned_iff p malloc_works = (
  λ all. let (t, path, e) = all start begins in returned-null (Leads-Reachable begins path) e,
  λ null s r.
      let (t, path, again, e) =
        descends (Step p) rank (Reachable p) (λ t. t.producer ≡ returned) (λ s t st r. steps r st)
          (progress p malloc_works null) (suc (rank s)) s (omega arith) r in
      (t, path, e),
)
