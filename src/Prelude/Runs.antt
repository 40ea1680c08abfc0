-- ===== src/Prelude/Runs.antt =====
-- Runs of a step relation, and how a run comes to an end.
use Prim.Native.Nat.{ℕ, zero, suc, ◌<◌}
use mathlib.Core.Logic.{inl, inr, ◌⊎◌}
use native.Mathlib.Omega.{arith}

pub data Leads {A : Type 0} (R : A → A → Type 0) : A → A → Type 0 where
  stays : {s : A} → Leads R s s
  goes : {s t u : A} → R s t → Leads R t u → Leads R s u

pub record Lowers {A : Type 0} (R : A → A → Type 0) (rank : A → ℕ) (s : A) : Type 0 where
  pub state : A
  pub step : R s state
  pub less : rank state < rank s

-- Where every state that is not done has a step that makes a number smaller, a run comes to a state that
-- is done.
module _ {A : Type 0} (R : A → A → Type 0) (rank : A → ℕ) (Good Done : A → Type 0)
    (kept : (s t : A) → R s t → Good s → Good t)
    (progress : (s : A) → Good s → Done s ⊎ Lowers R rank s) where
  pub descends :
      (fuel : ℕ) (s : A) → rank s < fuel → Good s → (t : A) × Leads R s t × Good t × Done t
  descends zero s lt g = elim lt [ ]
  descends (suc fuel) s lt g = elim (progress s g) [
    | inl d ↦ (s, stays, g, d)
    | inr l ↦
        let (t, path, good, done) =
          descends fuel l.state (let h = l.less in omega (arith, h, lt))
            (kept s l.state l.step g) in
        (t, goes l.step path, good, done)
  ]
