-- ===== src/Prelude/Taking.antt =====
-- The first bytes of a string, which is what fits an array.
use Prim.Native.Nat.{ℕ, zero, suc, ◌≤◌}
use mathlib.Core.Path.{◌≡◌, refl, ap}
use mathlib.Core.List.{[], ◌∷◌, ◌++◌}
use native.Mathlib.Omega.{arith}
use unix_study.Prelude.Lists.{Bytes, length}

-- The first bytes of a string.
unfoldable pub take : ℕ → Bytes → Bytes
take zero bs = []
take (suc n) [] = []
take (suc n) (c ∷ cs) = c ∷ take n cs

pub take-all : (n : ℕ) (bs : Bytes) → length bs ≤ n → take n bs ≡ bs
unfolding take
take-all zero [] h = refl
take-all zero (c ∷ cs) h = elim h [ ]
take-all (suc n) [] h = refl
take-all (suc n) (c ∷ cs) h = ap (λ t. c ∷ t) (take-all n cs (omega (arith, h)))

pub take-length : (n : ℕ) (bs : Bytes) → length (take n bs) ≤ n
unfolding take
take-length zero bs = omega arith
take-length (suc n) [] = omega arith
take-length (suc n) (c ∷ cs) = omega (arith, take-length n cs)

pub take-front : (n : ℕ) (bs cs : Bytes) → length bs ≡ n → take n (bs ++ cs) ≡ bs
unfolding take
take-front zero [] cs h = refl
take-front zero (b ∷ bs) cs h = let empty : ⊥ = omega (arith, h) in elim empty [ ]
take-front (suc n) [] cs h = let empty : ⊥ = omega (arith, h) in elim empty [ ]
take-front (suc n) (b ∷ bs) cs h = ap (λ t. b ∷ t) (take-front n bs cs (omega (arith, h)))
