-- ===== src/Prelude/Lists.antt =====
-- Lists measured and indexed by native numbers, byte strings, and arrays that hold a C string.
use Prim.Native.Char.{code}
use Prim.Native.String.{String}
use Prim.Native.Nat.{ℕ, zero, suc, ◌+◌}
use mathlib.Core.Path.{◌≡◌, refl, ap}
use mathlib.Core.Logic.{inr, inl, ◌⊎◌, ◌≢◌}
use mathlib.Core.Bool.{Bool, true, false, ◌&&◌}
use mathlib.Core.Option
use mathlib.Core.Option.{Option, none, some}
use mathlib.Core.List.{List, [], ◌∷◌, ◌++◌}
use native.Mathlib.Omega.{arith}
use unix_study.Prelude.Tests.{◌==◌, if◌then◌else◌}

-- The chain of a `do` block over calls that may fail.
infixl 5 ◌>>=◌
abbrev pub ◌>>=◌ {ℓ κ} : {A : Type ℓ} {B : Type κ} → Option A → (A → Option B) → Option B
none >>= f = none
some a >>= f = f a

module _ {ℓ} {A : Type ℓ} where
  abbrev pub length : List A → ℕ
  length [] = 0
  length (x ∷ xs) = suc (length xs)

  pub List-cases : (xs : List A) → (xs ≡ []) ⊎ ((x : A) × (ys : List A) × (xs ≡ x ∷ ys))
  List-cases [] = inl refl
  List-cases (x ∷ ys) = inr (x, ys, refl)

  abbrev pub get_elem? : List A → ℕ → Option A
  get_elem? [] i = none
  get_elem? (x ∷ xs) zero = some x
  get_elem? (x ∷ xs) (suc i) = get_elem? xs i

  -- A write out of bounds changes nothing.
  abbrev pub set : List A → ℕ → A → List A
  set [] i v = []
  set (x ∷ xs) zero v = v ∷ xs
  set (x ∷ xs) (suc i) v = x ∷ set xs i v

  abbrev pub replicate : ℕ → A → List A
  replicate zero a = []
  replicate (suc n) a = a ∷ replicate n a

  pub length-append : (xs ys : List A) → length (xs ++ ys) ≡ length xs + length ys
  length-append [] ys = omega arith
  length-append (x ∷ xs) ys = omega (arith, length-append xs ys)

  pub length-set : (xs : List A) (i : ℕ) (v : A) → length (set xs i v) ≡ length xs
  length-set [] i v = refl
  length-set (x ∷ xs) zero v = refl
  length-set (x ∷ xs) (suc i) v = ap suc (length-set xs i v)

  pub set-append : (xs ys : List A) (y v : A) → set (xs ++ y ∷ ys) (length xs) v ≡ xs ++ v ∷ ys
  set-append [] ys y v = refl
  set-append (x ∷ xs) ys y v = ap (◌∷◌ x) (set-append xs ys y v)

  -- A predicate that holds of each element of a list; tactics read it as a tuple.
  abbrev pub All {κ} : (A → Type κ) → List A → Type κ
  All P [] = Unit
  All P (x ∷ xs) = P x × All P xs

  pub All-append {κ} : (P : A → Type κ) (xs ys : List A) → All P xs → All P ys → All P (xs ++ ys)
  All-append P [] ys h k = k
  All-append P (x ∷ xs) ys h k = (h.0, All-append P xs ys h.1 k)

abbrev pub Bytes : Type 0
Bytes = List ℕ

-- The code points of a text: its bytes, when it is ASCII.
abbrev pub codes : String → Bytes
codes String.[] = []
codes (String.◌∷◌ c s) = code c ∷ codes s

-- `strcmp(a, b) == 0`
unfoldable pub equal : Bytes → Bytes → Bool
equal [] [] = true
equal (x ∷ xs) (y ∷ ys) = x == y && equal xs ys
equal _ _ = false

-- The string that an array of `char` holds: its bytes before the first NUL. `none` is an array
-- without a NUL, which a string function would read past its end.
unfoldable pub c_string : Bytes → Option Bytes
c_string [] = none
c_string (c ∷ cs) = if c == 0 then some [] else Option.map (◌∷◌ c) (c_string cs)

pub c_string-append : (w tail : Bytes) → All (λ c. c ≢ 0) w → c_string (w ++ 0 ∷ tail) ≡ some w
unfolding c_string
c_string-append [] tail h = refl
c_string-append (c ∷ w) tail h = ground (arith, c_string-append w tail h.1)

-- An array filled by bytes other than NUL holds no string.
pub c_string-none : (w : Bytes) → All (λ c. c ≢ 0) w → c_string w ≡ none
unfolding c_string
c_string-none [] h = refl
c_string-none (c ∷ w) h = ground (arith, c_string-none w h.1)

module _ {ℓ} {A : Type ℓ} where
  -- `xs[i]` replaced by a function of it.
  abbrev pub update : List A → ℕ → (A → A) → List A
  update [] i f = []
  update (x ∷ xs) zero f = f x ∷ xs
  update (x ∷ xs) (suc i) f = x ∷ update xs i f

  pub length-update : (xs : List A) (i : ℕ) (f : A → A) → length (update xs i f) ≡ length xs
  length-update [] i f = refl
  length-update (x ∷ xs) zero f = refl
  length-update (x ∷ xs) (suc i) f = ap suc (length-update xs i f)

  pub get_elem?-update_self :
      (xs : List A) (i : ℕ) (f : A → A) (x : A)
      → get_elem? xs i ≡ some x
      → get_elem? (update xs i f) i ≡ some (f x)
  get_elem?-update_self [] i f x h = cc
  get_elem?-update_self (y ∷ xs) zero f x h = ground arith
  get_elem?-update_self (y ∷ xs) (suc i) f x h = get_elem?-update_self xs i f x h

  pub get_elem?-update_ne :
      (xs : List A) (i j : ℕ) (f : A → A) → i ≢ j → get_elem? (update xs i f) j ≡ get_elem? xs j
  get_elem?-update_ne [] i j f h = refl
  get_elem?-update_ne (x ∷ xs) zero zero f h = absurd (h refl)
  get_elem?-update_ne (x ∷ xs) zero (suc j) f h = refl
  get_elem?-update_ne (x ∷ xs) (suc i) zero f h = refl
  get_elem?-update_ne (x ∷ xs) (suc i) (suc j) f h =
      get_elem?-update_ne xs i j f (λ e. h (ap suc e))

  -- An element of the new list is the replaced one, or was there before.
  pub update-cases :
      (xs : List A) (i j : ℕ) (f : A → A) (y : A)
      → get_elem? (update xs i f) j ≡ some y
      → ((j ≡ i) × ((x : A) × (get_elem? xs i ≡ some x) × (y ≡ f x)))
        ⊎ ((j ≢ i) × (get_elem? xs j ≡ some y))
  update-cases [] i j f y h = cc
  update-cases (x ∷ xs) zero zero f y h = inl (refl, (x, refl, ground arith))
  update-cases (x ∷ xs) zero (suc j) f y h = inr (ground arith, h)
  update-cases (x ∷ xs) (suc i) zero f y h = inr (ground arith, h)
  update-cases (x ∷ xs) (suc i) (suc j) f y h = elim (update-cases xs i j f y h) [
    | inl (e, r) ↦ inl (ap suc e, r)
    | inr (ne, g) ↦ inr (ground arith, g)
  ]
