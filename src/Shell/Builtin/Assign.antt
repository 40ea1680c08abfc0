-- ===== src/Shell/Builtin/Assign.antt =====
-- Assignments.
use unix_study.Prelude.{
  ap, ℕ, ◌≡◌, ◌≢◌, true, some, refl, List, [], ◌∷◌, ◌++◌, Bytes, arith, All, equal, ◌↔◌,
  if◌then◌else◌,
}
use unix_study.Shell.World.{World, Binding}
use unix_study.Shell.Builtin.{contains, getenv, setenv, skip_eq, until_eq, after_eq, asg}

equal_iff : (name other : Bytes) → (equal name other ≡ true) ↔ (name ≡ other)
unfolding equal
equal_iff [] [] = ground arith
equal_iff [] (d ∷ other) = ground arith
equal_iff (c ∷ name) [] = ground arith
equal_iff (c ∷ name) (d ∷ other) = ground (arith, equal_iff name other)

pub getenv-setenv :
    (name other val : Bytes) (env : List Binding)
    → getenv other (setenv name val env) ≡ (if equal name other then some val else getenv other env)
unfolding getenv setenv
getenv-setenv name other val [] = refl
getenv-setenv name other val ((n, v) ∷ env) = ground (
  arith,
  equal_iff n name,
  equal_iff n other,
  equal_iff name other,
  getenv-setenv name other val env,
)

until_eq-name : (name val : Bytes) → All (λ c. c ≢ b'=') name → until_eq (name ++ b'=' ∷ val) ≡ name
unfolding until_eq
until_eq-name [] val h = refl
until_eq-name (c ∷ name) val h = ground (arith, until_eq-name name val h.1)

after_eq-name : (name val : Bytes) → All (λ c. c ≢ b'=') name → after_eq (name ++ b'=' ∷ val) ≡ val
unfolding after_eq
after_eq-name [] val h = refl
after_eq-name (c ∷ name) val h = ground (arith, after_eq-name name val h.1)

pub asg-assigned :
    (c : ℕ) (name : Bytes) (d : ℕ) (val : Bytes) (w : World)
    → All (λ x. x ≢ b'=') (c ∷ name)
    → asg (c ∷ name ++ b'=' ∷ d ∷ val) [] w ≡ record w { env = setenv (c ∷ name) (d ∷ val) w.env }
unfolding asg skip_eq
asg-assigned c name d val w h =
    ground (arith, until_eq-name (c ∷ name) (d ∷ val) h, after_eq-name (c ∷ name) (d ∷ val) h)

pub asg-setenv :
    (c : ℕ) (name : Bytes) (d : ℕ) (val : Bytes) (w : World)
    → All (λ x. x ≢ b'=') (c ∷ name)
    → (asg (c ∷ name ++ b'=' ∷ d ∷ val) [] w).env ≡ setenv (c ∷ name) (d ∷ val) w.env
asg-setenv c name d val w h = ap (λ (u : World). u.env) (asg-assigned c name d val w h)

pub contains-equals : (name val : Bytes) → contains b'=' (name ++ b'=' ∷ val) ≡ true
unfolding contains
contains-equals [] val = refl
contains-equals (c ∷ name) val = ground (arith, contains-equals name val)

-- The word `name=val` alone, where neither part is empty and the name holds no `=`: afterwards the
-- variable has that value, also if the value holds `=`, and every other variable keeps its own.
pub asg-getenv :
    (c : ℕ) (name : Bytes) (d : ℕ) (val other : Bytes) (w : World)
    → All (λ x. x ≢ b'=') (c ∷ name)
    → getenv other (asg (c ∷ name ++ b'=' ∷ d ∷ val) [] w).env
      ≡ (if equal (c ∷ name) other then some (d ∷ val) else getenv other w.env)
asg-getenv c name d val other w h =
    rw (asg-setenv c name d val w h) (getenv-setenv (c ∷ name) other (d ∷ val) w.env)
