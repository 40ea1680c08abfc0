-- ===== src/Environment.antt =====
-- process/env.c: the variables that a program is started with.
pub mod Typed
use unix_study.Prelude.{
  equal, [], ◌∷◌, ◌++◌, ◌>>=◌, none, some, inl, inr, refl, ap, ◌∙◌, ◌≡◌, ◌≢◌, ◌+◌, ◌-◌,
  if◌then◌else◌, Bool, Option, List, ℕ, Bytes, codes, All, Bool-cases,
}
use unix_study.Shell.World.{Binding, World}
use unix_study.Shell.Builtin.{getenv, setenv, asg}
use unix_study.Shell.Builtin.Assign.{asg-setenv, getenv-setenv}
use mathlib.Core.List.{Mem, mem-cons_self, mem-cons_of_mem}

-- What is printed, one constructor for each format.
pub data Line : Type 0 where
  variable value : Bytes → Line
  not_found : Line

-- The loop over `environ`.
unfoldable pub listing : List Binding → List Line
listing [] = []
listing ((name, val) ∷ env) = variable (name ++ b'=' ∷ val) ∷ listing env

abbrev pub found : Option Bytes → Line
found none = not_found
found (some s) = value s

unfoldable pub main : List Binding → List Line
main env = listing env ++ found (getenv (codes "LOGNAME") env) ∷ []

setenv-listed :
    (name val : Bytes) (env : List Binding)
    → Mem (variable (name ++ b'=' ∷ val)) (listing (setenv name val env))
unfolding setenv listing
setenv-listed name val [] = mem-cons_self
setenv-listed name val ((n, v) ∷ env) = elim (Bool-cases (equal n name)) [
  | inl e ↦ rw e mem-cons_self
  | inr e ↦ rw e (mem-cons_of_mem _ (setenv-listed name val env))
]

found-if :
    (b : Bool) (new : Bytes) (old : Option Bytes)
    → found (if b then some new else old) ≡ (if b then value new else found old)
found-if b new old = elim (Bool-cases b) [ inl e ↦ rw e refl | inr e ↦ rw e refl ]

-- What env.c prints in an environment that an assignment has made last.
pub main-setenv :
    (name val : Bytes) (env : List Binding)
    → Mem (variable (name ++ b'=' ∷ val)) (listing (setenv name val env))
      × (main (setenv name val env)
          ≡ listing (setenv name val env)
            ++ (if equal name (codes "LOGNAME")
                then value val
                else found (getenv (codes "LOGNAME") env))
              ∷ [])
unfolding main
main-setenv name val env = (
  setenv-listed name val env,
  ap (λ l. listing (setenv name val env) ++ l ∷ [])
      (ap found (getenv-setenv name (codes "LOGNAME") val env)
        ∙ found-if (equal name (codes "LOGNAME")) val (getenv (codes "LOGNAME") env)),
)

-- What communication/shell.c assigns is what a program that it starts then shows: behind the word
-- `name=val` alone, where neither part is empty and the name holds no `=`, the line `name=val` is listed,
-- and the line for LOGNAME has the value if that is the name, and is otherwise what it was before.
pub asg-main :
    (c : ℕ) (name : Bytes) (d : ℕ) (val : Bytes) (w : World)
    → All (λ x. x ≢ b'=') (c ∷ name)
    → (env : List Binding) × ((asg (c ∷ name ++ b'=' ∷ d ∷ val) [] w).env ≡ env)
      × Mem (variable (c ∷ name ++ b'=' ∷ d ∷ val)) (listing env)
      × (main env
          ≡ listing env
            ++ (if equal (c ∷ name) (codes "LOGNAME")
                then value (d ∷ val)
                else found (getenv (codes "LOGNAME") w.env))
              ∷ [])
asg-main c name d val w h =
    let is : (asg (c ∷ name ++ b'=' ∷ d ∷ val) [] w).env ≡ setenv (c ∷ name) (d ∷ val) w.env =
      asg-setenv c name d val w h in
    let (listed, shown) = main-setenv (c ∷ name) (d ∷ val) w.env in
    (setenv (c ∷ name) (d ∷ val) w.env, is, listed, shown)
