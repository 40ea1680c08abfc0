-- ===== src/Signals.antt =====
-- signal/fork_test.c: a `fork` and one line in each of its processes.
use unix_study.Prelude.{[], ◌∷◌, none, some, Option, List, ℕ, map}

-- What `fork` comes to: it fails, or there is a child of this number.
pub data Fork : Type 0 where
  fails : Fork
  makes : ℕ → Fork

-- What the processes have for `pid`, the first process first; `none` is -1.
unfoldable pub answers : Fork → List (Option ℕ)
answers fails = none ∷ []
answers (makes child) = some child ∷ some 0 ∷ []

-- `main` behind the call: what a process prints.
abbrev pub print : Option ℕ → List (Option ℕ)
print pid = pid ∷ []

-- What each process prints.
unfoldable pub main : Fork → List (List (Option ℕ))
main f = map print (answers f)
