-- ===== src/FirstExercises.antt =====
-- fundamental_ex/hello_world.c: what the system was compiled for and what it answers about its limits.
use unix_study.Prelude.{
  ◌==◌, zero, suc, [], ◌∷◌, ◌++◌, none, some, true, false, arith, ◌∙◌, subst, ◌≡◌, ◌+◌, ◌-◌,
  if◌then◌else◌, ltb, leb, Bool, Option, List, ℕ, Bytes, codes, get_elem?,
}

-- The macros that the compiler has defined. A macro with a value can be defined without one, as `none`.
pub record Macros : Type 0 where
  pub posix_source : Bool
  pub xopen_source : Option (Option ℕ)
  pub xopen_source_extended : Bool
  pub posix_version : Option ℕ
  pub xopen_unix : Bool
  pub xopen_version : Option ℕ

-- The names of limits, from the first to the last of each loop, and the answers of the system, of which
-- `none` is -1.
pub record System : Type 0 where
  pub arg_max : ℕ
  pub thread_robust_prio_protect : ℕ
  pub link_max : ℕ
  pub symlinks_2 : ℕ
  pub cs_path : ℕ
  pub v7_env : ℕ
  pub sysconf : ℕ → Option ℕ
  pub pathconf : Bytes → ℕ → Option ℕ
  pub confstr : ℕ → ℕ

-- What is printed, one constructor for each format; the `Bool` says whether a macro is defined.
pub data Line : Type 0 where
  request claims rule sysconf_title pathconf_title confstr_title : Line
  posix_source xopen_source_extended : Bool → Line
  xopen_source_undefined xopen_source_no_value : Line
  xopen_source_value : ℕ → Line
  posix_version : ℕ → Line
  not_posix x_open no_xopen_version not_x_open : Line
  xopen_version : ℕ → Line
  conf : ℕ → Option ℕ → Line

-- `#if _XOPEN_SOURCE +0 == 0`
abbrev pub xopen_value : Option ℕ → Line
xopen_value none = xopen_source_no_value
xopen_value (some zero) = xopen_source_no_value
xopen_value (some (suc n)) = xopen_source_value (suc n)

abbrev pub requested : Macros → List Line
requested m =
    posix_source m.posix_source
    ∷ elim m.xopen_source [ none ↦ xopen_source_undefined | some v ↦ xopen_value v ]
    ∷ xopen_source_extended m.xopen_source_extended
    ∷ []

abbrev pub x_open_lines : Bool → Option ℕ → List Line
x_open_lines false version = not_x_open ∷ []
x_open_lines true none = x_open ∷ no_xopen_version ∷ []
x_open_lines true (some v) = x_open ∷ xopen_version v ∷ []

abbrev pub claimed : Macros → List Line
claimed m =
    elim m.posix_version [ none ↦ not_posix | some v ↦ posix_version v ]
    ∷ x_open_lines m.xopen_unix m.xopen_version

-- The rounds of `for (i = ...; i <= ...; i++)` that are left.
unfoldable pub confs : (ℕ → Option ℕ) → ℕ → ℕ → List Line
confs answer zero i = []
confs answer (suc n) i = conf i (answer i) ∷ confs answer n (i + 1)

abbrev pub each_name : (ℕ → Option ℕ) → ℕ → ℕ → List Line
each_name answer first last = confs answer (suc last - first) first

unfoldable pub main : Macros → System → List Line
main m s =
    request ∷ requested m
    ++ claims ∷ claimed m
    ++ rule ∷ sysconf_title ∷ each_name s.sysconf s.arg_max s.thread_robust_prio_protect
    ++ pathconf_title ∷ each_name (s.pathconf (codes "/")) s.link_max s.symlinks_2
    ++ confstr_title ∷ each_name (λ i. some (s.confstr i)) s.cs_path s.v7_env

get_elem-confs :
    (answer : ℕ → Option ℕ) (n i k : ℕ)
    → get_elem? (confs answer n i) k
      ≡ (if ltb k n then some (conf (i + k) (answer (i + k))) else none)
unfolding confs
get_elem-confs answer zero i k = ground arith
get_elem-confs answer (suc n) i zero =
    let same : i ≡ i + 0 = omega arith in
    subst
      (λ j. some (conf i (answer i)) ≡ (if ltb 0 (suc n) then some (conf j (answer j)) else none))
      same (ground arith)
get_elem-confs answer (suc n) i (suc k) =
    let same : i + 1 + k ≡ i + suc k = omega arith in
    subst
      (λ j.
        get_elem? (confs answer n (i + 1)) k
        ≡ (if ltb (suc k) (suc n) then some (conf j (answer j)) else none))
      same (get_elem-confs answer n (i + 1) k ∙ ground arith)

-- A loop over names prints the answer for each name from the first to the last once, in order, and no
-- other line; none, if the last is below the first.
pub each_name-get_elem :
    (answer : ℕ → Option ℕ) (first last k : ℕ)
    → get_elem? (each_name answer first last) k
      ≡ (if leb (first + k) last then some (conf (first + k) (answer (first + k))) else none)
each_name-get_elem answer first last k =
    get_elem-confs answer (suc last - first) first k ∙ ground arith

-- fundamental_ex/t.c, on the memory and with the address of `age`.
pub data Exercise : Type 0 where
  test : Exercise
  ages : ℕ → ℕ → ℕ → Exercise

abbrev pub store : ℕ → ℕ → (ℕ → ℕ) → ℕ → ℕ
store address value memory k = if k == address then value else memory k

unfoldable pub exercise : (ℕ → ℕ) → ℕ → List Exercise
exercise memory age =
    let memory' = store age 37 memory in test ∷ ages (memory' age) (memory' age) age ∷ []
