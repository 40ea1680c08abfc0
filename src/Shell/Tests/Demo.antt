-- ===== src/Shell/Tests/Demo.antt =====
-- A system in which everything works, and two commands.
use unix_study.Shell.Pipeline.{OneMore, IsExternal, Simple, Healthy, standard}
use unix_study.Shell.Builtin.{contains}
use unix_study.Prelude.{
  ◌∷◌, suc, length, List, Option, equal, Bool, ℕ, ◌<◌, ◌≡◌, ◌≢◌, none, some, is_some, true, false,
  [], ◌∷◌, Bytes, codes, replicate, refl, arith,
}
use unix_study.Shell.Table.{Table, inherited}
use unix_study.Shell.World.{alive, Os, World}

-- Two of the descriptors 3, 4 and 5.
abbrev pub two_free : Bool → Bool → ℕ × ℕ
two_free true _ = (4, 5)
two_free false true = (3, 5)
two_free false false = (3, 4)

-- A wait reports the child that was made last; without children it gives -1.
abbrev pub first : List ℕ → Option ℕ
first [] = none
first (p ∷ ps) = some p

abbrev pub demo : Os
demo = record {
  malloc_works = λ _. true;
  pipe_fds = λ t _. some (two_free (is_some (t 3)) (is_some (t 4)));
  fork_pid = λ log. some (suc (length log));
  open_fd = λ _ _ _ _. some 3;
  chdir_works = λ _ _. true;
  wait_any = λ log. (first (alive log), 0);
  some_bool = false;
  some_bytes = replicate 500 7;
}

pub demo_pipe :
    (t : Table) (d : ℕ)
    → OneMore d t
    → (r wr : ℕ) × (some (two_free (is_some (t 3)) (is_some (t 4))) ≡ some (r, wr))
      × (t r ≡ none)
      × (t wr ≡ none)
      × (r ≢ wr)
demo_pipe t d h = go (is_some (t 3)) (is_some (t 4)) refl refl
  where
    free : (k : ℕ) → 2 < k → is_some (t k) ≡ true → k ≡ d
    free k lo e = ground (arith, h k lo)

    go :
        (a b : Bool)
        → is_some (t 3) ≡ a
        → is_some (t 4) ≡ b
        → (r wr : ℕ) × (some (two_free a b) ≡ some (r, wr))
          × (t r ≡ none)
          × (t wr ≡ none)
          × (r ≢ wr)
    go true b e f =
        let at : 3 ≡ d = free 3 (omega arith) e in
        (
          4,
          5,
          refl,
          h 4 (omega arith) (ground arith),
          h 5 (omega arith) (ground arith),
          ground arith,
        )
    go false true e f =
        let at : 4 ≡ d = free 4 (omega arith) f in
        (
          3,
          5,
          refl,
          h 3 (omega arith) (ground arith),
          h 5 (omega arith) (ground arith),
          ground arith,
        )
    go false false e f = (3, 4, refl, ground arith, ground arith, ground arith)

pub demo-Healthy : Healthy demo
demo-Healthy = record {
  malloc_works = λ _. refl;
  fork_works = λ log. (suc (length log), refl, omega arith);
  pipe_works = λ t d log h. demo_pipe t d h;
  word_size = refl;
}

abbrev pub begin : Bytes → World
begin bytes = record {
  input = record { bytes = bytes; failed = false };
  table = standard (inherited 0) (inherited 1) (inherited 2);
  pipes = 0;
  env = [];
  log = [];
}

abbrev pub ls_l : Simple
ls_l = record { path = codes "ls"; args = codes "-l" ∷ [] }

abbrev pub wc : Simple
wc = record { path = codes "wc"; args = [] }

pub ls_l-IsExternal : IsExternal ls_l
unfolding contains equal
ls_l-IsExternal = record {
  no_assignment = refl;
  not_set = refl;
  not_cd = refl;
  few = omega arith;
  fit = (
    (omega arith, (ground arith, (ground arith, tt))),
    ((omega arith, (ground arith, (ground arith, tt))), tt),
  );
}

pub wc-IsExternal : IsExternal wc
unfolding contains equal
wc-IsExternal = record {
  no_assignment = refl;
  not_set = refl;
  not_cd = refl;
  few = omega arith;
  fit = ((omega arith, (ground arith, (ground arith, tt))), tt);
}
