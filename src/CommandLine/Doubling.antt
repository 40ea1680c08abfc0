-- ===== src/CommandLine/Doubling.antt =====
-- What a command that cannot be executed does to process/cl.c: its child goes on as the interpreter and
-- obeys the lines behind it too.
use unix_study.Prelude.{
  ◌*◌, ◌^◌, equal, suc, [], ◌∷◌, ◌++◌, some, true, false, refl, arith, ap, ◌∙◌, ◌≡◌, ◌<◌, ◌+◌, ◌-◌,
  ◌&&◌, if◌then◌else◌, ltb, leb, not, Bool, List, ℕ, Bytes, codes, length, All, map,
}
use native.Mathlib.Nat.{pow-suc}
use unix_study.Display.{display_status, StatusLine}
use unix_study.Shell.Builtin.{contains}
use unix_study.Shell.World.{Binding}
use unix_study.CommandLine.Session.{
  main-obey_all, obey_all, obey, resumed, then_parent, asked, typed, lines_text,
}
use unix_study.CommandLine.Words.{IsInner}
use unix_study.CommandLine.{
  display_status, equal, State, Os, main, Ended, exited, Event, ran, status_line, print_all,
  print_user, max_line, max_arg, fill, prompt, noted, run_args, run_child, Next, strays,
  show_status, not_reached, user_line, group_line,
}

-- How often a command was to be executed.
unfoldable pub runs : List Event → ℕ
runs [] = 0
runs (ran pid argv ∷ es) = suc (runs es)
runs (_ ∷ es) = runs es

-- A line for `execute3`: neither too long, nor with too many words, nor an assignment, nor `set`.
abbrev pub is_foreign : List Bytes → Bool
is_foreign [] = false
is_foreign (arg ∷ args) = not (contains b'=' arg) && not (equal arg (codes "set"))

abbrev pub words_of : Bytes → List Bytes
words_of l = fill max_arg (l ++ b'\n' ∷ [])

abbrev pub is_command : Bytes → Bool
is_command l =
    ltb (length l) (max_line - 1)
    && not (leb max_arg (length (words_of l)))
    && is_foreign (words_of l)

abbrev pub IsCommand : Bytes → Type 0
IsCommand l = is_command l ≡ true

-- A system where every user and every group has a name, `fork` works, and `execvp` does not.
pub record IsBarren (os : Os) : Type 0 where
  pub pwd : (i : ℕ) → (u : Bytes) × (os.getpwuid i ≡ some u)
  pub grp : (i : ℕ) → (g : Bytes) × (os.getgrgid i ≡ some g)
  pub forks : (log : List Event) → (pid : ℕ) × (os.fork_pid log ≡ some pid)
  pub fails : (env : List Binding) (argv : List Bytes) → os.executes env argv ≡ false

runs-print_all :
    (ds : List StatusLine) (log : List Event) → runs (print_all (map status_line ds) log) ≡ runs log
unfolding runs print_all
runs-print_all [] log = refl
runs-print_all (d ∷ ds) log = runs-print_all ds (status_line d ∷ log)

module _ (os : Os) (barren : IsBarren os) where
  asked-runs :
      (k : State → Ended) (s : State)
      → (es : List Event) × (asked k s (print_user os) ≡ k (record s { log = es }))
        × (runs es ≡ runs s.log)
  unfolding print_user runs
  asked-runs k s =
      let (u, eu) = barren.pwd os.uid in
      let (v, ev) = barren.pwd os.euid in
      let (g, eg) = barren.grp os.gid in
      let (h, eh) = barren.grp os.egid in
      (
        prompt ∷ group_line os.gid g os.egid h ∷ user_line os.uid u os.euid v ∷ s.log,
        rw (eu, ev, eg, eh) refl,
        refl,
      )

  abbrev after_fork : ℕ → List Bytes → State → Next
  after_fork pid argv s =
      strays (noted not_reached (noted (ran pid argv) s))
        λ log. show_status pid 0 (record s { log = log })

  run_args-strays :
      (argv : List Bytes) (s : State)
      → is_foreign argv ≡ true
      → (pid : ℕ) × (run_args os argv s ≡ after_fork pid argv s)
  unfolding run_args run_child
  run_args-strays [] s h = cc
  run_args-strays (arg ∷ args) s h =
      let (pid, e) = barren.forks s.log in
      let no_sign : contains b'=' arg ≡ false = ground (arith, h) in
      let not_set : equal arg (codes "set") ≡ false = ground (arith, h) in
      (pid, rw (no_sign, not_set, run_child, e, barren.fails s.env (arg ∷ args)) refl)

  choose :
      (x y z : Next) {a b : Bool}
      → a ≡ true
      → b ≡ false
      → (if a then (if b then x else y) else z) ≡ y
  choose x y z e f = rw (e, f) refl

  obey-strays :
      (l : Bytes) (s : State)
      → IsCommand l
      → (pid : ℕ) × (obey os l s ≡ after_fork pid (words_of l) s)
  unfolding run_args-strays
  obey-strays l s h =
      let fits : ltb (length l) (max_line - 1) ≡ true = ground (arith, h) in
      let few : leb max_arg (length (words_of l)) ≡ false = ground (arith, h) in
      let (pid, e) = run_args-strays (words_of l) s (ground (arith, h)) in
      (pid, choose _ _ _ fits few ∙ e)

  record Doubles (e : Ended) (r n : ℕ) : Type 0 where
    state : State
    ends : e ≡ exited state
    runs_are : runs state.log + 1 ≡ r + 2 ^ n

  obey_all-Doubles :
      (ls : List Bytes) (s : State)
      → All IsCommand ls
      → Doubles (obey_all os ls s) (runs s.log) (length ls)
  unfolding runs
  obey_all-Doubles [] s h =
      let (es, e, r) = asked-runs exited (record s { input = typed [] }) in
      record {
        state = record s { input = typed []; log = es };
        ends = e;
        runs_are = omega (arith, r);
      }
  obey_all-Doubles (l ∷ ls) s h =
      let (es, e, r) =
        asked-runs (λ t. resumed (obey_all os ls) (obey os l t)) (record s { input = typed ls }) in
      let t : State = record s { input = typed ls; log = es } in
      let (pid, o) = obey-strays l t h.0 in
      let child = obey_all-Doubles ls (noted not_reached (noted (ran pid (words_of l)) t)) h.1 in
      let deeper : runs child.state.log + 1 ≡ suc (runs es) + 2 ^ length ls = child.runs_are in
      let parent =
        obey_all-Doubles ls (show_status pid 0 (record t { log = child.state.log })) h.1 in
      let doubled : 2 ^ suc (length ls) ≡ 2 ^ length ls * 2 = pow-suc 2 (length ls) in
      let again : runs parent.state.log + 1 ≡ runs child.state.log + 2 ^ length ls =
        parent.runs_are
        ∙ ap (λ n. n + 2 ^ length ls)
            (runs-print_all (display_status (some pid) 0) child.state.log) in
      record {
        state = parent.state;
        ends =
            e
            ∙ ap (resumed (obey_all os ls)) o
            ∙ ap (then_parent (λ log. obey_all os ls (show_status pid 0 (record t { log = log }))))
                child.ends
            ∙ parent.ends;
        runs_are = omega (arith, r, deeper, again, doubled);
      }

-- Where `fork` works and no command can be executed, the interpreter comes to its end, and lines that
-- are commands, with a name of the user and of the group, are to be executed 2 ^ n - 1 times if there
-- are n of them: each child that is left obeys all the lines behind its own.
pub main-doubles :
    (os : Os) (fuel : ℕ) (ls : List Bytes) (s : State)
    → IsBarren os
    → All (All IsInner) ls
    → All IsCommand ls
    → length (lines_text ls) < fuel
    → s.input ≡ typed ls
    → (t : State) × (main os fuel s ≡ some (exited t))
      × (runs t.log + 1 ≡ runs s.log + 2 ^ length ls)
main-doubles os fuel ls s barren inner commands enough e =
    let d = obey_all-Doubles os barren ls s commands in
    (d.state, main-obey_all os fuel ls s inner enough e ∙ ap some d.ends, d.runs_are)
