-- ===== src/Shell/Loop/Sealed.antt =====
-- What `start_shell` starts and how it ends, whatever is typed in.
use unix_study.Prelude.{
  zero, suc, [], ◌∷◌, false, inl, inr, refl, sym, subst, ◌≡◌, ◌≢◌, ◌⊎◌, List, ℕ, length, All, map,
}
use unix_study.Shell.Lexer.{Token, t_nl}
use unix_study.Shell.Table.{fd_check}
use unix_study.Shell.Table.Check.{fd_check_iff}
use unix_study.Shell.World.{Os, World, fd_is_open, say, children_in}
use unix_study.Shell.World.Laws.{say_all-children, say_all-table}
use unix_study.Shell.Invoke.Sealed.{IsClosed, IsSealed, Sealed}
use unix_study.Shell.Command.{
  Outcome, returned, error, exit_success, undefined_behaviour, out_of_fuel, command,
}
use unix_study.Shell.Command.Sealed.{SealedOutcome, command-Sealed}
use unix_study.Shell.Command.Starts.{command-Starts, Starts}
use unix_study.Shell.Loop.{
  End, exits, undefined, unfinished, go_on, react, shell_loop, start_shell, fuel_for, prompted,
}
use unix_study.Shell.Loop.Reap.{Reaps}
use unix_study.Shell.Loop.Ends.{prompted-OnlyWaited, settle-OnlyWaited, start_shell-ends}

-- Where the shell exits, its children are sealed, and it exits with success, or with 1 while it holds
-- a descriptor that it should not.
abbrev pub Orderly : End → Type 0
Orderly (exits n w) = Sealed w × ((n ≡ 0) ⊎ ((n ≡ 1) × ¬ IsClosed w.table))
Orderly undefined = Unit {0}
Orderly unfinished = Unit {0}

go_on-Orderly :
    (next : World → End) (fds : List ℕ) (w : World)
    → fd_check w.table ≡ fds
    → Sealed w
    → ((u : World) → Sealed u → Orderly (next u))
    → Orderly (go_on next fds w)
go_on-Orderly next [] w e h ih = ih w h
go_on-Orderly next (fd ∷ fds) w e h ih =
    let notes = map fd_is_open (fd ∷ fds) in
    let leaks : ¬ IsClosed w.table =
      λ closed. let none_open = (fd_check_iff w.table).1 closed in cc in
    (
      subst (All IsSealed) (sym (say_all-children notes w)) h,
      inr (refl, subst (λ t. ¬ IsClosed t) (sym (say_all-table notes w)) leaks),
    )

module _ (os : Os) (r : Reaps os) where
  react-Orderly :
      (next : Token → World → End) (out : Outcome)
      → SealedOutcome out
      → Starts out
      → ((t : Token) (u : World) → Sealed u → Orderly (next t u))
      → Orderly (react os next out)
  unfolding react
  react-Orderly next (returned t pid fd w) h s ih =
      let (v, done, only) = settle-OnlyWaited os r t pid w s in
      rw done (
        go_on-Orderly (next t) (fd_check v.table) v refl
          (subst (All IsSealed) (sym only.children) h) (ih t))
  react-Orderly next (error w) h s ih = (unfold say children_in in h, inl refl)
  react-Orderly next (exit_success w) h s ih = (h, inl refl)
  react-Orderly next undefined_behaviour h s ih = tt
  react-Orderly next out_of_fuel h s ih = tt

  shell_loop-Orderly :
      (fuel : ℕ) (term : Token) (w : World) → Sealed w → Orderly (shell_loop os fuel term w)
  unfolding shell_loop
  shell_loop-Orderly zero term w h = tt
  shell_loop-Orderly (suc fuel) term w h =
      let v = prompted term w in
      react-Orderly (shell_loop os fuel) (command os false (fuel_for w) v)
        (command-Sealed os false (fuel_for w) v
          (subst (All IsSealed) (sym (prompted-OnlyWaited term w).children) h))
        (command-Starts os false (fuel_for w) v) (shell_loop-Orderly fuel)

-- Whatever is typed in, and whatever the system answers, if only every child ends and a wait reports one
-- of those that were not reported yet, if there are any: the shell comes to an end, or its behaviour is
-- undefined. If no child before has executed a program with one of the descriptors from 3 to 19 open,
-- then none has at the end; and the shell exits with success, or with 1, and then it holds one of these
-- descriptors itself.
pub start_shell-Sealed :
    (os : Os) (w : World)
    → Reaps os
    → Sealed w
    → (start_shell os w ≡ undefined)
      ⊎ ((n : ℕ) × (v : World) × (start_shell os w ≡ exits n v)
          × Sealed v
          × ((n ≡ 0) ⊎ ((n ≡ 1) × ¬ IsClosed v.table)))
start_shell-Sealed os w r h =
    go (start_shell os w) (start_shell-ends os w r)
      (unfold start_shell in shell_loop-Orderly os r (suc (length w.input.bytes)) t_nl w h)
  where
    go :
        (end : End)
        → end ≢ unfinished
        → Orderly end
        → (end ≡ undefined)
          ⊎ ((n : ℕ) × (v : World) × (end ≡ exits n v)
              × Sealed v
              × ((n ≡ 0) ⊎ ((n ≡ 1) × ¬ IsClosed v.table)))
    go (exits n v) x o = inr (n, v, refl, o.0, o.1)
    go undefined x o = inl refl
    go unfinished x o = absurd (x refl)
