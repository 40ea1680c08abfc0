-- ===== src/Shell/Loop/Ends.antt =====
-- How `start_shell` comes to its end.
use unix_study.Shell.Lexer.{Stdin}
use unix_study.Shell.World.{dirs_in, say, children_in}
use unix_study.Shell.Command.{
  is_nl, out_of_fuel, undefined_behaviour, exit_success, error, is_amp, returned,
}
use unix_study.Shell.Command.Starts.{command-Starts, Starts}
use unix_study.Prelude.{
  Bool-cases, true, refl, inr, [], ◌∷◌, length, inl, ltb, ◌&&◌, List, ap, zero, not, false, Bool,
  some, arith, ◌≡◌, suc, ◌<◌, ◌≢◌,
}
use unix_study.Shell.Command.Ends.{command-Ends, Ends, unread}
use unix_study.Shell.Loop.Reap.{
  length-alive, wait_and_display-OnlyWaited, OnlyWaited, IsStarted, Reaps,
}
use unix_study.Shell.Loop.{
  waits_for, go_on, fd_check, fuel_for, command, prompted, t_nl, Outcome, unfinished, settle, End,
  shell_loop, Token, World, react, ℕ, Os, start_shell,
}

go_on-ends :
    (next : World → End) (fds : List ℕ) (w : World)
    → next w ≢ unfinished
    → go_on next fds w ≢ unfinished
go_on-ends next [] w h = h
go_on-ends next (fd ∷ fds) w h = ground arith

-- A prompt reads nothing.
pub prompted-input : (term : Token) (w : World) → (prompted term w).input ≡ w.input
unfolding say
prompted-input term w = ground arith

pub prompted-OnlyWaited : (term : Token) (w : World) → OnlyWaited w (prompted term w)
unfolding say children_in dirs_in
prompted-OnlyWaited term w = elim (Bool-cases (is_nl term)) [
  | inl e ↦ rw e (record {
    input = refl;
    table = refl;
    pipes = refl;
    env = refl;
    children = refl;
    dirs = refl;
  })
  | inr e ↦ rw e (record {
    input = refl;
    table = refl;
    pipes = refl;
    env = refl;
    children = refl;
    dirs = refl;
  })
]

module _ (os : Os) (r : Reaps os) where
  -- The wait behind a command ends, and reads nothing.
  pub settle-OnlyWaited :
      (term : Token) (pid : ℕ) (w : World)
      → IsStarted w.log pid
      → (v : World) × (settle os term pid w ≡ some v) × OnlyWaited w v
  settle-OnlyWaited term pid w started = go (not (is_amp term) && ltb 0 pid) refl started
    where
      none_waited : OnlyWaited w w
      none_waited = record {
        input = refl;
        table = refl;
        pipes = refl;
        env = refl;
        children = refl;
        dirs = refl;
      }

      go :
          (b : Bool)
          → not (is_amp term) && ltb 0 pid ≡ b
          → IsStarted w.log pid
          → (v : World) × (settle os term pid w ≡ some v) × OnlyWaited w v
      go false e s = (w, rw e refl, none_waited)
      go true e (inl z) = ground arith
      go true e (inr m) =
          let (v, done, only) =
            wait_and_display-OnlyWaited os r (waits_for w) pid w m
              (let le = length-alive w.log in omega (arith, le)) in
          (v, rw e done, only)

  react-Ends :
      (next : Token → World → End) (n : ℕ) (out : Outcome)
      → Ends n out
      → Starts out
      → ((t : Token) (w : World) → unread w < n → next t w ≢ unfinished)
      → react os next out ≢ unfinished
  unfolding react
  react-Ends next n (returned t pid fd w) lt s ih =
      let (v, done, only) = settle-OnlyWaited t pid w s in
      rw done (go_on-ends (next t) (fd_check v.table) v (ih t v (let i = only.input in rw i lt)))
  react-Ends next n (error w) lt s ih = ground arith
  react-Ends next n (exit_success w) lt s ih = ground arith
  react-Ends next n undefined_behaviour lt s ih = ground arith
  react-Ends next n out_of_fuel lt s ih = elim lt [ ]

  shell_loop-ends :
      (fuel : ℕ) (term : Token) (w : World)
      → unread w < fuel
      → shell_loop os fuel term w ≢ unfinished
  unfolding shell_loop
  shell_loop-ends zero term w lt = elim lt [ ]
  shell_loop-ends (suc fuel) term w lt =
      let v = prompted term w in
      react-Ends (shell_loop os fuel) (unread v) (command os false (fuel_for w) v)
        (command-Ends os false (fuel_for w) v
          (let i = prompted-input term w in omega (arith, ap (λ (i : Stdin). length i.bytes) i)))
        (command-Starts os false (fuel_for w) v)
        λ t u less.
          shell_loop-ends fuel t u
            (let i = prompted-input term w in omega (arith, ap (λ (i : Stdin). length i.bytes) i))

-- In a system in which every child ends and no signal breaks a wait, so that a wait reports one of the
-- children that were not reported yet, if there are any: the shell comes to an end on every input,
-- whatever else the system answers; it exits, or its behaviour is undefined. With one wait more than
-- there were children the fuel of each command is enough.
pub start_shell-ends : (os : Os) (w : World) → Reaps os → start_shell os w ≢ unfinished
unfolding start_shell
start_shell-ends os w r = shell_loop-ends os r _ t_nl w (omega arith)
