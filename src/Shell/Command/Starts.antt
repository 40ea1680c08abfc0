-- ===== src/Shell/Command/Starts.antt =====
-- The process that a command leaves to be waited for.
use mathlib.Core.List.{Memᴰ}
use unix_study.Shell.World.{alive, say, emit, Event, forked}
use unix_study.Shell.Builtin.Frame.{builtin-SameIo}
use unix_study.Shell.Builtin.{builtin}
use unix_study.Prelude.{
  arith, sym, subst, ◌∙◌, ◌≡◌, [], refl, zero, inr, false, Option-cases, ◌∷◌, Bool-cases, none, inl,
  some, true, suc,
}
use unix_study.Shell.Invoke.{child, in_parent, start, invoke}
use unix_study.Shell.Loop.Reap.{IsStarted}
use unix_study.Shell.Command.{
  missing, undefined, exited, is_amp, failed, again, out_of_fuel, is_bar, undefined_behaviour,
  ended, initial, run_invoke, exit_success, gather, make_pipe, Fd, Round, error, t_bar, Io, Option,
  ℕ, Locals, List, returned, World, Outcome, Token, Bool, Bytes, Os, finish, conclude, resume,
  command,
}

-- The outcome names no process but a child that no wait has reported yet.
abbrev pub Starts : Outcome → Type 0
Starts (returned t pid fd w) = IsStarted w.log pid
Starts _ = Unit {0}

in_parent-alive :
    (io : Io) (bckgrnd : Bool) (pid : ℕ) (w : World)
    → alive (in_parent io bckgrnd pid w).0.log ≡ alive w.log
unfolding say alive
in_parent-alive io false pid w = refl
in_parent-alive io true pid w = refl

-- The children behind `invoke`: those before it, and the new one if there is one.
record Invoked (w : World) (out : World × ℕ) : Type 0 where
  own : IsStarted out.0.log out.1
  older : (p : ℕ) → IsStarted w.log p → IsStarted out.0.log p

keeps :
    (log log' : List Event) → alive log' ≡ alive log → (p : ℕ) → IsStarted log p → IsStarted log' p
keeps log log' e p (inl z) = inl z
keeps log log' e p (inr m) = inr (subst (Memᴰ p) (sym e) m)

one_more :
    (log log' : List Event) (pid : ℕ)
    → alive log' ≡ pid ∷ alive log
    → (p : ℕ) → IsStarted log p
    → IsStarted log' p
one_more log log' pid e p (inl z) = inl z
one_more log log' pid e p (inr m) = inr (subst (Memᴰ p) (sym e) (Memᴰ.tail m))

start-Invoked :
    (os : Os) (arg : Bytes) (args : List Bytes) (io : Io) (bckgrnd : Bool) (closefd : Fd)
    (w : World)
    → Invoked w (start os arg args io bckgrnd closefd w)
start-Invoked os arg args io bckgrnd closefd w = elim (Option-cases (os.fork_pid w.log)) [
  | inl e ↦
      rw (e, start) (record { own = inl refl; older = keeps _ _ (unfold say emit alive in refl) })
  | inr (pid, e) ↦
      let c = child (os.open_fd w.log) arg args w.env io bckgrnd closefd w.table in
      let born : alive (in_parent io bckgrnd pid (emit (forked pid c) w)).0.log
          ≡ pid ∷ alive w.log =
        in_parent-alive io bckgrnd pid (emit (forked pid c) w) ∙ (unfold emit alive in refl) in
      rw (e, start)
        (record {
          own = inr (subst (Memᴰ pid) (sym born) (Memᴰ.head refl));
          older = one_more _ _ pid born;
        })
]

invoke-Invoked :
    (os : Os) (argv : List Bytes) (io : Io) (bckgrnd : Bool) (closefd : Fd) (w : World)
    → Invoked w (invoke os argv io bckgrnd closefd w)
unfolding invoke
invoke-Invoked os [] io bckgrnd closefd w = record { own = inl refl; older = λ p h. h }
invoke-Invoked os (arg ∷ args) io bckgrnd closefd w =
    elim (Option-cases (builtin os arg args io.srcfd io.dstfd w)) [
      | inl e ↦ rw (e, invoke) (start-Invoked os arg args io bckgrnd closefd w)
      | inr (v, e) ↦
          let same = builtin-SameIo os arg args io.srcfd io.dstfd w e in
          rw (e, invoke) (record { own = inl refl; older = keeps _ _ same.alive_are })
    ]

missing-alive :
    (token : Token) (argv : List Bytes) (srcfd : Fd) (w : World)
    → alive (missing token argv srcfd w).log ≡ alive w.log
unfolding say alive
missing-alive token [] srcfd w = ground arith
missing-alive token (_ ∷ _) srcfd w = refl

run_invoke-Starts :
    (os : Os) (token term : Token) (inner : ℕ) (argv : List Bytes) (io : Io) (pipefd : Fd)
    (w : World)
    → IsStarted w.log inner
    → Starts (run_invoke os token term inner argv io pipefd w)
run_invoke-Starts os token term inner argv io pipefd w h =
    let r = invoke-Invoked os argv io (is_amp term) pipefd w in
    let out = invoke os argv io (is_amp term) pipefd w in
    let same = missing-alive token argv io.srcfd out.0 in
    elim (Bool-cases (is_bar token)) [
      | inl e ↦ rw e (keeps _ _ same inner (r.older inner h))
      | inr e ↦ rw e (keeps _ _ same out.1 r.own)
    ]

make_pipe-alive : (os : Os) (w : World) → alive (make_pipe os w).2.log ≡ alive w.log
unfolding make_pipe emit alive
make_pipe-alive os w = ground arith

finish-Starts :
    (os : Os) (makepipe : Bool) (token term : Token) (inner : ℕ) (argv : List Bytes) (io : Io)
    (w : World)
    → IsStarted w.log inner
    → Starts (finish os makepipe token term inner argv io w)
unfolding finish
finish-Starts os true token term inner argv io w h =
    let (r, wr, w') = make_pipe os w in
    run_invoke-Starts os token term inner argv (record io { srcfd = r }) wr w'
      (keeps _ _ (make_pipe-alive os w) inner h)
finish-Starts os false token term inner argv io w h =
    run_invoke-Starts os token term inner argv io none w h

resume-Starts :
    (os : Os) (makepipe : Bool) (l : Locals) (r : Outcome)
    → Starts r
    → Starts (resume os makepipe l r)
unfolding resume
resume-Starts os makepipe l (returned term inner fd w) h =
    finish-Starts os makepipe t_bar term inner l.argv (record l.io { dstfd = fd }) w h
resume-Starts os makepipe l (error w) h = tt
resume-Starts os makepipe l (exit_success w) h = tt
resume-Starts os makepipe l undefined_behaviour h = tt
resume-Starts os makepipe l out_of_fuel h = tt

conclude-Starts :
    (os : Os) (makepipe : Bool) (rest : World → Outcome) (r : Option Round)
    → ((w : World) → Starts (rest w))
    → Starts (conclude os makepipe rest r)
unfolding conclude
conclude-Starts os makepipe rest (some (ended t_bar l w)) ih =
    resume-Starts os makepipe l (rest w) (ih w)
conclude-Starts os makepipe rest (some (ended t l w)) ih =
    finish-Starts os makepipe t t 0 l.argv l.io w (inl refl)
conclude-Starts os makepipe rest (some (again l w)) ih = tt
conclude-Starts os makepipe rest (some (failed w)) ih = tt
conclude-Starts os makepipe rest (some (exited w)) ih = tt
conclude-Starts os makepipe rest (some undefined) ih = tt
conclude-Starts os makepipe rest none ih = tt

pub command-Starts :
    (os : Os) (makepipe : Bool) (fuel : ℕ) (w : World) → Starts (command os makepipe fuel w)
unfolding command
command-Starts os makepipe zero w = tt
command-Starts os makepipe (suc fuel) w =
    conclude-Starts os makepipe (command os true fuel) (gather os makepipe fuel (initial os) w)
      (command-Starts os true fuel)
