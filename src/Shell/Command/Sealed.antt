-- ===== src/Shell/Command/Sealed.antt =====
-- What `command` starts, whatever the input and the answers of the system.
use unix_study.Prelude.{
  zero, suc, [], ◌∷◌, none, some, true, false, refl, arith, sym, subst, ◌≡◌, Bool, Option, List, ℕ,
  Bytes, All, map,
}
use unix_study.Shell.Lexer.{
  Token, t_word, t_bar, t_amp, t_gt, t_gtgt, t_lt, t_nl, t_eof, t_error, t_semi, Lexed, gettoken,
}
use unix_study.Shell.Table.{Fd}
use unix_study.Shell.World.{Os, World, Child, lexical, children_in, emit, say}
use unix_study.Shell.World.Laws.{say_all-children}
use unix_study.Shell.Invoke.{invoke, Io}
use unix_study.Shell.Invoke.Sealed.{IsSealed, Sealed, invoke-Sealed}
use unix_study.Shell.Command.{
  invoke, again, ended, failed, exited, undefined, Round, Locals, Outcome, returned, error,
  exit_success, undefined_behaviour, out_of_fuel, after_token, add_word, add_source,
  add_destination, dispatch, round, max_word, max_fname, gather, continue_with, make_pipe,
  run_invoke, missing, finish, resume, conclude, command, initial, is_amp,
}

-- Behind a round the children are `cs`.
abbrev Quiet : List Child → Round → Type 0
Quiet cs (again l w) = children_in w.log ≡ cs
Quiet cs (ended t l w) = children_in w.log ≡ cs
Quiet cs (failed w) = children_in w.log ≡ cs
Quiet cs (exited w) = children_in w.log ≡ cs
Quiet cs _ = Unit {0}

after_token-children :
    (r : Lexed) (w : World) → children_in (after_token r w).log ≡ children_in w.log
unfolding after_token
after_token-children r w = say_all-children (map lexical r.notes) (record w { input = r.input })

module _ (cs : List Child) (l : Locals) (w : World) (h : children_in w.log ≡ cs) where
  add_word-Quiet : (os : Os) (text : Option Bytes) → Quiet cs (add_word os l text w)
  unfolding add_word say emit children_in
  add_word-Quiet os text = ground arith

  add_source-Quiet : (makepipe : Bool) → Quiet cs (add_source makepipe l w)
  unfolding add_source say children_in
  add_source-Quiet makepipe =
      ground (arith, after_token-children (gettoken max_fname l.srcfile w.input) w)

  add_destination-Quiet : (appends : Bool) → Quiet cs (add_destination appends l w)
  unfolding add_destination say children_in
  add_destination-Quiet appends =
      ground (arith, after_token-children (gettoken max_fname l.dstfile w.input) w)

  dispatch-Quiet : (os : Os) (makepipe : Bool) (t : Token) → Quiet cs (dispatch os makepipe t l w)
  unfolding dispatch say children_in
  dispatch-Quiet os makepipe t_word = add_word-Quiet os _
  dispatch-Quiet os makepipe t_lt = add_source-Quiet makepipe
  dispatch-Quiet os makepipe t_gt = add_destination-Quiet false
  dispatch-Quiet os makepipe t_gtgt = add_destination-Quiet true
  dispatch-Quiet os makepipe t_bar = ground arith
  dispatch-Quiet os makepipe t_eof = h
  dispatch-Quiet os makepipe t_error = h
  dispatch-Quiet os makepipe t_amp = h
  dispatch-Quiet os makepipe t_semi = h
  dispatch-Quiet os makepipe t_nl = h

round-Quiet :
    (os : Os) (makepipe : Bool) (l : Locals) (w : World)
    → Quiet (children_in w.log) (round os makepipe l w)
unfolding round
round-Quiet os makepipe l w =
    let r = gettoken max_word l.word w.input in
    dispatch-Quiet (children_in w.log) (record l { word = r.word }) (after_token r w)
      (after_token-children r w) os makepipe r.token

-- The children behind the loop.
abbrev QuietLoop : List Child → Option Round → Type 0
QuietLoop cs (some r) = Quiet cs r
QuietLoop cs none = Unit {0}

continue_with-Quiet :
    (cs : List Child) (next : Locals → World → Option Round) (r : Round)
    → Quiet cs r
    → ((l : Locals) (w : World) → children_in w.log ≡ cs → QuietLoop cs (next l w))
    → QuietLoop cs (continue_with next r)
continue_with-Quiet cs next (again l w) h ih = ih l w h
continue_with-Quiet cs next (ended t l w) h ih = h
continue_with-Quiet cs next (failed w) h ih = h
continue_with-Quiet cs next (exited w) h ih = h
continue_with-Quiet cs next undefined h ih = tt

gather-Quiet :
    (os : Os) (makepipe : Bool) (fuel : ℕ) (cs : List Child) (l : Locals) (w : World)
    → children_in w.log ≡ cs
    → QuietLoop cs (gather os makepipe fuel l w)
unfolding gather
gather-Quiet os makepipe zero cs l w h = tt
gather-Quiet os makepipe (suc fuel) cs l w h =
    continue_with-Quiet cs (gather os makepipe fuel) (round os makepipe l w)
      (subst (λ c. Quiet c (round os makepipe l w)) h (round-Quiet os makepipe l w))
      λ l' w' e. gather-Quiet os makepipe fuel cs l' w' e

-- The children that an outcome of `command` leaves are sealed.
abbrev pub SealedOutcome : Outcome → Type 0
SealedOutcome (returned t pid fd w) = Sealed w
SealedOutcome (error w) = Sealed w
SealedOutcome (exit_success w) = Sealed w
SealedOutcome undefined_behaviour = Unit {0}
SealedOutcome out_of_fuel = Unit {0}

missing-children :
    (token : Token) (argv : List Bytes) (srcfd : Fd) (w : World)
    → children_in (missing token argv srcfd w).log ≡ children_in w.log
unfolding say children_in
missing-children token [] srcfd w = ground arith
missing-children token (_ ∷ _) srcfd w = refl

run_invoke-Sealed :
    (os : Os) (token term : Token) (inner : ℕ) (argv : List Bytes) (io : Io) (pipefd : Fd)
    (w : World)
    → Sealed w
    → SealedOutcome (run_invoke os token term inner argv io pipefd w)
run_invoke-Sealed os token term inner argv io pipefd w h =
    subst (All IsSealed)
      (sym (missing-children token argv io.srcfd (invoke os argv io (is_amp term) pipefd w).0))
      (invoke-Sealed os argv io (is_amp term) pipefd w h)

make_pipe-children : (os : Os) (w : World) → children_in (make_pipe os w).2.log ≡ children_in w.log
unfolding make_pipe emit children_in
make_pipe-children os w = ground arith

finish-Sealed :
    (os : Os) (makepipe : Bool) (token term : Token) (inner : ℕ) (argv : List Bytes) (io : Io)
    (w : World)
    → Sealed w
    → SealedOutcome (finish os makepipe token term inner argv io w)
unfolding finish
finish-Sealed os true token term inner argv io w h =
    let (r, wr, w') = make_pipe os w in
    run_invoke-Sealed os token term inner argv (record io { srcfd = r }) wr w'
      (subst (All IsSealed) (sym (make_pipe-children os w)) h)
finish-Sealed os false token term inner argv io w h =
    run_invoke-Sealed os token term inner argv io none w h

resume-Sealed :
    (os : Os) (makepipe : Bool) (l : Locals) (r : Outcome)
    → SealedOutcome r
    → SealedOutcome (resume os makepipe l r)
unfolding resume
resume-Sealed os makepipe l (returned term inner fd w) h =
    finish-Sealed os makepipe t_bar term inner l.argv (record l.io { dstfd = fd }) w h
resume-Sealed os makepipe l (error w) h = h
resume-Sealed os makepipe l (exit_success w) h = h
resume-Sealed os makepipe l undefined_behaviour h = tt
resume-Sealed os makepipe l out_of_fuel h = tt

conclude-Sealed :
    (os : Os) (makepipe : Bool) (rest : World → Outcome) (cs : List Child) (r : Option Round)
    → All IsSealed cs
    → QuietLoop cs r
    → ((w : World) → Sealed w → SealedOutcome (rest w))
    → SealedOutcome (conclude os makepipe rest r)
unfolding conclude
conclude-Sealed os makepipe rest cs (some (ended t_bar l w)) h q ih =
    resume-Sealed os makepipe l (rest w) (ih w (subst (All IsSealed) (sym q) h))
conclude-Sealed os makepipe rest cs (some (ended t l w)) h q ih =
    finish-Sealed os makepipe t t 0 l.argv l.io w (subst (All IsSealed) (sym q) h)
conclude-Sealed os makepipe rest cs (some (again l w)) h q ih = tt
conclude-Sealed os makepipe rest cs (some (failed w)) h q ih = subst (All IsSealed) (sym q) h
conclude-Sealed os makepipe rest cs (some (exited w)) h q ih = subst (All IsSealed) (sym q) h
conclude-Sealed os makepipe rest cs (some undefined) h q ih = tt
conclude-Sealed os makepipe rest cs none h q ih = tt

-- `command` leaves sealed children if it finds such.
pub command-Sealed :
    (os : Os) (makepipe : Bool) (fuel : ℕ) (w : World)
    → Sealed w
    → SealedOutcome (command os makepipe fuel w)
unfolding command
command-Sealed os makepipe zero w h = tt
command-Sealed os makepipe (suc fuel) w h =
    conclude-Sealed os makepipe (command os true fuel) (children_in w.log)
      (gather os makepipe fuel (initial os) w) h
      (gather-Quiet os makepipe fuel (children_in w.log) (initial os) w refl)
      λ w' h'. command-Sealed os true fuel w' h'
