-- ===== src/Shell/Command/Ends.antt =====
-- How many rounds `command` takes.
use unix_study.Shell.Invoke.Frame.{invoke-input}
use unix_study.Prelude.{
  ◌+◌, List, zero, none, true, false, suc, some, ◌≤◌, ℕ, ◌<◌, ◌≡◌, Bool, Option, Bytes, arith,
  length, map,
}
use unix_study.Shell.Lexer.{
  t_nl, t_semi, t_amp, t_error, t_eof, t_bar, t_gtgt, t_gt, t_lt, t_word, Lexed, gettoken,
}
use unix_study.Shell.Lexer.Progress.{IsLexeme, gettoken-length, gettoken-le}
use unix_study.Shell.World.{Os, World, say, emit, lexical}
use unix_study.Shell.World.Laws.{say_all-input}
use unix_study.Shell.Command.{
  initial, is_amp, run_invoke, undefined_behaviour, Fd, Io, exit_success, make_pipe, conclude,
  resume, finish, command, error, undefined, out_of_fuel, exited, failed, continue_with, returned,
  Token, max_word, gather, round, Outcome, dispatch, max_fname, Locals, Round, again, ended,
  after_token, add_word, add_source, add_destination,
}

-- The number of unread bytes.
abbrev pub unread : World → ℕ
unread w = length w.input.bytes

pub after_token-input : (r : Lexed) (w : World) → (after_token r w).input ≡ r.input
unfolding after_token
after_token-input r w = say_all-input (map lexical r.notes) (record w { input = r.input })

-- A round that goes on, or that finds the end of the command, leaves fewer than `n` bytes.
abbrev Shrinks : ℕ → Round → Type 0
Shrinks n (again l w) = unread w < n
Shrinks n (ended t l w) = unread w < n
Shrinks n _ = Unit {0}

module _ (n : ℕ) (l : Locals) (w : World) (h : unread w < n) where
  add_word-Shrinks : (os : Os) (text : Option Bytes) → Shrinks n (add_word os l text w)
  unfolding add_word say emit
  add_word-Shrinks os text = ground arith

  add_source-Shrinks : (makepipe : Bool) → Shrinks n (add_source makepipe l w)
  unfolding add_source say
  add_source-Shrinks makepipe =
      let r = gettoken max_fname l.srcfile w.input in
      ground (arith, after_token-input r w, gettoken-le max_fname l.srcfile w.input)

  add_destination-Shrinks : (appends : Bool) → Shrinks n (add_destination appends l w)
  unfolding add_destination say
  add_destination-Shrinks appends =
      let r = gettoken max_fname l.dstfile w.input in
      ground (arith, after_token-input r w, gettoken-le max_fname l.dstfile w.input)

dispatch-Shrinks :
    (os : Os) (makepipe : Bool) (t : Token) (l : Locals) (w : World) (n : ℕ)
    → (IsLexeme t → unread w < n)
    → Shrinks n (dispatch os makepipe t l w)
unfolding dispatch say
dispatch-Shrinks os makepipe t_word l w n h = add_word-Shrinks n l w (h (cc, cc)) os _
dispatch-Shrinks os makepipe t_lt l w n h = add_source-Shrinks n l w (h (cc, cc)) makepipe
dispatch-Shrinks os makepipe t_gt l w n h = add_destination-Shrinks n l w (h (cc, cc)) false
dispatch-Shrinks os makepipe t_gtgt l w n h = add_destination-Shrinks n l w (h (cc, cc)) true
dispatch-Shrinks os makepipe t_bar l w n h = let lt = h (cc, cc) in ground arith
dispatch-Shrinks os makepipe t_eof l w n h = tt
dispatch-Shrinks os makepipe t_error l w n h = tt
dispatch-Shrinks os makepipe t_amp l w n h = h (cc, cc)
dispatch-Shrinks os makepipe t_semi l w n h = h (cc, cc)
dispatch-Shrinks os makepipe t_nl l w n h = h (cc, cc)

round-Shrinks :
    (os : Os) (makepipe : Bool) (l : Locals) (w : World)
    → Shrinks (unread w) (round os makepipe l w)
unfolding round
round-Shrinks os makepipe l w =
    let r = gettoken max_word l.word w.input in
    dispatch-Shrinks os makepipe r.token (record l { word = r.word }) (after_token r w) (unread w)
      λ lexeme.
        let e = after_token-input r w in rw e (gettoken-length max_word l.word w.input lexeme)

-- The loop ends within its fuel, and a command that is complete leaves fewer than `n` bytes.
abbrev pub Stops : ℕ → Option Round → Type 0
Stops n (some (ended t l w)) = unread w < n
Stops n (some (again l w)) = ⊥
Stops n none = ⊥
Stops n _ = Unit {0}

continue_with-Stops :
    (n m : ℕ) (next : Locals → World → Option Round) (r : Round)
    → m ≤ n
    → Shrinks m r
    → ((l : Locals) (w : World) → unread w < m → Stops n (next l w))
    → Stops n (continue_with next r)
continue_with-Stops n m next (again l w) le h ih = ih l w h
continue_with-Stops n m next (ended t l w) le h ih = omega arith
continue_with-Stops n m next (failed w) le h ih = tt
continue_with-Stops n m next (exited w) le h ih = tt
continue_with-Stops n m next undefined le h ih = tt

pub gather-Stops :
    (os : Os) (makepipe : Bool) (fuel n : ℕ) (l : Locals) (w : World)
    → unread w < fuel
    → unread w ≤ n
    → Stops n (gather os makepipe fuel l w)
unfolding gather
gather-Stops os makepipe zero n l w h le = elim h [ ]
gather-Stops os makepipe (suc fuel) n l w h le =
    continue_with-Stops n (unread w) (gather os makepipe fuel) (round os makepipe l w) le
      (round-Shrinks os makepipe l w)
      λ l' w' lt. gather-Stops os makepipe fuel n l' w' (omega arith) (omega arith)

-- `command` has come to an end, with no more bytes to read than before. If it returns, it has read
-- one at least.
abbrev pub Ends : ℕ → Outcome → Type 0
Ends n (returned t pid fd w) = unread w < n
Ends n out_of_fuel = ⊥
Ends n _ = Unit {0}

run_invoke-Ends :
    (os : Os) (token term : Token) (inner : ℕ) (argv : List Bytes) (io : Io) (pipefd : Fd)
    (w : World) (n : ℕ)
    → unread w < n
    → Ends n (run_invoke os token term inner argv io pipefd w)
unfolding say
run_invoke-Ends os token term inner argv io pipefd w n h =
    ground (arith, invoke-input os argv io (is_amp term) pipefd w)

finish-Ends :
    (os : Os) (makepipe : Bool) (token term : Token) (inner : ℕ) (argv : List Bytes) (io : Io)
    (w : World) (n : ℕ)
    → unread w < n
    → Ends n (finish os makepipe token term inner argv io w)
unfolding finish make_pipe emit
finish-Ends os false token term inner argv io w n h =
    run_invoke-Ends os token term inner argv io none w n h
finish-Ends os true token term inner argv io w n h =
    let (r, wr, w') = make_pipe os w in
    run_invoke-Ends os token term inner argv (record io { srcfd = r }) wr w' n (ground arith)

resume-Ends :
    (os : Os) (makepipe : Bool) (l : Locals) (r : Outcome) (n : ℕ)
    → Ends n r
    → Ends n (resume os makepipe l r)
unfolding resume
resume-Ends os makepipe l (returned term inner fd w) n h =
    finish-Ends os makepipe t_bar term inner l.argv _ w n h
resume-Ends os makepipe l (error w) n h = tt
resume-Ends os makepipe l (exit_success w) n h = tt
resume-Ends os makepipe l undefined_behaviour n h = tt
resume-Ends os makepipe l out_of_fuel n h = elim h [ ]

conclude-Ends :
    (os : Os) (makepipe : Bool) (rest : World → Outcome) (r : Option Round) (n : ℕ)
    → Stops n r
    → ((w : World) → unread w < n → Ends n (rest w))
    → Ends n (conclude os makepipe rest r)
unfolding conclude
conclude-Ends os makepipe rest (some (ended t_bar l w)) n h ih =
    resume-Ends os makepipe l (rest w) n (ih w h)
conclude-Ends os makepipe rest (some (ended t l w)) n h ih =
    finish-Ends os makepipe t t 0 l.argv l.io w n h
conclude-Ends os makepipe rest (some (failed w)) n h ih = tt
conclude-Ends os makepipe rest (some (exited w)) n h ih = tt
conclude-Ends os makepipe rest (some undefined) n h ih = tt
conclude-Ends os makepipe rest (some (again l w)) n h ih = elim h [ ]
conclude-Ends os makepipe rest none n h ih = elim h [ ]

Ends-mono : (m n : ℕ) (r : Outcome) → m ≤ n → Ends m r → Ends n r
Ends-mono m n (returned t pid fd w) le h = omega arith
Ends-mono m n (error w) le h = tt
Ends-mono m n (exit_success w) le h = tt
Ends-mono m n undefined_behaviour le h = tt
Ends-mono m n out_of_fuel le h = elim h [ ]

command-Ends-mono :
    (os : Os) (makepipe : Bool) (fuel n : ℕ) (w : World)
    → unread w + 1 < fuel
    → unread w ≤ n
    → Ends n (command os makepipe fuel w)
unfolding command
command-Ends-mono os makepipe zero n w h le = elim h [ ]
command-Ends-mono os makepipe (suc fuel) n w h le = Ends-mono (unread w) n _ le (
    conclude-Ends os makepipe (command os true fuel) (gather os makepipe fuel (initial os) w)
      (unread w)
      (gather-Stops os makepipe fuel (unread w) (initial os) w (omega arith) (omega arith))
      λ w' lt. command-Ends-mono os true fuel (unread w) w' (omega arith) (omega arith))

-- Whatever the input and the answers of the system, two rounds more than there are unread bytes are
-- fuel enough for `command`, and for the calls of itself behind bars: it never runs out. When it
-- returns it has read one byte at least.
pub command-Ends :
    (os : Os) (makepipe : Bool) (fuel : ℕ) (w : World)
    → unread w + 1 < fuel
    → Ends (unread w) (command os makepipe fuel w)
command-Ends os makepipe fuel w h = command-Ends-mono os makepipe fuel (unread w) w h (omega arith)
