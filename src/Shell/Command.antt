-- ===== src/Shell/Command.antt =====
-- `command` of communication/shell.c. `gather` is its loop over the tokens, up to the one that ends
-- the command; `command` is that loop and what follows it, with the call of itself behind a bar.
pub mod Bounds
pub mod Ends
pub mod Files
pub mod Inside
pub mod Parts
pub mod Sealed
pub mod Starts
pub mod Words
use unix_study.Prelude.{
  ◌-◌, ℕ, zero, suc, ◌+◌, Bool, true, false, not, ◌||◌, Option, none, some, List, [], ◌∷◌, ◌++◌,
  Bytes, map, c_string, leb, length, replicate, if◌then◌else◌,
}
use unix_study.Shell.Lexer.{
  Token, t_word, t_bar, t_amp, t_gt, t_gtgt, t_lt, t_nl, t_eof, t_error, Lexed, gettoken,
}
use unix_study.Shell.Table.{Fd, stdin_fileno, stdout_fileno, pipe_read, pipe_write, put}
use unix_study.Shell.World.{
  Os, lexical, too_many_args, out_of_arg_memory, extra_lt, illegal_lt, extra_gt, illegal_gt,
  conflicts_with_bar, missing_command, allocated, piped, World, emit, say, say_all,
}
use unix_study.Shell.Builtin.{is_fd}
use unix_study.Shell.Invoke.{Io, is_above_stdout, invoke}

abbrev pub max_arg : ℕ
max_arg = 50

abbrev pub max_fname : ℕ
max_fname = 500

abbrev pub max_word : ℕ
max_word = 500

-- The local variables of the loop; `argc` is the length of `argv`.
pub record Locals : Type 0 where
  pub argv : List Bytes
  pub word : Bytes
  pub io : Io
  pub open io use *

-- `char srcfile[MAXFNAME] = ""`
unfoldable pub no_name : Bytes
no_name = replicate max_fname 0

unfoldable pub initial : Os → Locals
initial os = record {
  argv = [];
  word = os.some_bytes;
  io = record {
    srcfd = some stdin_fileno;
    srcfile = no_name;
    dstfd = some stdout_fileno;
    dstfile = no_name;
    append = os.some_bool;
  };
}

-- One round of the loop: it goes on, a token ends the command, or the function is left.
pub data Round : Type 0 where
  again : Locals → World → Round
  ended : Token → Locals → World → Round
  failed : World → Round
  exited : World → Round
  undefined : Round

-- The state behind a call of `gettoken`.
unfoldable pub after_token : Lexed → World → World
after_token r w = say_all (map lexical r.notes) (record w { input = r.input })

-- `case T_WORD`, on the string that `word` holds.
unfoldable pub add_word : Os → Locals → Option Bytes → World → Round
add_word os l text w =
    if leb (max_arg - 1) (length l.argv) then again l (say too_many_args w) else elim text [
      | none ↦ undefined
      | some arg ↦
          if os.malloc_works w.log
          then again (record l { argv = l.argv ++ arg ∷ [] }) (emit allocated w)
          else again l (say out_of_arg_memory (emit allocated w))
    ]

-- `gettoken(srcfile, sizeof(srcfile))` and what `case T_LT` makes of its answer. A `break` leaves
-- the `switch` alone, so the loop goes on.
abbrev pub source_named : Locals → Lexed → World → Round
source_named l r w = elim r.token [
  | t_word ↦
      again (record l { io = record l.io { srcfd = none; srcfile = r.word } }) (after_token r w)
  | _ ↦
      again (record l { io = record l.io { srcfile = r.word } }) (say illegal_lt (after_token r w))
]

unfoldable pub add_source : Bool → Locals → World → Round
add_source makepipe l w =
    if makepipe
    then again l (say extra_lt w)
    else source_named l (gettoken max_fname l.srcfile w.input) w

abbrev pub destination_named : Bool → Locals → Lexed → World → Round
destination_named appends l r w = elim r.token [
  | t_word ↦
      again (record l { io = record l.io { dstfd = none; dstfile = r.word; append = appends } })
        (after_token r w)
  | _ ↦
      again (record l { io = record l.io { dstfile = r.word } }) (say illegal_gt (after_token r w))
]

unfoldable pub add_destination : Bool → Locals → World → Round
add_destination appends l w =
    if not (is_fd stdout_fileno l.dstfd)
    then again l (say extra_gt w)
    else destination_named appends l (gettoken max_fname l.dstfile w.input) w

unfoldable pub dispatch : Os → Bool → Token → Locals → World → Round
dispatch os makepipe t_word l w = add_word os l (c_string l.word) w
dispatch os makepipe t_lt l w = add_source makepipe l w
dispatch os makepipe t_gt l w = add_destination false l w
dispatch os makepipe t_gtgt l w = add_destination true l w
dispatch os makepipe t_bar l w =
    if not (is_fd stdout_fileno l.dstfd)
    then again l (say conflicts_with_bar w)
    else ended t_bar l w
dispatch os makepipe t_eof l w = exited w
dispatch os makepipe t_error l w = failed w
dispatch os makepipe t l w = ended t l w

unfoldable pub round : Os → Bool → Locals → World → Round
round os makepipe l w =
    let r = gettoken max_word l.word w.input in
    dispatch os makepipe r.token (record l { word = r.word }) (after_token r w)

-- Behind a round: the next one, or the end of the loop.
abbrev pub continue_with : (Locals → World → Option Round) → Round → Option Round
continue_with next (again l w) = next l w
continue_with next (ended t l w) = some (ended t l w)
continue_with next (failed w) = some (failed w)
continue_with next (exited w) = some (exited w)
continue_with next undefined = some undefined

-- The loop. `none` is out of fuel.
unfoldable pub gather : Os → Bool → ℕ → Locals → World → Option Round
gather os makepipe zero l w = none
gather os makepipe (suc fuel) l w = continue_with (gather os makepipe fuel) (round os makepipe l w)

-- What `command` comes to: it returns its token, `*wpid` and `*pipefdp`; it returns T_ERROR; the
-- process exits with success; its behaviour is undefined; or the fuel was too little.
pub data Outcome : Type 0 where
  returned : Token → ℕ → Fd → World → Outcome
  error : World → Outcome
  exit_success : World → Outcome
  undefined_behaviour : Outcome
  out_of_fuel : Outcome

-- `pipe(pfd)`: the two ends, both -1 if it failed.
unfoldable pub make_pipe : Os → World → Fd × Fd × World
make_pipe os w = elim (os.pipe_fds w.table w.log) [
  | none ↦ (none, none, emit piped w)
  | some (r, wr) ↦ (
    some r,
    some wr,
    emit piped (record w {
      table = put (put w.table r (some (pipe_read w.pipes))) wr (some (pipe_write w.pipes));
      pipes = w.pipes + 1;
    }),
  )
]

abbrev pub is_nl : Token → Bool
is_nl t_nl = true
is_nl _ = false

abbrev pub is_amp : Token → Bool
is_amp t_amp = true
is_amp _ = false

abbrev pub is_bar : Token → Bool
is_bar t_bar = true
is_bar _ = false

abbrev pub missing : Token → List Bytes → Fd → World → World
missing token [] srcfd w =
    if not (is_nl token) || is_above_stdout srcfd then say missing_command w else w
missing token (_ ∷ _) srcfd w = w

-- The call of `invoke` and what follows it. `inner` is the `*wpid` that the call behind a bar has
-- set, and `source`, `pipefd` the ends of the pipe.
abbrev pub run_invoke : Os → Token → Token → ℕ → List Bytes → Io → Fd → World → Outcome
run_invoke os token term inner argv io pipefd w =
    let (w', pid) = invoke os argv io (is_amp term) pipefd w in
    returned term (if is_bar token then inner else pid) pipefd (missing token argv io.srcfd w')

unfoldable pub finish : Os → Bool → Token → Token → ℕ → List Bytes → Io → World → Outcome
finish os true token term inner argv io w =
    let (r, wr, w') = make_pipe os w in
    run_invoke os token term inner argv (record io { srcfd = r }) wr w'
finish os false token term inner argv io w = run_invoke os token term inner argv io none w

-- The statements behind the call of `command` at a bar.
unfoldable pub resume : Os → Bool → Locals → Outcome → Outcome
resume os makepipe l (returned term inner pipefd w) =
    finish os makepipe t_bar term inner l.argv (record l.io { dstfd = pipefd }) w
resume os makepipe l (error w) = error w
resume os makepipe l (exit_success w) = exit_success w
resume os makepipe l undefined_behaviour = undefined_behaviour
resume os makepipe l out_of_fuel = out_of_fuel

-- Behind the loop; `rest` is the call of `command` at a bar.
unfoldable pub conclude : Os → Bool → (World → Outcome) → Option Round → Outcome
conclude os makepipe rest none = out_of_fuel
conclude os makepipe rest (some (again l w)) = out_of_fuel
conclude os makepipe rest (some (ended t_bar l w)) = resume os makepipe l (rest w)
conclude os makepipe rest (some (ended t l w)) = finish os makepipe t t 0 l.argv l.io w
conclude os makepipe rest (some (failed w)) = error w
conclude os makepipe rest (some (exited w)) = exit_success w
conclude os makepipe rest (some undefined) = undefined_behaviour

unfoldable pub command : Os → Bool → ℕ → World → Outcome
command os makepipe zero w = out_of_fuel
command os makepipe (suc fuel) w =
    conclude os makepipe (command os true fuel) (gather os makepipe fuel (initial os) w)
