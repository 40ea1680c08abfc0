-- ===== src/Shell/Command/Bounds.antt =====
-- The array `argv` of `command`.
use unix_study.Prelude.{
  ℕ, zero, suc, ◌<◌, Bool, Option, none, some, [], ◌∷◌, Bytes, arith, length, length-append,
}
use unix_study.Shell.Lexer.{Token, t_word, t_bar, t_gt, t_gtgt, t_lt}
use unix_study.Shell.World.{Os, World, say, emit}
use unix_study.Shell.Command.{
  max_arg, Locals, Round, again, ended, failed, exited, undefined, add_word, add_source,
  add_destination, dispatch, round, gather, continue_with, initial,
}

-- Room for the arguments and for the NULL behind them.
abbrev pub HasRoom : Round → Type 0
HasRoom (again l w) = length l.argv < max_arg
HasRoom (ended t l w) = length l.argv < max_arg
HasRoom _ = Unit {0}

add_word-HasRoom :
    (os : Os) (l : Locals) (text : Option Bytes) (w : World)
    → length l.argv < max_arg
    → HasRoom (add_word os l text w)
unfolding add_word say emit
add_word-HasRoom os l none w h = ground arith
add_word-HasRoom os l (some arg) w h = ground (arith, length-append l.argv (arg ∷ []))

dispatch-HasRoom :
    (os : Os) (makepipe : Bool) (t : Token) (l : Locals) (w : World)
    → length l.argv < max_arg
    → HasRoom (dispatch os makepipe t l w)
unfolding dispatch add_source add_destination say emit
dispatch-HasRoom os makepipe t_word l w h = add_word-HasRoom os l _ w h
dispatch-HasRoom os makepipe t_lt l w h = ground arith
dispatch-HasRoom os makepipe t_gt l w h = ground arith
dispatch-HasRoom os makepipe t_gtgt l w h = ground arith
dispatch-HasRoom os makepipe t_bar l w h = ground arith
dispatch-HasRoom os makepipe t l w h = ground arith

-- What `gather` may come to.
abbrev pub StaysInRoom : Option Round → Type 0
StaysInRoom none = Unit {0}
StaysInRoom (some r) = HasRoom r

continue_with-HasRoom :
    (next : Locals → World → Option Round) (r : Round)
    → HasRoom r
    → ((l : Locals) (w : World) → length l.argv < max_arg → StaysInRoom (next l w))
    → StaysInRoom (continue_with next r)
continue_with-HasRoom next (again l w) k ih = ih l w k
continue_with-HasRoom next (ended t l w) k ih = k
continue_with-HasRoom next (failed w) k ih = tt
continue_with-HasRoom next (exited w) k ih = tt
continue_with-HasRoom next undefined k ih = tt

gather-HasRoom :
    (os : Os) (makepipe : Bool) (fuel : ℕ) (l : Locals) (w : World)
    → length l.argv < max_arg
    → StaysInRoom (gather os makepipe fuel l w)
unfolding gather
gather-HasRoom os makepipe zero l w h = tt
gather-HasRoom os makepipe (suc fuel) l w h =
    continue_with-HasRoom (gather os makepipe fuel) (round os makepipe l w)
      (unfold round in dispatch-HasRoom os makepipe _ (record l { word = _ }) _ h)
      λ l' w' k. gather-HasRoom os makepipe fuel l' w' k

-- However many words the line has, and whatever the system answers, the loop of `command` ends a
-- command with at most 49 arguments: `argv[argc] = NULL` stays inside `argv[MAXARG]`.
pub gather_within_argv :
    (os : Os) (makepipe : Bool) (fuel : ℕ) (w : World)
    → StaysInRoom (gather os makepipe fuel (initial os) w)
unfolding initial
gather_within_argv os makepipe fuel w = gather-HasRoom os makepipe fuel _ w (omega arith)
