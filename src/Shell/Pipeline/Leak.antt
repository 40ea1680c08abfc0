-- ===== src/Shell/Pipeline/Leak.antt =====
-- A built-in command behind a bar.
use unix_study.Prelude.{ℕ, ◌+◌, ◌<◌, ◌≡◌, ◌≢◌, true, false, some, List, [], ◌∷◌, Bytes, arith}
use unix_study.Shell.Lexer.{Token}
use unix_study.Shell.Table.{pipe_read, put, fd_check}
use unix_study.Shell.Table.Check.{fd_check_iff}
use unix_study.Shell.World.{Os, World, piped}
use unix_study.Shell.Builtin.{builtin}
use unix_study.Shell.Builtin.Frame.{builtin-SameIo}
use unix_study.Shell.Invoke.{Io, invoke}
use unix_study.Shell.Command.{returned, is_bar, finish}
use unix_study.Shell.Pipeline.Stage.{with_pipe}
use unix_study.Shell.Pipeline.Finish.{make_pipe-granted}

-- The state in which the command behind the bar is invoked.
abbrev pub behind_pipe : ℕ → ℕ → World → World
behind_pipe r wr w = record w {
  table = with_pipe w.pipes r wr w.table;
  pipes = w.pipes + 1;
  log = piped ∷ w.log;
}

-- The last command of a pipeline, for which the system grants the pipe, is built in. Then the call of
-- `command` behind the bar returns with the writing end for the command in front of the bar, with no
-- process to wait for, and in a state in which the shell still holds the reading end; for a descriptor
-- from 3 to 19, `fd_check` finds an open descriptor in that state.
pub finish-builtin :
    (os : Os) (token term : Token) (inner : ℕ) (arg : Bytes) (args : List Bytes) (io : Io)
    (w v : World) (r wr : ℕ)
    → is_bar token ≡ false
    → os.pipe_fds w.table w.log ≡ some (r, wr)
    → r ≢ wr
    → 2 < r
    → r < 20
    → builtin os arg args (some r) io.dstfd (behind_pipe r wr w) ≡ some v
    → (finish os true token term inner (arg ∷ args) io w ≡ returned term 0 (some wr) v)
      × (v.table r ≡ some (pipe_read w.pipes))
      × (fd_check v.table ≢ [])
unfolding finish put invoke
finish-builtin os token term inner arg args io w v r wr last made ne lo hi b =
    let same = builtin-SameIo os arg args (some r) io.dstfd (behind_pipe r wr w) b in
    let held : v.table r ≡ some (pipe_read w.pipes) = rw same.table (ground arith) in
    (
      rw (make_pipe-granted os w r wr made, last, b, invoke),
      held,
      λ ok. let gone = (fd_check_iff v.table).0 ok r lo hi in cc,
    )
