-- ===== src/Shell/Pipeline/Finish.antt =====
-- What `command` does behind its loop for a command of a pipeline.
use unix_study.Prelude.{
  sym, subst, ℕ, ◌+◌, ◌<◌, ◌≡◌, Bool, true, false, none, some, ◌∷◌, if◌then◌else◌,
}
use unix_study.Shell.Lexer.{Token, t_nl}
use unix_study.Shell.Table.{Fd, stdin_fileno, File, pipe_read}
use unix_study.Shell.World.{Os, World, emit, forked, piped}
use unix_study.Shell.Builtin.{builtin}
use unix_study.Shell.Invoke.{start, Io, child, close_above, invoke}
use unix_study.Shell.Command.{returned, is_bar, make_pipe, finish}
use unix_study.Shell.Pipeline.{standard, Simple, IsExternal, Healthy, started}
use unix_study.Shell.Pipeline.Stage.{
  sink-OneMore, extra, Sink, into, sink_fd, sink_table, sink_file, IsFree, named, child-first,
  table-first, with_pipe, child-piped, table-piped, free-piped,
}

pub builtin-external :
    (os : Os) (c : Simple) (src dst : Fd) (w : World)
    → IsExternal c
    → builtin os c.path c.args src dst w ≡ none
unfolding builtin
builtin-external os c src dst w x = rw (x.no_assignment, x.not_set, x.not_cd)

start-external :
    (os : Os) (c : Simple) (io : Io) (closefd : Fd) (w : World) (pid : ℕ)
    → os.fork_pid w.log ≡ some pid
    → start os c.path c.args io false closefd w ≡ (
      record w {
        table = close_above io.dstfd (close_above io.srcfd w.table);
        log =
            forked pid (child (os.open_fd w.log) c.path c.args w.env io false closefd w.table)
            ∷ w.log;
      },
      pid,
    )
unfolding emit
start-external os c io closefd w pid f = rw (f, start)

-- A fork that works: the child is in the log, and the shell has closed what it handed over.
invoke-external :
    (os : Os) (c : Simple) (io : Io) (closefd : Fd) (w : World) (pid : ℕ)
    → IsExternal c
    → os.fork_pid w.log ≡ some pid
    → invoke os (c.path ∷ c.args) io false closefd w ≡ (
      record w {
        table = close_above io.dstfd (close_above io.srcfd w.table);
        log =
            forked pid (child (os.open_fd w.log) c.path c.args w.env io false closefd w.table)
            ∷ w.log;
      },
      pid,
    )
unfolding invoke
invoke-external os c io closefd w pid x f =
    rw (builtin-external os c io.srcfd io.dstfd w x, invoke)
      (start-external os c io closefd w pid f)

pub make_pipe-granted :
    (os : Os) (w : World) (r wr : ℕ)
    → os.pipe_fds w.table w.log ≡ some (r, wr)
    → make_pipe os w ≡ (
      some r,
      some wr,
      record w { table = with_pipe w.pipes r wr w.table; pipes = w.pipes + 1; log = piped ∷ w.log },
    )
unfolding make_pipe emit
make_pipe-granted os w r wr h = rw (h, make_pipe)

module _ (f₀ f₁ f₂ : File) (os : Os) (h : Healthy os) (c : Simple) (x : IsExternal c)
    (token : Token) (inner : ℕ) (append : Bool) (s : Sink) (free : IsFree s) (w : World) where
  abbrev held : World
  held = record w { table = sink_table s (standard f₀ f₁ f₂) }

  -- The first command of a pipeline, or the only one.
  pub finish-first :
      (pid : ℕ) × (0 < pid)
      × (finish os false token t_nl inner
            (c.path ∷ c.args)
            (named (some stdin_fileno) (sink_fd s) append)
            held
          ≡ returned t_nl (if is_bar token then inner else pid) none (record w {
            table = standard f₀ f₁ f₂;
            log = forked pid (started c w.env (standard f₀ (sink_file s f₁) f₂)) ∷ w.log;
          }))
  unfolding finish
  finish-first =
      let (pid, f, pos) = h.fork_works w.log in
      (
        pid,
        pos,
        rw (
          invoke-external os c (named (some stdin_fileno) (sink_fd s) append) none held pid x f,
          child-first f₀ f₁ f₂ (os.open_fd w.log) c w.env append s free,
          table-first f₀ f₁ f₂ s free,
        ),
      )

  -- A command behind a bar.
  pub finish-piped :
      (pid wr : ℕ) × (0 < pid)
      × (2 < wr)
      × (finish os true token t_nl inner
            (c.path ∷ c.args)
            (named (some stdin_fileno) (sink_fd s) append)
            held
          ≡ returned t_nl (if is_bar token then inner else pid) (some wr) (record w {
            table = sink_table (into wr w.pipes) (standard f₀ f₁ f₂);
            pipes = w.pipes + 1;
            log =
                forked pid (started c w.env (standard (pipe_read w.pipes) (sink_file s f₁) f₂))
                ∷ piped
                ∷ w.log;
          }))
  unfolding finish
  finish-piped =
      let t = sink_table s (standard f₀ f₁ f₂) in
      let (r, wr, made, hr, hw, ne) = h.pipe_works t (extra s) w.log (sink-OneMore f₀ f₁ f₂ s) in
      let (pid, f, pos) = h.fork_works (piped ∷ w.log) in
      let behind : World = record w {
        table = with_pipe w.pipes r wr t;
        pipes = w.pipes + 1;
        log = piped ∷ w.log;
      } in
      (
        pid,
        wr,
        pos,
        free-piped f₀ f₁ f₂ w.pipes r wr ne s hw,
        rw (
          make_pipe-granted os held r wr made,
          invoke-external os c (named (some r) (sink_fd s) append) (some wr) behind pid x f,
          child-piped f₀ f₁ f₂ w.pipes r wr ne (os.open_fd (piped ∷ w.log)) c w.env append s free hr
              hw,
          table-piped f₀ f₁ f₂ w.pipes r wr ne s free hr hw,
        ),
      )

  -- The same of any state with these descriptors.
  pub finish-first_at :
      w.table ≡ sink_table s (standard f₀ f₁ f₂)
      → (pid : ℕ) × (0 < pid)
        × (finish os false token t_nl inner
              (c.path ∷ c.args)
              (named (some stdin_fileno) (sink_fd s) append)
              w
            ≡ returned t_nl (if is_bar token then inner else pid) none (record w {
              table = standard f₀ f₁ f₂;
              log = forked pid (started c w.env (standard f₀ (sink_file s f₁) f₂)) ∷ w.log;
            }))
  finish-first_at e =
      let (pid, pos, done) = finish-first in
      (
        pid,
        pos,
        subst
            (λ v.
              finish os false token t_nl inner (c.path ∷ c.args)
                (named (some stdin_fileno) (sink_fd s) append) v
              ≡ returned t_nl (if is_bar token then inner else pid) none (record w {
                table = standard f₀ f₁ f₂;
                log = forked pid (started c w.env (standard f₀ (sink_file s f₁) f₂)) ∷ w.log;
              }))
            (λ i. record w { table = sym e i }) done,
      )

  pub finish-piped_at :
      w.table ≡ sink_table s (standard f₀ f₁ f₂)
      → (pid wr : ℕ) × (0 < pid)
        × (2 < wr)
        × (finish os true token t_nl inner
              (c.path ∷ c.args)
              (named (some stdin_fileno) (sink_fd s) append)
              w
            ≡ returned t_nl (if is_bar token then inner else pid) (some wr) (record w {
              table = sink_table (into wr w.pipes) (standard f₀ f₁ f₂);
              pipes = w.pipes + 1;
              log =
                  forked pid (started c w.env (standard (pipe_read w.pipes) (sink_file s f₁) f₂))
                  ∷ piped
                  ∷ w.log;
            }))
  finish-piped_at e =
      let (pid, wr, pos, above, done) = finish-piped in
      (
        pid,
        wr,
        pos,
        above,
        subst
            (λ v.
              finish os true token t_nl inner (c.path ∷ c.args)
                (named (some stdin_fileno) (sink_fd s) append) v
              ≡ returned t_nl (if is_bar token then inner else pid) (some wr) (record w {
                table = sink_table (into wr w.pipes) (standard f₀ f₁ f₂);
                pipes = w.pipes + 1;
                log =
                    forked pid (started c w.env (standard (pipe_read w.pipes) (sink_file s f₁) f₂))
                    ∷ piped
                    ∷ w.log;
              }))
            (λ i. record w { table = sym e i }) done,
      )
