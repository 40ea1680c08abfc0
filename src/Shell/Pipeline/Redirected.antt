-- ===== src/Shell/Pipeline/Redirected.antt =====
-- `command` on a single command with files for its input and output, or in the background.
use unix_study.Prelude.{
  List, zero, suc, ◌∷◌, none, some, true, false, refl, sym, ap, ◌∙◌, subst, ◌≡◌, ◌<◌, not, Bool,
  Option, ℕ, Bytes, length,
}
use unix_study.Shell.Command.{
  run_invoke, Locals, ended, gather, round, dispatch, after_token, finish, Outcome, returned,
}
use unix_study.Shell.Lexer.{Stdin, Token, t_nl, t_amp, gettoken, scan, action}
use unix_study.Shell.Table.{Table, Fd, File}
use unix_study.Shell.World.{
  dirs_in, Binding, Os, World, Child, execs, forked, children_in, emit, say, say_all,
}
use unix_study.Shell.Invoke.{Io, child, invoke, start, in_parent, close_above, cmdname}
use unix_study.Shell.Invoke.Redirection.{
  Request, Carries, IsSource, IsDestination, Opens, source_file, destination_file, child-redirected,
}
use unix_study.Shell.Command.Words.{line}
use unix_study.Shell.Command.Parts.{read_to}
use unix_study.Shell.Command.Files.{source_text, destination_text, IsNamed, IsNamedDestination}
use unix_study.Shell.Pipeline.{standard, Simple, IsExternal, Healthy}
use unix_study.Shell.Pipeline.Finish.{builtin-external}

abbrev pub end_byte : Bool → ℕ
end_byte false = b'\n'
end_byte true = b'&'

abbrev pub end_token : Bool → Token
end_token false = t_nl
end_token true = t_amp

-- The line: the words between quotes, the files, and `&` or a newline.
abbrev pub command_text : Simple → Request → Bytes → Bytes
command_text c q rest =
    line (c.path ∷ c.args)
      (source_text q.source (destination_text q.destination (end_byte q.background ∷ rest)))

-- The names fit the arrays.
abbrev pub NamesFit : Request → Type 0
NamesFit q = IsNamed q.source × IsNamedDestination q.destination

-- The child of a command.
abbrev pub redirected : File → File → File → List Binding → Simple → Request → Child
redirected f₀ f₁ f₂ env c q = execs (record {
  path = c.path;
  args = cmdname c.path ∷ c.args;
  env = env;
  table = standard (source_file q.source q.background f₀) (destination_file q.destination f₁) f₂;
  default_signals = not q.background;
})

pub gather-end :
    (os : Os) (fuel : ℕ) (l : Locals) (w : World) (background : Bool) (rest : Bytes)
    → w.input.bytes ≡ end_byte background ∷ rest
    → length rest < fuel
    → gather os false fuel l w ≡ some (ended (end_token background) l (read_to rest w))
unfolding gather round gettoken scan action dispatch after_token say_all
gather-end os zero l w background rest bytes lt = elim lt [ ]
gather-end os (suc fuel) l w false rest bytes lt = rw bytes refl
gather-end os (suc fuel) l w true rest bytes lt = rw bytes refl

close_above-source :
    (o : Option Bytes) (fd : Fd) (file : Bytes) (t : Table)
    → IsSource o fd file
    → close_above fd t ≡ t
close_above-source none fd file t h = rw h.0 refl
close_above-source (some name) fd file t h = rw h.0 refl

close_above-destination :
    (o : Option (Bytes × Bool)) (io : Io) (t : Table)
    → IsDestination o io
    → close_above io.dstfd t ≡ t
close_above-destination none io t h = rw h.0 refl
close_above-destination (some name) io t h = rw h.0 refl

-- The command runs as it was asked for, and the shell is left as it was.
pub record Redirected (f₀ f₁ f₂ : File) (c : Simple) (q : Request) (w : World) (rest : Bytes)
    (out : Outcome) : Type 0 where
  pub pid : ℕ
  pub world : World
  pub out_is : out ≡ returned (end_token q.background) pid none world
  pub pid_pos : 0 < pid
  pub children_are : children_in world.log ≡ redirected f₀ f₁ f₂ w.env c q ∷ children_in w.log
  pub table_is : world.table ≡ standard f₀ f₁ f₂
  pub pipes_is : world.pipes ≡ w.pipes
  pub env_is : world.env ≡ w.env
  pub dirs_is : dirs_in world.log ≡ dirs_in w.log
  pub input_is : world.input.bytes ≡ rest
  pub failed_is : world.input.failed ≡ w.input.failed

abbrev invoked : Os → Simple → Io → Bool → World → World × ℕ
invoked os c io background w = invoke os (c.path ∷ c.args) io background none w

run_invoke-end :
    (os : Os) (c : Simple) (io : Io) (background : Bool) (w : World)
    → run_invoke os (end_token background) (end_token background) 0 (c.path ∷ c.args) io none w
      ≡ returned
          (end_token background)
          (invoked os c io background w).1
          none
          (invoked os c io background w).0
run_invoke-end os c io false w = refl
run_invoke-end os c io true w = refl

invoke-started :
    (os : Os) (c : Simple) (io : Io) (background : Bool) (w : World) (pid : ℕ)
    → IsExternal c
    → os.fork_pid w.log ≡ some pid
    → invoked os c io background w
      ≡ in_parent io background pid (
          emit
            (forked pid (child (os.open_fd w.log) c.path c.args w.env io background none w.table))
            w)
unfolding invoke
invoke-started os c io background w pid x f =
    rw (builtin-external os c io.srcfd io.dstfd w x, invoke, start, f) refl

-- What the parent does to the state.
record Kept (io : Io) (pid : ℕ) (w : World) (out : World × ℕ) : Type 0 where
  pid_is : out.1 ≡ pid
  children : children_in out.0.log ≡ children_in w.log
  dirs : dirs_in out.0.log ≡ dirs_in w.log
  table : out.0.table ≡ close_above io.dstfd (close_above io.srcfd w.table)
  input : out.0.input ≡ w.input
  pipes : out.0.pipes ≡ w.pipes
  env : out.0.env ≡ w.env

in_parent-Kept :
    (io : Io) (background : Bool) (pid : ℕ) (w : World)
    → Kept io pid w (in_parent io background pid w)
unfolding say emit children_in dirs_in
in_parent-Kept io false pid w = record {
  pid_is = refl;
  children = refl;
  dirs = refl;
  table = refl;
  input = refl;
  pipes = refl;
  env = refl;
}
in_parent-Kept io true pid w = record {
  pid_is = refl;
  children = refl;
  dirs = refl;
  table = refl;
  input = refl;
  pipes = refl;
  env = refl;
}

module _ (f₀ f₁ f₂ : File) (os : Os) (h : Healthy os) (opens : Opens os) (c : Simple)
    (x : IsExternal c) (q : Request) where
  -- Behind the loop.
  pub finish-Redirected :
      (io : Io) (w : World)
      → Carries q io
      → w.table ≡ standard f₀ f₁ f₂
      → Redirected f₀ f₁ f₂ c q w w.input.bytes (
          finish os false
            (end_token q.background)
            (end_token q.background)
            0
            (c.path ∷ c.args)
            io
            w)
  unfolding finish emit children_in dirs_in
  finish-Redirected io w (src, dst) t =
      let (pid, f, pos) = h.fork_works w.log in
      let b = q.background in
      let v : World =
        emit (forked pid (child (os.open_fd w.log) c.path c.args w.env io b none w.table)) w in
      let kept : Kept io pid v (invoked os c io b w) =
        subst (Kept io pid v) (sym (invoke-started os c io b w pid x f))
          (in_parent-Kept io b pid v) in
      let runs =
        child-redirected (os.open_fd w.log) f₀ f₁ f₂ c w.env q io (opens w.log) (src, dst) in
      record {
        pid = pid;
        world = (invoked os c io b w).0;
        out_is =
            run_invoke-end os c io b w
            ∙ ap (λ p. returned (end_token b) p none (invoked os c io b w).0) kept.pid_is;
        pid_pos = pos;
        children_are =
            kept.children
            ∙ ap (λ u. child (os.open_fd w.log) c.path c.args w.env io b none u ∷ children_in w.log)
                t
            ∙ ap (λ k. k ∷ children_in w.log) runs;
        table_is =
            kept.table
            ∙ ap (close_above io.dstfd)
                (close_above-source q.source io.srcfd io.srcfile w.table src)
            ∙ close_above-destination q.destination io w.table dst
            ∙ t;
        pipes_is = kept.pipes;
        env_is = kept.env;
        dirs_is = kept.dirs;
        input_is = ap (λ (i : Stdin). i.bytes) kept.input;
        failed_is = ap (λ (i : Stdin). i.failed) kept.input;
      }
