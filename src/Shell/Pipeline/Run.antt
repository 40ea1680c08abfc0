-- ===== src/Shell/Pipeline/Run.antt =====
-- `command` on the text of a pipeline.
use unix_study.Shell.Command.Words.{
  bar, gather-line, length-line, token_of, newline, Gathered, byte_of, line, Terminator,
}
use unix_study.Prelude.{
  All, ap, zero, ◌∙◌, suc, [], arith, subst, ℕ, ◌+◌, ◌<◌, ◌≡◌, Bool, true, false, none, some, refl,
  List, ◌∷◌, ◌++◌, Bytes, if◌then◌else◌, length,
}
use unix_study.Shell.Lexer.{t_bar, Token, t_nl}
use unix_study.Shell.Table.{stdout_fileno, Fd, stdin_fileno, File, pipe_read}
use unix_study.Shell.World.{dirs_in, Os, World, children_in}
use unix_study.Shell.Command.{
  Locals, resume, gather, conclude, initial, command, Outcome, returned, is_bar, finish,
}
use unix_study.Shell.Pipeline.{
  pipeline_text, standard, Simple, IsExternal, Healthy, started, children,
}
use unix_study.Shell.Pipeline.Stage.{
  shell, Sink, into, sink_fd, sink_table, sink_file, IsFree, named,
}
use unix_study.Shell.Pipeline.Finish.{finish-first_at, finish-piped_at}

module _ (f₀ f₁ f₂ : File) where
  -- What the shell is left with: the standard descriptors and, if the command before is to write
  -- into this one, the end of the `p`-th pipe for it, which is what `*pipefdp` says.
  abbrev pub Left : Bool → ℕ → Fd → World → Type 0
  Left false p fd w = (fd ≡ none) × (w.table ≡ standard f₀ f₁ f₂) × (w.pipes ≡ p)
  Left true p fd w =
      (wr : ℕ) × (fd ≡ some wr)
      × (2 < wr)
      × (w.table ≡ sink_table (into wr p) (standard f₀ f₁ f₂))
      × (w.pipes ≡ p + 1)

  -- `command` returns T_NL with a process to wait for; the text is read; the children are those of
  -- the pipeline; and the descriptors are as `Left` says.
  pub record Ran (reads : Bool) (c : Simple) (cs : List Simple) (w : World) (rest : Bytes)
      (out : Outcome) : Type 0 where
    pub pid : ℕ
    pub fd : Fd
    pub world : World
    pub out_is : out ≡ returned t_nl pid fd world
    pub pid_pos : 0 < pid
    pub input_is : world.input.bytes ≡ rest
    pub failed_is : world.input.failed ≡ w.input.failed
    pub children_are :
        children_in world.log ≡ children f₀ f₁ f₂ w.env reads w.pipes (c ∷ cs) ++ children_in w.log
    pub env_is : world.env ≡ w.env
    pub dirs_is : dirs_in world.log ≡ dirs_in w.log
    pub left : Left reads (w.pipes + length cs) fd world

  module _ (os : Os) (h : Healthy os) where
    record Finished (reads : Bool) (c : Simple) (s : Sink) (token : Token) (inner : ℕ) (w : World)
        (out : Outcome) : Type 0 where
      pid : ℕ
      fd : Fd
      world : World
      out_is : out ≡ returned t_nl (if is_bar token then inner else pid) fd world
      pid_pos : 0 < pid
      input_is : world.input ≡ w.input
      env_is : world.env ≡ w.env
      dirs_is : dirs_in world.log ≡ dirs_in w.log
      children_are :
          children_in world.log
          ≡ started c w.env (standard (if reads then pipe_read w.pipes else f₀) (sink_file s f₁) f₂)
            ∷ children_in w.log
      left : Left reads w.pipes fd world

    finish-Finished :
        (reads : Bool) (c : Simple) (s : Sink) (token : Token) (inner : ℕ) (append : Bool)
        (w : World)
        → IsExternal c
        → IsFree s
        → w.table ≡ sink_table s (standard f₀ f₁ f₂)
        → Finished reads c s token inner w (
            finish os reads token t_nl inner
              (c.path ∷ c.args)
              (named (some stdin_fileno) (sink_fd s) append)
              w)
    unfolding children_in dirs_in
    finish-Finished false c s token inner append w x free e =
        let (p, pos, done) = finish-first_at f₀ f₁ f₂ os h c x token inner append s free w e in
        record {
          pid = p;
          fd = none;
          world = _;
          out_is = done;
          pid_pos = pos;
          input_is = refl;
          env_is = refl;
          dirs_is = refl;
          children_are = refl;
          left = (refl, refl, refl);
        }
    finish-Finished true c s token inner append w x free e =
        let (p, wr, pos, above, done) =
          finish-piped_at f₀ f₁ f₂ os h c x token inner append s free w e in
        record {
          pid = p;
          fd = some wr;
          world = _;
          out_is = done;
          pid_pos = pos;
          input_is = refl;
          env_is = refl;
          dirs_is = refl;
          children_are = refl;
          left = (wr, refl, above, refl, refl);
        }

    Left-cast :
        (reads : Bool) (p q : ℕ) (fd : Fd) (w : World)
        → p ≡ q
        → Left reads p fd w
        → Left reads q fd w
    Left-cast reads p q fd w e = subst (λ n. Left reads n fd w) e

    -- The last command of a pipeline, or the only one.
    Ran-last :
        (reads : Bool) (c : Simple) (w : World) (rest : Bytes) (v : World) (out : Outcome)
        → v.pipes ≡ w.pipes
        → v.input.bytes ≡ rest
        → v.input.failed ≡ w.input.failed
        → v.env ≡ w.env
        → dirs_in v.log ≡ dirs_in w.log
        → children_in v.log ≡ children_in w.log
        → Finished reads c shell t_nl 0 v out
        → Ran reads c [] w rest out
    Ran-last reads c w rest v out pipes input fail env dirs kids d = record {
      pid = d.pid;
      fd = d.fd;
      world = d.world;
      out_is = d.out_is;
      pid_pos = d.pid_pos;
      input_is = rw d.input_is input;
      failed_is = rw d.input_is fail;
      env_is = d.env_is ∙ env;
      dirs_is = d.dirs_is ∙ dirs;
      children_are = rw (d.children_are, kids, pipes, env);
      left = Left-cast reads v.pipes (w.pipes + 0) d.fd d.world (omega arith) d.left;
    }

    -- A command with others behind its bar, which have left the `q`-th pipe to it.
    Ran-cons :
        (reads : Bool) (c d : Simple) (cs : List Simple) (w : World) (rest : Bytes) (wr inner : ℕ)
        (v : World) (out : Outcome)
        → v.pipes ≡ w.pipes + length cs + 1
        → v.input.bytes ≡ rest
        → v.input.failed ≡ w.input.failed
        → v.env ≡ w.env
        → dirs_in v.log ≡ dirs_in w.log
        → 0 < inner
        → children_in v.log ≡ children f₀ f₁ f₂ w.env true w.pipes (d ∷ cs) ++ children_in w.log
        → Finished reads c (into wr (w.pipes + length cs)) t_bar inner v out
        → Ran reads c (d ∷ cs) w rest out
    Ran-cons reads c d cs w rest wr inner v out pipes input fail env dirs pos kids f = record {
      pid = inner;
      fd = f.fd;
      world = f.world;
      out_is = f.out_is;
      pid_pos = pos;
      input_is = rw f.input_is input;
      failed_is = rw f.input_is fail;
      env_is = f.env_is ∙ env;
      dirs_is = f.dirs_is ∙ dirs;
      children_are = rw (f.children_are, kids, pipes, env);
      left = Left-cast reads v.pipes (w.pipes + length (d ∷ cs)) f.fd f.world (omega arith) f.left;
    }

    gathered :
        (reads : Bool) (e : Terminator) (c : Simple) (fuel : ℕ) (w : World) (rest : Bytes)
        → IsExternal c
        → w.input.bytes ≡ line (c.path ∷ c.args) (byte_of e ∷ rest)
        → length w.input.bytes < fuel
        → Gathered
            (initial os)
            w
            (token_of e)
            (c.path ∷ c.args)
            rest
            (gather os reads fuel (initial os) w)
    unfolding initial
    gathered reads e c fuel w rest x bytes lt =
        let few = x.few in
        let long = length-line (c.path ∷ c.args) (byte_of e ∷ rest) in
        gather-line os h.malloc_works reads e (c.path ∷ c.args) fuel (initial os) w rest h.word_size
          (omega arith) x.fit refl bytes (omega (arith, ap length bytes))

    run-last :
        (reads : Bool) (c : Simple) (fuel : ℕ) (w : World) (rest : Bytes)
        → IsExternal c
        → w.table ≡ standard f₀ f₁ f₂
        → w.input.bytes ≡ pipeline_text (c ∷ []) rest
        → length w.input.bytes + 1 < fuel
        → Ran reads c [] w rest (command os reads fuel w)
    unfolding command conclude initial
    run-last reads c zero w rest x t bytes lt = elim lt [ ]
    run-last reads c (suc fuel) w rest x t bytes lt =
        let g = gathered reads newline c fuel w rest x bytes (omega arith) in
        rw (g.result_is, g.argv_is, g.io_is)
          (Ran-last reads c w rest g.world _ g.only_read.pipes g.input_is g.only_read.failed
            g.only_read.env g.only_read.dirs g.only_read.children
            (finish-Finished reads c shell t_nl 0 os.some_bool g.world x tt
              (g.only_read.table ∙ t)))

    -- The statements behind the inner call, from what that call has come to.
    resume-Ran :
        (reads : Bool) (c d : Simple) (cs : List Simple) (l : Locals) (w v : World) (rest : Bytes)
        (out : Outcome)
        → IsExternal c
        → l.argv ≡ c.path ∷ c.args
        → l.io ≡ named (some stdin_fileno) (some stdout_fileno) os.some_bool
        → v.pipes ≡ w.pipes
        → v.input.failed ≡ w.input.failed
        → v.env ≡ w.env
        → dirs_in v.log ≡ dirs_in w.log
        → children_in v.log ≡ children_in w.log
        → Ran true d cs v rest out
        → Ran reads c (d ∷ cs) w rest (resume os reads l out)
    unfolding resume
    resume-Ran reads c d cs l w v rest out x argv io pipes fail env dirs kids r =
        let (wr, fd, above, t, p) = r.left in
        rw (r.out_is, argv, io, fd)
          (Ran-cons reads c d cs w rest wr r.pid r.world _ (p ∙ ap (λ n. n + length cs + 1) pipes)
            r.input_is (r.failed_is ∙ fail) (r.env_is ∙ env) (r.dirs_is ∙ dirs) r.pid_pos
            (r.children_are
              ∙ ap (λ n. children f₀ f₁ f₂ v.env true n (d ∷ cs) ++ children_in v.log) pipes
              ∙ ap (λ e. children f₀ f₁ f₂ e true w.pipes (d ∷ cs) ++ children_in v.log) env
              ∙ ap (λ k. children f₀ f₁ f₂ w.env true w.pipes (d ∷ cs) ++ k) kids)
            (finish-Finished reads c (into wr (w.pipes + length cs)) t_bar r.pid os.some_bool
              r.world x above
              (t ∙ ap (λ n. sink_table (into wr (n + length cs)) (standard f₀ f₁ f₂)) pipes)))

    run-pipeline :
        (cs : List Simple) (reads : Bool) (c : Simple) (fuel : ℕ) (w : World) (rest : Bytes)
        → All IsExternal (c ∷ cs)
        → w.table ≡ standard f₀ f₁ f₂
        → w.input.bytes ≡ pipeline_text (c ∷ cs) rest
        → length w.input.bytes + 1 < fuel
        → Ran reads c cs w rest (command os reads fuel w)
    unfolding command conclude initial
    run-pipeline [] reads c fuel w rest xs t bytes lt = run-last reads c fuel w rest xs.0 t bytes lt
    run-pipeline (d ∷ cs) reads c zero w rest xs t bytes lt = elim lt [ ]
    run-pipeline (d ∷ cs) reads c (suc fuel) w rest (x, xs) t bytes lt =
        let later = pipeline_text (d ∷ cs) rest in
        let g = gathered reads bar c fuel w later x bytes (omega arith) in
        let long = length-line (c.path ∷ c.args) (b'|' ∷ later) in
        rw g.result_is (
          resume-Ran reads c d cs g.locals w g.world rest (command os true fuel g.world) x g.argv_is
            g.io_is g.only_read.pipes g.only_read.failed g.only_read.env g.only_read.dirs
            g.only_read.children
            (run-pipeline cs true d fuel g.world rest xs (g.only_read.table ∙ t) g.input_is
              (omega (arith, ap length bytes, ap length g.input_is))))

-- In a system that grants what it is asked for, for a shell that has the standard descriptors
-- alone, and with two more rounds of fuel than there are bytes to read, a line of external
-- commands with bars between them, each word between quotes and within the limits, is run as a
-- pipeline, whatever its length: the children are exactly the commands, with their arguments and the
-- shell's environment, in the foreground; each but the first reads from the pipe that the one before it writes to; the
-- ends are those of the shell; no child has another descriptor; the shell has a process to wait
-- for, has read the line and no more, and is left with its three standard descriptors alone, so
-- that none has leaked.
pub command-pipeline :
    (f₀ f₁ f₂ : File) (os : Os)
    → Healthy os
    → (c : Simple) (cs : List Simple) (fuel : ℕ) (w : World) (rest : Bytes)
    → All IsExternal (c ∷ cs)
    → w.table ≡ standard f₀ f₁ f₂
    → w.input.bytes ≡ pipeline_text (c ∷ cs) rest
    → length w.input.bytes + 1 < fuel
    → Ran f₀ f₁ f₂ false c cs w rest (command os false fuel w)
command-pipeline f₀ f₁ f₂ os h c cs fuel w rest = run-pipeline f₀ f₁ f₂ os h cs false c fuel w rest
