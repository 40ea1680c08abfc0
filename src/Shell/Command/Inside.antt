-- ===== src/Shell/Command/Inside.antt =====
-- `command` on a line with a built-in command.
use unix_study.Prelude.{
  codes, equal, zero, suc, [], ◌∷◌, none, some, true, false, refl, arith, ap, ◌≡◌, ◌<◌, ◌+◌, Bool,
  List, ℕ, Bytes, length, All,
}
use unix_study.Shell.Lexer.{t_nl}
use unix_study.Shell.Table.{stdin_fileno, stdout_fileno}
use unix_study.Shell.World.{dirs_in, say, emit, Os, World}
use unix_study.Shell.Builtin.{cd, contains, asg, builtin}
use unix_study.Shell.Invoke.{invoke}
use unix_study.Shell.Command.{Outcome, returned, command, conclude, initial, finish}
use unix_study.Shell.Command.Words.{OnlyRead, Fits, line, newline, gather-line, length-line}
use unix_study.Shell.Pipeline.{Healthy}
use unix_study.Shell.Pipeline.Stage.{named}

pub builtin-asg :
    (os : Os) (arg : Bytes) (w v : World)
    → contains b'=' arg ≡ true
    → asg arg [] w ≡ v
    → builtin os arg [] (some stdin_fileno) (some stdout_fileno) w ≡ some v
unfolding builtin
builtin-asg os arg w v h e = rw (h, e) refl

pub builtin-cd :
    (os : Os) (path : Bytes) (w : World)
    → builtin os (codes "cd") (path ∷ []) (some stdin_fileno) (some stdout_fileno) w
      ≡ some (cd os (path ∷ []) w)
unfolding builtin contains equal
builtin-cd os path w = refl

-- Behind the loop.
finish-inside :
    (os : Os) (arg : Bytes) (args : List Bytes) (append : Bool) (w v : World)
    → builtin os arg args (some stdin_fileno) (some stdout_fileno) w ≡ some v
    → finish os false t_nl t_nl 0
        (arg ∷ args)
        (named (some stdin_fileno) (some stdout_fileno) append)
        w
      ≡ returned t_nl 0 none v
unfolding finish invoke
finish-inside os arg args append w v b = rw (b, invoke) refl

-- `command` has run a built-in command, whose effect is `effect`, behind a state in which only the line
-- was read.
pub record Inside (effect : World → World) (w : World) (rest : Bytes) (out : Outcome) : Type 0 where
  pub world : World
  pub out_is : out ≡ returned t_nl 0 none (effect world)
  pub input_is : world.input.bytes ≡ rest
  pub only_read : OnlyRead w world

pub command-Inside :
    (os : Os)
    → Healthy os
    → (arg : Bytes) (args : List Bytes) (effect : World → World) (fuel : ℕ) (w : World)
      (rest : Bytes)
    → ((u : World)
        → builtin os arg args (some stdin_fileno) (some stdout_fileno) u ≡ some (effect u))
    → length args < 49
    → All Fits (arg ∷ args)
    → w.input.bytes ≡ line (arg ∷ args) (b'\n' ∷ rest)
    → length w.input.bytes + 1 < fuel
    → Inside effect w rest (command os false fuel w)
unfolding command conclude initial
command-Inside os h arg args effect zero w rest b few fit bytes lt = elim lt [ ]
command-Inside os h arg args effect (suc fuel) w rest b few fit bytes lt =
    let g =
      gather-line os h.malloc_works false newline (arg ∷ args) fuel (initial os) w rest h.word_size
        (omega arith) fit refl bytes
        (omega (arith, length-line (arg ∷ args) (b'\n' ∷ rest), ap length bytes)) in
    rw (g.result_is, g.argv_is, g.io_is)
      (record {
        world = g.world;
        out_is = finish-inside os arg args os.some_bool g.world (effect g.world) (b g.world);
        input_is = g.input_is;
        only_read = g.only_read;
      })

pub cd-env : (os : Os) (path : Bytes) (w : World) → (cd os (path ∷ []) w).env ≡ w.env
unfolding cd say emit
cd-env os path w = ground arith

pub cd-dirs :
    (os : Os) (path : Bytes) (w : World) → dirs_in (cd os (path ∷ []) w).log ≡ path ∷ dirs_in w.log
unfolding cd say emit dirs_in
cd-dirs os path w = ground arith
