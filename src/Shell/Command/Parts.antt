-- ===== src/Shell/Command/Parts.antt =====
-- The loop of `command` over words and names of files.
use unix_study.Prelude.{
  zero, suc, [], ◌∷◌, ◌++◌, true, false, refl, arith, sym, ap, ◌∙◌, subst, ◌≡◌, ◌<◌, ◌≤◌, ◌+◌, List,
  ℕ, Bytes, length, All, append-nil, append_assoc, length-append,
}
use unix_study.Shell.Lexer.Progress.{gettoken-word}
use unix_study.Shell.Lexer.Holding.{escape}
use unix_study.Shell.World.{dirs_in, World, Os, Event, children_in, emit}
use unix_study.Shell.Invoke.{Io}
use unix_study.Shell.Command.{Locals, again, gather, round, max_word, continue_with}
use unix_study.Shell.Command.Words.{Fits, line, OnlyRead, round_word}

-- The loop has come as far as `rest`: it has these words more, and the variables `io`.
pub record Reached (os : Os) (fuel : ℕ) (l : Locals) (w : World) (vs : List Bytes) (rest : Bytes)
    (io : Io) : Type 0 where
  pub left : ℕ
  pub locals : Locals
  pub world : World
  pub goes_on : gather os false fuel l w ≡ gather os false left locals world
  pub enough : length rest < left
  pub argv_is : locals.argv ≡ l.argv ++ vs
  pub io_is : locals.io ≡ io
  pub size : length locals.word ≡ max_word
  pub input_is : world.input.bytes ≡ rest
  pub only_read : OnlyRead w world

OnlyRead-trans : {u v w : World} → OnlyRead u v → OnlyRead v w → OnlyRead u w
OnlyRead-trans p q = record {
  table = q.table ∙ p.table;
  pipes = q.pipes ∙ p.pipes;
  env = q.env ∙ p.env;
  failed = q.failed ∙ p.failed;
  children = q.children ∙ p.children;
  dirs = q.dirs ∙ p.dirs;
}

pub Reached-refl :
    (os : Os) (fuel : ℕ) (l : Locals) (w : World) (rest : Bytes)
    → length l.word ≡ max_word
    → w.input.bytes ≡ rest
    → length w.input.bytes < fuel
    → Reached os fuel l w [] rest l.io
Reached-refl os fuel l w rest size bytes lt = record {
  left = fuel;
  locals = l;
  world = w;
  goes_on = refl;
  enough = omega (arith, ap length bytes);
  argv_is = sym (append-nil l.argv);
  io_is = refl;
  size = size;
  input_is = bytes;
  only_read = record {
    table = refl;
    pipes = refl;
    env = refl;
    failed = refl;
    children = refl;
    dirs = refl;
  };
}

-- One round that goes on.
pub Reached-round :
    (os : Os) (fuel : ℕ) (l m : Locals) (w v : World) (vs : List Bytes) (rest : Bytes)
    → round os false l w ≡ again m v
    → m.argv ≡ l.argv ++ vs
    → length m.word ≡ max_word
    → v.input.bytes ≡ rest
    → OnlyRead w v
    → length rest + 1 < fuel
    → Reached os fuel l w vs rest m.io
unfolding gather
Reached-round os zero l m w v vs rest r a s i o lt = elim lt [ ]
Reached-round os (suc fuel) l m w v vs rest r a s i o lt = record {
  left = fuel;
  locals = m;
  world = v;
  goes_on = ap (continue_with (gather os false fuel)) r;
  enough = omega arith;
  argv_is = a;
  io_is = refl;
  size = s;
  input_is = i;
  only_read = o;
}

-- One part of the line after the other.
pub Reached-trans :
    {os : Os} {fuel : ℕ} {l : Locals} {w : World} {vs us : List Bytes} {r₁ r₂ : Bytes}
    {io₁ io₂ : Io} (p : Reached os fuel l w vs r₁ io₁)
    → Reached os p.left p.locals p.world us r₂ io₂
    → Reached os fuel l w (vs ++ us) r₂ io₂
Reached-trans {l} {vs} {us} p q = record {
  left = q.left;
  locals = q.locals;
  world = q.world;
  goes_on = p.goes_on ∙ q.goes_on;
  enough = q.enough;
  argv_is = q.argv_is ∙ ap (λ a. a ++ us) p.argv_is ∙ append_assoc l.argv vs us;
  io_is = q.io_is;
  size = q.size;
  input_is = q.input_is;
  only_read = OnlyRead-trans p.only_read q.only_read;
}

abbrev pub read_to : Bytes → World → World
read_to rest w = record w { input = record { bytes = rest; failed = w.input.failed } }

module _ (os : Os) (works : (log : List Event) → os.malloc_works log ≡ true) where
  pub words-Reached :
      (vs : List Bytes) (fuel : ℕ) (l : Locals) (w : World) (rest : Bytes)
      → length l.word ≡ max_word
      → length l.argv + length vs ≤ 49
      → All Fits vs
      → w.input.bytes ≡ line vs rest
      → length w.input.bytes < fuel
      → Reached os fuel l w vs rest l.io
  words-Reached [] fuel l w rest size few fits bytes lt =
      Reached-refl os fuel l w rest size bytes lt
  words-Reached (v ∷ vs) fuel l w rest size few fits bytes lt =
      let step = round_word os false l w v (line vs rest) works size (omega arith) fits.0 bytes in
      let first =
        Reached-round os fuel l _ w _ (v ∷ []) (line vs rest) step refl
          (gettoken-word max_word l.word w.input ∙ size) (unfold emit in refl)
          (unfold emit children_in dirs_in in
            record {
              table = refl;
              pipes = refl;
              env = refl;
              failed = refl;
              children = refl;
              dirs = refl;
            })
          (omega (arith, ap length bytes, length-append (escape v) (b'"' ∷ line vs rest))) in
      let more =
        words-Reached vs first.left first.locals first.world rest first.size
          (omega (arith, few, ap length first.argv_is, length-append l.argv (v ∷ []))) fits.1
          first.input_is (omega (arith, first.enough, ap length first.input_is)) in
      Reached-trans first
        (subst (Reached os first.left first.locals first.world vs rest) first.io_is more)
