-- ===== src/Shell/Command/Words.antt =====
-- The loop of `command` over quoted words.
use unix_study.Shell.Lexer.Progress.{gettoken-word}
use unix_study.Prelude.{
  append_assoc, zero, length-append, ◌∙◌, append-nil, sym, suc, ◌≤◌, ◌+◌, ℕ, ◌<◌, ◌≡◌, ◌≢◌, Bool,
  true, Option, some, refl, List, [], ◌∷◌, ◌++◌, Bytes, arith, length, All,
}
use unix_study.Shell.Lexer.{action, scan, Token, gettoken}
use unix_study.Shell.Lexer.Holding.{escape, ReadsWord}
use unix_study.Shell.Lexer.Words.{gettoken_quoted}
use unix_study.Shell.World.{dirs_in, children_in, Event, Os, World, say_all, emit}
use unix_study.Shell.Command.{
  t_bar, t_nl, stdout_fileno, gather, allocated, Lexed, max_word, Locals, Round, again, ended,
  after_token, add_word, dispatch, round,
}

-- A word that fits the array `word`, as it is written on the line.
abbrev pub Fits : Bytes → Type 0
Fits v = (length v < max_word) × All (λ c. c ≢ 0) v

abbrev pub quoted : Bytes → Bytes → Bytes
quoted v rest = b' ' ∷ b'"' ∷ (escape v ++ b'"' ∷ rest)

abbrev pub line : List Bytes → Bytes → Bytes
line [] rest = rest
line (v ∷ vs) rest = quoted v (line vs rest)

-- Only the input and the log differ, and no child was started.
pub record OnlyRead (w v : World) : Type 0 where
  pub table : v.table ≡ w.table
  pub pipes : v.pipes ≡ w.pipes
  pub env : v.env ≡ w.env
  pub failed : v.input.failed ≡ w.input.failed
  pub children : children_in v.log ≡ children_in w.log
  pub dirs : dirs_in v.log ≡ dirs_in w.log

-- The loop has come to its end with these words and this input left.
pub record Gathered (l : Locals) (w : World) (t : Token) (vs : List Bytes) (rest : Bytes)
    (r : Option Round) : Type 0 where
  pub locals : Locals
  pub world : World
  pub result_is : r ≡ some (ended t locals world)
  pub argv_is : locals.argv ≡ l.argv ++ vs
  pub io_is : locals.io ≡ l.io
  pub input_is : world.input.bytes ≡ rest
  pub only_read : OnlyRead w world

-- What a round does once the word has been read.
dispatch_word :
    (os : Os) (makepipe : Bool) (l : Locals) (w : World) (v rest : Bytes) (r : Lexed)
    → ((log : List Event) → os.malloc_works log ≡ true)
    → length l.argv < 49
    → ReadsWord v rest w.input.failed [] r
    → dispatch os makepipe r.token (record l { word = r.word }) (after_token r w)
      ≡ again
          (record l { argv = l.argv ++ v ∷ []; word = r.word })
          (emit allocated (record w { input = record { bytes = rest; failed = w.input.failed } }))
unfolding dispatch add_word after_token emit say_all
dispatch_word os makepipe l w v rest r works few read = ground (arith, works w.log)

-- A quoted word is one round of the loop, and one more argument.
pub round_word :
    (os : Os) (makepipe : Bool) (l : Locals) (w : World) (v rest : Bytes)
    → ((log : List Event) → os.malloc_works log ≡ true)
    → length l.word ≡ max_word
    → length l.argv < 49
    → Fits v
    → w.input.bytes ≡ quoted v rest
    → round os makepipe l w
      ≡ again
          (record l { argv = l.argv ++ v ∷ []; word = (gettoken max_word l.word w.input).word })
          (emit allocated (record w { input = record { bytes = rest; failed = w.input.failed } }))
unfolding round
round_word os makepipe l w v rest works size few fits bytes =
    let read : ReadsWord v rest w.input.failed [] (gettoken max_word l.word w.input) = rw bytes (
      gettoken_quoted max_word l.word w.input.failed (b' ' ∷ []) v rest size fits.0 (refl, tt)
        fits.1) in
    dispatch_word os makepipe l w v rest (gettoken max_word l.word w.input) works few read

-- The ends of a command that are followed here.
pub data Terminator : Type 0 where
  newline bar : Terminator

abbrev pub byte_of : Terminator → ℕ
byte_of newline = b'\n'
byte_of bar = b'|'

abbrev pub token_of : Terminator → Token
token_of newline = t_nl
token_of bar = t_bar

gettoken-byte_of :
    (e : Terminator) (maxword : ℕ) (word rest : Bytes) (failed : Bool)
    → gettoken maxword word (record { bytes = byte_of e ∷ rest; failed = failed }) ≡ record {
      token = token_of e;
      input = record { bytes = rest; failed = failed };
      word = word;
      notes = [];
    }
unfolding gettoken scan action
gettoken-byte_of newline maxword word rest failed = refl
gettoken-byte_of bar maxword word rest failed = refl

dispatch_end :
    (os : Os) (makepipe : Bool) (e : Terminator) (l : Locals) (w : World)
    → l.io.dstfd ≡ some stdout_fileno
    → dispatch os makepipe (token_of e) l w ≡ ended (token_of e) l w
unfolding dispatch
dispatch_end os makepipe newline l w h = refl
dispatch_end os makepipe bar l w h = ground arith

round_end :
    (os : Os) (makepipe : Bool) (e : Terminator) (l : Locals) (w : World) (rest : Bytes)
    → l.io.dstfd ≡ some stdout_fileno
    → w.input.bytes ≡ byte_of e ∷ rest
    → round os makepipe l w
      ≡ ended (token_of e) l (record w { input = record { bytes = rest; failed = w.input.failed } })
unfolding round after_token say_all
round_end os makepipe e l w rest h bytes =
    rw (bytes, gettoken-byte_of e max_word l.word rest w.input.failed)
      (dispatch_end os makepipe e l _ h)

-- One more word in front.
Gathered-cons :
    (l : Locals) (w : World) (v word input : Bytes) {t : Token} {vs : List Bytes} {rest : Bytes}
    {r : Option Round}
    → Gathered
        (record l { argv = l.argv ++ v ∷ []; word = word })
        (emit allocated (record w { input = record { bytes = input; failed = w.input.failed } }))
        t
        vs
        rest
        r
    → Gathered l w t (v ∷ vs) rest r
unfolding emit children_in dirs_in
Gathered-cons l w v word input {vs} g = record {
  locals = g.locals;
  world = g.world;
  result_is = g.result_is;
  argv_is = g.argv_is ∙ append_assoc l.argv (v ∷ []) vs;
  io_is = g.io_is;
  input_is = g.input_is;
  only_read = record {
    table = g.only_read.table;
    pipes = g.only_read.pipes;
    env = g.only_read.env;
    failed = g.only_read.failed;
    children = g.only_read.children;
    dirs = g.only_read.dirs;
  };
}

module _ (os : Os) (works : (log : List Event) → os.malloc_works log ≡ true) (makepipe : Bool)
    (e : Terminator) where
  -- Quoted words and the end of the command: the loop stops there, with the words as arguments,
  -- and nothing but the input and the log has changed.
  pub gather-line :
      (vs : List Bytes) (fuel : ℕ) (l : Locals) (w : World) (rest : Bytes)
      → length l.word ≡ max_word
      → length l.argv + length vs ≤ 49
      → All Fits vs
      → l.io.dstfd ≡ some stdout_fileno
      → w.input.bytes ≡ line vs (byte_of e ∷ rest)
      → length vs < fuel
      → Gathered l w (token_of e) vs rest (gather os makepipe fuel l w)
  unfolding gather
  gather-line vs zero l w rest size few fits out bytes lt = elim lt [ ]
  gather-line [] (suc fuel) l w rest size few fits out bytes lt =
      rw (round_end os makepipe e l w rest out bytes) (record {
        locals = l;
        world = record w { input = record { bytes = rest; failed = w.input.failed } };
        result_is = refl;
        argv_is = sym (append-nil l.argv);
        io_is = refl;
        input_is = refl;
        only_read = record {
          table = refl;
          pipes = refl;
          env = refl;
          failed = refl;
          children = refl;
          dirs = refl;
        };
      })
  gather-line (v ∷ vs) (suc fuel) l w rest size few fits out bytes lt =
      rw
        (round_word os makepipe l w v (line vs (byte_of e ∷ rest)) works size (omega arith) fits.0
          bytes)
        (Gathered-cons l w v (gettoken max_word l.word w.input).word (line vs (byte_of e ∷ rest)) (
          gather-line vs fuel
            (record l { argv = l.argv ++ v ∷ []; word = (gettoken max_word l.word w.input).word })
            (emit allocated (record w {
              input = record { bytes = line vs (byte_of e ∷ rest); failed = w.input.failed };
            }))
            rest (gettoken-word max_word l.word w.input ∙ size)
            (omega (arith, length-append l.argv (v ∷ []))) fits.1 out (unfold emit in refl)
            (omega arith)))

pub length-line : (vs : List Bytes) (rest : Bytes) → length vs + length rest ≤ length (line vs rest)
length-line [] rest = omega arith
length-line (v ∷ vs) rest =
    omega (arith, length-append (escape v) (b'"' ∷ line vs rest), length-line vs rest)
