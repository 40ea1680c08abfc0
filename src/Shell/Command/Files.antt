-- ===== src/Shell/Command/Files.antt =====
-- The rounds of `command` that read `<`, `>` or `>>` and the name behind it.
use unix_study.Prelude.{
  Option, [], ◌∷◌, none, some, true, false, refl, arith, sym, ap, ◌≡◌, ◌≢◌, ◌<◌, ◌≤◌, ◌+◌, Bool, ℕ,
  Bytes, length, All, c_string, append-nil, length-append,
}
use unix_study.Shell.Lexer.{gettoken, scan, action, Token, t_lt, t_gt, t_gtgt}
use unix_study.Shell.Lexer.Words.{gettoken_quoted}
use unix_study.Shell.Lexer.Holding.{escape, ReadsWord}
use unix_study.Shell.Table.{stdout_fileno}
use unix_study.Shell.World.{World, Os, say_all}
use unix_study.Shell.Invoke.{Io}
use unix_study.Shell.Invoke.Redirection.{IsName, IsSource, IsDestination}
use unix_study.Shell.Command.{
  Locals, again, round, dispatch, after_token, add_source, add_destination, max_word, max_fname,
}
use unix_study.Shell.Command.Words.{quoted}
use unix_study.Shell.Command.Parts.{Reached, Reached-refl, Reached-round, read_to}

-- The name of a file, as the arrays hold it.
abbrev pub IsFileName : Bytes → Type 0
IsFileName name = (length name < max_fname) × All (λ c. c ≢ 0) name

abbrev pub source_in : Io → Bytes → Io
source_in io array = record io { srcfd = none; srcfile = array }

abbrev pub destination_in : Io → Bytes → Bool → Io
destination_in io array appends = record io { dstfd = none; dstfile = array; append = appends }

abbrev pub sign : Bool → Bytes → Bytes
sign false rest = b' ' ∷ b'>' ∷ rest
sign true rest = b' ' ∷ b'>' ∷ b'>' ∷ rest

file_read :
    (array name rest : Bytes) (failed : Bool)
    → length array ≡ max_fname
    → IsFileName name
    → ReadsWord name rest failed []
        (gettoken max_fname array (record { bytes = quoted name rest; failed = failed }))
file_read array name rest failed size h =
    gettoken_quoted max_fname array failed (b' ' ∷ []) name rest size h.0 (refl, tt) h.1

abbrev sign_token : Bool → Token
sign_token false = t_gt
sign_token true = t_gtgt

gettoken-lt :
    (array rest : Bytes) (failed : Bool)
    → gettoken max_word array (record { bytes = b' ' ∷ b'<' ∷ rest; failed = failed }) ≡ record {
      token = t_lt;
      input = record { bytes = rest; failed = failed };
      word = array;
      notes = [];
    }
unfolding gettoken scan action
gettoken-lt array rest failed = refl

gettoken-sign :
    (appends : Bool) (array rest : Bytes) (failed : Bool)
    → gettoken max_word array (record { bytes = sign appends (b' ' ∷ rest); failed = failed })
      ≡ record {
        token = sign_token appends;
        input = record { bytes = b' ' ∷ rest; failed = failed };
        word = array;
        notes = [];
      }
unfolding gettoken scan action
gettoken-sign false array rest failed = refl
gettoken-sign true array rest failed = refl

module _ (os : Os) (l : Locals) (w : World) (name rest : Bytes) (h : IsFileName name) where
  round-source :
      length l.srcfile ≡ max_fname
      → w.input.bytes ≡ b' ' ∷ b'<' ∷ quoted name rest
      → (array : Bytes) × (c_string array ≡ some name)
        × (round os false l w ≡ again (record l { io = source_in l.io array }) (read_to rest w))
  unfolding round after_token say_all dispatch add_source
  round-source size bytes =
      let r = file_read l.srcfile name rest w.input.failed size h in
      (
        _,
        r.word_is,
        rw
            (
              bytes,
              gettoken-lt l.word (quoted name rest) w.input.failed,
              r.token_is,
              r.input_is,
              r.notes_is,
            )
            refl,
      )

  round-destination :
      (appends : Bool)
      → length l.dstfile ≡ max_fname
      → l.dstfd ≡ some stdout_fileno
      → w.input.bytes ≡ sign appends (quoted name rest)
      → (array : Bytes) × (c_string array ≡ some name)
        × (round os false l w
            ≡ again (record l { io = destination_in l.io array appends }) (read_to rest w))
  unfolding round after_token say_all dispatch add_destination
  round-destination false size out bytes =
      let r = file_read l.dstfile name rest w.input.failed size h in
      (
        _,
        r.word_is,
        rw
            (
              bytes,
              gettoken-sign false l.word _ w.input.failed,
              out,
              r.token_is,
              r.input_is,
              r.notes_is,
            )
            refl,
      )
  round-destination true size out bytes =
      let r = file_read l.dstfile name rest w.input.failed size h in
      (
        _,
        r.word_is,
        rw
            (
              bytes,
              gettoken-sign true l.word _ w.input.failed,
              out,
              r.token_is,
              r.input_is,
              r.notes_is,
            )
            refl,
      )

-- What a line says of the input and the output of a command.
abbrev pub source_text : Option Bytes → Bytes → Bytes
source_text none rest = rest
source_text (some name) rest = b' ' ∷ b'<' ∷ quoted name rest

abbrev pub destination_text : Option (Bytes × Bool) → Bytes → Bytes
destination_text none rest = rest
destination_text (some (name, appends)) rest = sign appends (quoted name rest)

abbrev pub IsNamed : Option Bytes → Type 0
IsNamed none = Unit {0}
IsNamed (some name) = IsName name × IsFileName name

abbrev pub IsNamedDestination : Option (Bytes × Bool) → Type 0
IsNamedDestination none = Unit {0}
IsNamedDestination (some (name, _)) = IsName name × IsFileName name

length-quoted : (name rest : Bytes) → length rest + 3 ≤ length (quoted name rest)
length-quoted name rest = omega (arith, length-append (escape name) (b'"' ∷ rest))

length-sign : (appends : Bool) (rest : Bytes) → length rest ≤ length (sign appends rest)
length-sign false rest = omega arith
length-sign true rest = omega arith

module _ (os : Os) (fuel : ℕ) (l : Locals) (w : World) (rest : Bytes)
    (size : length l.word ≡ max_word) (lt : length w.input.bytes < fuel) where
  pub gather-lt :
      (o : Option Bytes)
      → IsNamed o
      → length l.srcfile ≡ max_fname
      → IsSource none l.srcfd l.srcfile
      → w.input.bytes ≡ source_text o rest
      → (io : Io) × Reached os fuel l w [] rest io
        × IsSource o io.srcfd io.srcfile
        × (io.dstfd ≡ l.dstfd)
        × (io.dstfile ≡ l.dstfile)
  gather-lt none n room src bytes =
      (l.io, Reached-refl os fuel l w rest size bytes lt, src, refl, refl)
  gather-lt (some name) (n, fits) room src bytes =
      let (array, c, step) = round-source os l w name rest fits room bytes in
      let more = length-quoted name rest in
      (
        source_in l.io array,
        Reached-round os fuel l _ w _ [] rest step (sym (append-nil l.argv)) size refl
            (record {
              table = refl;
              pipes = refl;
              env = refl;
              failed = refl;
              children = refl;
              dirs = refl;
            })
            (omega (arith, lt, ap length bytes, more)),
        (refl, c, n),
        refl,
        refl,
      )

  pub gather-sign :
      (o : Option (Bytes × Bool))
      → IsNamedDestination o
      → length l.dstfile ≡ max_fname
      → IsDestination none l.io
      → w.input.bytes ≡ destination_text o rest
      → (io : Io) × Reached os fuel l w [] rest io
        × IsDestination o io
        × (io.srcfd ≡ l.srcfd)
        × (io.srcfile ≡ l.srcfile)
  gather-sign none n room dst bytes =
      (l.io, Reached-refl os fuel l w rest size bytes lt, dst, refl, refl)
  gather-sign (some (name, appends)) (n, fits) room dst bytes =
      let (array, c, step) = round-destination os l w name rest fits appends room dst.0 bytes in
      let more = length-quoted name rest in
      (
        destination_in l.io array appends,
        Reached-round os fuel l _ w _ [] rest step (sym (append-nil l.argv)) size refl
            (record {
              table = refl;
              pipes = refl;
              env = refl;
              failed = refl;
              children = refl;
              dirs = refl;
            })
            (omega (arith, lt, ap length bytes, more, length-sign appends (quoted name rest))),
        (refl, c, n, refl),
        refl,
        refl,
      )
