-- ===== src/Shell/Lexer.antt =====
-- `store_char` and `gettoken` of communication/shell.c.
pub mod Holding
pub mod Overflow
pub mod Progress
pub mod Words
use unix_study.Prelude.{
  ℕ, ◌+◌, Bool, true, false, not, ◌||◌, List, [], ◌∷◌, ◌++◌, Bytes, leb, ◌==◌, if◌then◌else◌, set,
}

pub data Token : Type 0 where
  t_word t_bar t_amp t_semi t_gt t_gtgt t_lt t_nl t_eof t_error : Token

-- What the lexer writes on stderr.
pub data LexNote : Type 0 where
  word_too_long stdin_error : LexNote

-- The bytes that are still to be read; past them `getchar` returns EOF, and `failed` says whether
-- for a read error, which `ferror` reports, or for the end of the file.
pub record Stdin : Type 0 where
  pub bytes : Bytes
  pub failed : Bool

-- The array `word`, the index `wordn`, and the messages in order.
pub record Store : Type 0 where
  pub word : Bytes
  pub wordn : ℕ
  pub notes : List LexNote

-- The new contents, and what the function returns.
unfoldable pub store_char : ℕ → ℕ → Store → Store × Bool
store_char maxword c s =
    if leb maxword s.wordn
    then (record s { notes = s.notes ++ word_too_long ∷ [] }, false)
    else (record s { word = set s.word s.wordn c; wordn = s.wordn + 1 }, true)

-- `escaped` is the place behind the second `getchar` of `case '\\'`.
pub data LexState : Type 0 where
  neutral gtgt inquote inword escaped : LexState

-- What the `switch` does with a byte.
pub data Action : Type 0 where
  give : Token → Action
  give_back : Token → Action
  goto : LexState → Action
  keep : LexState → Action
  end_word : Action
  end_word_back : Action

abbrev pub is_blank : ℕ → Bool
is_blank c = c == b' ' || c == b'\t'

-- The bytes that end an unquoted word.
abbrev pub is_delimiter : ℕ → Bool
is_delimiter c =
    c == b';' || c == b'&' || c == b'|' || c == b'<' || c == b'>' || c == b'\n' || is_blank c

unfoldable pub action : LexState → ℕ → Action
action neutral c =
    if c == b';'
    then give t_semi
    else if c == b'&'
    then give t_amp
    else if c == b'|'
    then give t_bar
    else if c == b'<'
    then give t_lt
    else if c == b'\n'
    then give t_nl
    else if is_blank c
    then goto neutral
    else if c == b'>'
    then goto gtgt
    else if c == b'"'
    then goto inquote
    else keep inword
action gtgt c = if c == b'>' then give t_gtgt else give_back t_gt
action inquote c = if c == b'\\' then goto escaped else if c == b'"' then end_word else keep inquote
action inword c = if is_delimiter c then end_word_back else keep inword
action escaped c = keep inquote

pub record Lexed : Type 0 where
  pub token : Token
  pub input : Stdin
  pub word : Bytes
  pub notes : List LexNote

abbrev pub lexed : Token → Stdin → Store → Lexed
lexed t i s = record { token = t; input = i; word = s.word; notes = s.notes }

-- Behind the loop, at EOF. `if(!ferror(stdin))` gives T_ERROR with a message.
unfoldable pub at_eof : Bool → Store → Lexed
at_eof failed s =
    let i : Stdin = record { bytes = []; failed = failed } in
    if not failed
    then lexed t_error i (record s { notes = s.notes ++ stdin_error ∷ [] })
    else lexed t_eof i s

-- The loop of `gettoken`. At EOF behind a backslash the backslash itself is stored first.
unfoldable pub scan : ℕ → Bool → LexState → Store → Bytes → Lexed
unfolding at_eof
scan maxword failed escaped s [] = at_eof failed (store_char maxword b'\\' s).0
scan maxword failed _ s [] = at_eof failed s
scan maxword failed state s (c ∷ cs) = elim (action state c) [
  | give t ↦ lexed t (record { bytes = cs; failed = failed }) s
  | give_back t ↦ lexed t (record { bytes = c ∷ cs; failed = failed }) s
  | goto next ↦ scan maxword failed next s cs
  | keep next ↦ scan maxword failed next (store_char maxword c s).0 cs
  | end_word ↦ lexed t_word (record { bytes = cs; failed = failed }) (store_char maxword 0 s).0
  | end_word_back ↦
      lexed t_word (record { bytes = c ∷ cs; failed = failed }) (store_char maxword 0 s).0
]

-- `word` is what the array holds before the call.
unfoldable pub gettoken : ℕ → Bytes → Stdin → Lexed
unfolding scan
gettoken maxword word i =
    scan maxword i.failed neutral (record { word = word; wordn = 0; notes = [] }) i.bytes
