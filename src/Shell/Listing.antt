-- ===== src/Shell/Listing.antt =====
-- `test_gettoken` of communication/shell.c, which lists the tokens of its input.
use unix_study.Prelude.{
  zero, suc, [], ◌∷◌, ◌++◌, none, some, false, refl, arith, sym, ap, ◌∙◌, subst, ◌≡◌, ◌<◌, Option,
  List, ℕ, Bytes, length, All, map, append_assoc, c_string,
}
use mathlib.Core.Option
use unix_study.Shell.Lexer.{
  Token, t_word, t_bar, t_amp, t_semi, t_gt, t_gtgt, t_lt, t_nl, t_eof, t_error, Stdin, Lexed,
  gettoken, scan, action, at_eof,
}
use unix_study.Shell.Lexer.Progress.{gettoken-length, gettoken-word, IsLexeme}
use unix_study.Shell.Lexer.Words.{gettoken_quoted}
use unix_study.Shell.Lexer.Holding.{escape}
use unix_study.Shell.Command.{max_word}
use unix_study.Shell.Command.Words.{Fits}

-- A line of the output: a word as a string, which `none` is not, or the name of a token.
pub data Printed : Type 0 where
  word_line : Option Bytes → Printed
  token_line : Token → Printed

-- The `switch`, where `more` is the output of the rounds that follow.
abbrev pub show : Token → Bytes → Option (List Printed) → Option (List Printed)
show t_word word more = Option.map (◌∷◌ (word_line (c_string word))) more
show t_eof word more = some (token_line t_eof ∷ [])
show t_error word more = some (token_line t_error ∷ [])
show t word more = Option.map (◌∷◌ (token_line t)) more

-- The loop of `test_gettoken`, behind the two lines that it prints first. `word` is what the array holds;
-- `none` is out of fuel.
unfoldable pub test_gettoken : ℕ → Bytes → Stdin → Option (List Printed)
test_gettoken zero word i = none
test_gettoken (suc fuel) word i =
    let r = gettoken max_word word i in show r.token r.word (test_gettoken fuel r.word r.input)

map-some :
    (p : Printed) (more : Option (List Printed))
    → (out : List Printed) × (more ≡ some out)
    → (out : List Printed) × (Option.map (◌∷◌ p) more ≡ some out)
map-some p more (out, e) = (p ∷ out, ap (Option.map (◌∷◌ p)) e)

-- There is an output if there is one whenever the program goes on.
show-some :
    (t : Token) (word : Bytes) (more : Option (List Printed))
    → (IsLexeme t → (out : List Printed) × (more ≡ some out))
    → (out : List Printed) × (show t word more ≡ some out)
show-some t_word word more h = map-some (word_line (c_string word)) more (h (ground arith))
show-some t_bar word more h = map-some (token_line t_bar) more (h (ground arith))
show-some t_amp word more h = map-some (token_line t_amp) more (h (ground arith))
show-some t_semi word more h = map-some (token_line t_semi) more (h (ground arith))
show-some t_gt word more h = map-some (token_line t_gt) more (h (ground arith))
show-some t_gtgt word more h = map-some (token_line t_gtgt) more (h (ground arith))
show-some t_lt word more h = map-some (token_line t_lt) more (h (ground arith))
show-some t_nl word more h = map-some (token_line t_nl) more (h (ground arith))
show-some t_eof word more h = (token_line t_eof ∷ [], refl)
show-some t_error word more h = (token_line t_error ∷ [], refl)

-- The program ends on any input: it needs no more rounds than there are bytes, and one.
pub test_gettoken-ends :
    (fuel : ℕ) (word : Bytes) (i : Stdin)
    → length i.bytes < fuel
    → (out : List Printed) × (test_gettoken fuel word i ≡ some out)
unfolding test_gettoken
test_gettoken-ends zero word i h = elim h [ ]
test_gettoken-ends (suc fuel) word i h =
    let r = gettoken max_word word i in
    show-some r.token r.word (test_gettoken fuel r.word r.input) λ l.
      test_gettoken-ends fuel r.word r.input (omega (arith, h, gettoken-length max_word word i l))

-- What may stand on a line.
pub data Lexeme : Type 0 where
  word : Bytes → Lexeme
  bar amp semi gt gtgt lt nl : Lexeme

-- It is written behind a blank, and a word between quotes.
abbrev pub bytes_of : Lexeme → Bytes
bytes_of (word v) = b'"' ∷ (escape v ++ b'"' ∷ [])
bytes_of bar = b'|' ∷ []
bytes_of amp = b'&' ∷ []
bytes_of semi = b';' ∷ []
bytes_of gt = b'>' ∷ []
bytes_of gtgt = b'>' ∷ b'>' ∷ []
bytes_of lt = b'<' ∷ []
bytes_of nl = b'\n' ∷ []

abbrev pub text_of : List Lexeme → Bytes
text_of [] = b' ' ∷ []
text_of (l ∷ ls) = b' ' ∷ (bytes_of l ++ text_of ls)

abbrev pub line_of : Lexeme → Printed
line_of (word v) = word_line (some v)
line_of bar = token_line t_bar
line_of amp = token_line t_amp
line_of semi = token_line t_semi
line_of gt = token_line t_gt
line_of gtgt = token_line t_gtgt
line_of lt = token_line t_lt
line_of nl = token_line t_nl

abbrev pub IsWritten : Lexeme → Type 0
IsWritten (word v) = Fits v
IsWritten _ = Unit {0}

-- A call has read the lexeme.
abbrev Reads : Lexeme → Bytes → Lexed → Type 0
Reads l rest r =
    (r.input ≡ record { bytes = rest; failed = false })
    × ((more : Option (List Printed))
        → show r.token r.word more ≡ Option.map (◌∷◌ (line_of l)) more)

text_of-blank : (ls : List Lexeme) → (bs : Bytes) × (text_of ls ≡ b' ' ∷ bs)
text_of-blank [] = ([], refl)
text_of-blank (l ∷ ls) = (bytes_of l ++ text_of ls, refl)

show-word :
    {t : Token} (array : Bytes) {v : Bytes}
    → t ≡ t_word
    → c_string array ≡ some v
    → (more : Option (List Printed))
    → show t array more ≡ Option.map (◌∷◌ (word_line (some v))) more
show-word array t w more = rw (t, w) refl

gettoken-word_lexeme :
    (v array bs : Bytes)
    → length array ≡ max_word
    → Fits v
    → Reads (word v) (b' ' ∷ bs) (
        gettoken max_word array
          (record { bytes = b' ' ∷ (bytes_of (word v) ++ b' ' ∷ bs); failed = false }))
gettoken-word_lexeme v array bs size h =
    let r =
      gettoken_quoted max_word array false (b' ' ∷ []) v (b' ' ∷ bs) size h.0 (refl, tt) h.1 in
    subst
      (λ s.
        Reads (word v) (b' ' ∷ bs)
          (gettoken max_word array (record { bytes = b' ' ∷ b'"' ∷ s; failed = false })))
      (sym (append_assoc (escape v) (b'"' ∷ []) (b' ' ∷ bs)))
      (r.input_is, λ more. show-word _ r.token_is r.word_is more)

gettoken-lexeme :
    (l : Lexeme) (array bs : Bytes)
    → length array ≡ max_word
    → IsWritten l
    → Reads l (b' ' ∷ bs) (
        gettoken max_word array
          (record { bytes = b' ' ∷ (bytes_of l ++ b' ' ∷ bs); failed = false }))
unfolding gettoken scan action
gettoken-lexeme (word v) array bs size h = gettoken-word_lexeme v array bs size h
gettoken-lexeme bar array bs size h = (refl, λ _. refl)
gettoken-lexeme amp array bs size h = (refl, λ _. refl)
gettoken-lexeme semi array bs size h = (refl, λ _. refl)
gettoken-lexeme gt array bs size h = (refl, λ _. refl)
gettoken-lexeme gtgt array bs size h = (refl, λ _. refl)
gettoken-lexeme lt array bs size h = (refl, λ _. refl)
gettoken-lexeme nl array bs size h = (refl, λ _. refl)

-- Printing and reading: for any lexemes, written one behind the other with a blank in front of each and words
-- between quotes, the program lists exactly these tokens, in order and with the words as they were, then T_ERROR, which the
-- end of the file gives, and ends. Words are shorter than the array and without NUL.
pub test_gettoken-text_of :
    (fuel : ℕ) (array : Bytes) (ls : List Lexeme)
    → length array ≡ max_word
    → All IsWritten ls
    → length ls < fuel
    → test_gettoken fuel array (record { bytes = text_of ls; failed = false })
      ≡ some (map line_of ls ++ token_line t_error ∷ [])
unfolding test_gettoken
test_gettoken-text_of zero array ls size h enough = elim enough [ ]
test_gettoken-text_of (suc fuel) array [] size h enough = unfold gettoken scan action at_eof in refl
test_gettoken-text_of (suc fuel) array (l ∷ ls) size h enough =
    let (bs, blank) = text_of-blank ls in
    let i : Stdin = record { bytes = text_of (l ∷ ls); failed = false } in
    let (left, shows) : Reads l (text_of ls) (gettoken max_word array i) =
      subst
        (λ s.
          Reads l s
            (gettoken max_word array (record { bytes = b' ' ∷ (bytes_of l ++ s); failed = false })))
        (sym blank) (gettoken-lexeme l array bs size h.0) in
    let r = gettoken max_word array i in
    shows (test_gettoken fuel r.word r.input)
    ∙ ap (λ j. Option.map (◌∷◌ (line_of l)) (test_gettoken fuel r.word j)) left
    ∙ ap (Option.map (◌∷◌ (line_of l))) (
        test_gettoken-text_of fuel r.word ls (gettoken-word max_word array i ∙ size) h.1
          (omega arith))
