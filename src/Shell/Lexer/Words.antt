-- ===== src/Shell/Lexer/Words.antt =====
-- The words that `gettoken` reads: plain ones and quoted ones.
use unix_study.Prelude.{
  ℕ, ◌<◌, ◌≡◌, ◌≢◌, Bool, true, List, refl, ◌∙◌, [], ◌∷◌, ◌++◌, Bytes, arith, length, append_assoc,
  append-nil, All,
}
use unix_study.Shell.Lexer.{
  t_word, Store, store_char, LexState, neutral, inquote, inword, is_delimiter, is_blank, keep, goto,
  end_word_back, end_word, action, lexed, scan, gettoken, LexNote,
}
use unix_study.Shell.Lexer.Holding.{
  All-nonzero-concat, Holds, IsPlain, ReadsWord, action-inword, action-inword_end, action-neutral,
  action-neutral_blank, end-Holds, escape, room_left, store_char-Holds,
}

module _ (maxword : ℕ) (failed : Bool) where
  -- The end of a word that fits, in either way of writing it.
  ends :
      {w : Bytes} {s : Store} (rest : Bytes)
      → Holds maxword w s
      → length w < maxword
      → All (λ c. c ≢ 0) w
      → ReadsWord w rest failed s.notes
          (lexed t_word (record { bytes = rest; failed = failed }) (store_char maxword 0 s).0)
  ends rest h room nonzero = record {
    token_is = refl;
    word_is = end-Holds h room nonzero;
    input_is = refl;
    notes_is = (store_char-Holds 0 h room).2;
  }

  -- One round of the loop, for each action of a word.
  pub scan-keep :
      (state next : LexState) (s : Store) (c : ℕ) (cs : Bytes)
      → action state c ≡ keep next
      → scan maxword failed state s (c ∷ cs)
        ≡ scan maxword failed next (store_char maxword c s).0 cs
  unfolding scan
  scan-keep state next s c cs h = rw (h, scan)

  pub scan-goto :
      (state next : LexState) (s : Store) (c : ℕ) (cs : Bytes)
      → action state c ≡ goto next
      → scan maxword failed state s (c ∷ cs) ≡ scan maxword failed next s cs
  unfolding scan
  scan-goto state next s c cs h = rw (h, scan)

  scan-end_word :
      (state : LexState) (s : Store) (c : ℕ) (cs : Bytes)
      → action state c ≡ end_word
      → scan maxword failed state s (c ∷ cs)
        ≡ lexed t_word (record { bytes = cs; failed = failed }) (store_char maxword 0 s).0
  unfolding scan
  scan-end_word state s c cs h = rw (h, scan)

  pub scan-end_word_back :
      (state : LexState) (s : Store) (c : ℕ) (cs : Bytes)
      → action state c ≡ end_word_back
      → scan maxword failed state s (c ∷ cs)
        ≡ lexed t_word (record { bytes = c ∷ cs; failed = failed }) (store_char maxword 0 s).0
  unfolding scan
  scan-end_word_back state s c cs h = rw (h, scan)

  scan-inword :
      (v w : Bytes) (s : Store) (d : ℕ) (rest : Bytes) (notes : List LexNote)
      → Holds maxword w s
      → length (w ++ v) < maxword
      → All (λ c. c ≢ 0) w
      → All IsPlain v
      → is_delimiter d ≡ true
      → s.notes ≡ notes
      → ReadsWord (w ++ v) (d ∷ rest) failed notes (scan maxword failed inword s (v ++ d ∷ rest))
  scan-inword [] w s d rest notes h room nonzero plain delimits e =
      rw (append-nil w, scan-end_word_back inword s d rest (action-inword_end d delimits), ← e)
        (ends (d ∷ rest) h (rw append-nil at room) nonzero)
  scan-inword (c ∷ v) w s d rest notes h room nonzero (p, plain) delimits e =
      let (h', _, quiet) = store_char-Holds c h (room_left w c v maxword room) in
      rw
        (
          scan-keep inword inword s c (v ++ d ∷ rest) (action-inword c p.0),
          ← append_assoc w (c ∷ []) v,
        )
        (scan-inword v (w ++ c ∷ []) (store_char maxword c s).0 d rest notes h'
          (rw (append_assoc w (c ∷ []) v) room) (All-nonzero-concat w c nonzero p.1) plain delimits
          (quiet ∙ e))

  -- One escaped byte is stored as itself.
  scan-escape_byte :
      (s : Store) (c : ℕ) (v rest : Bytes)
      → scan maxword failed inquote s (escape (c ∷ v) ++ b'"' ∷ rest)
        ≡ scan maxword failed inquote (store_char maxword c s).0 (escape v ++ b'"' ∷ rest)
  unfolding scan action
  scan-escape_byte s c v rest = ground arith

  -- Inside quotes every byte stands for itself, but for the two that `escape_byte` marks.
  scan-inquote :
      (v w : Bytes) (s : Store) (rest : Bytes) (notes : List LexNote)
      → Holds maxword w s
      → length (w ++ v) < maxword
      → All (λ c. c ≢ 0) w
      → All (λ c. c ≢ 0) v
      → s.notes ≡ notes
      → ReadsWord
          (w ++ v)
          rest
          failed
          notes
          (scan maxword failed inquote s (escape v ++ b'"' ∷ rest))
  unfolding action
  scan-inquote [] w s rest notes h room nonzero nz e =
      rw (append-nil w, scan-end_word inquote s b'"' rest refl, ← e)
        (ends rest h (rw append-nil at room) nonzero)
  scan-inquote (c ∷ v) w s rest notes h room nonzero (n, nz) e =
      let (h', _, quiet) = store_char-Holds c h (room_left w c v maxword room) in
      rw (scan-escape_byte s c v rest, ← append_assoc w (c ∷ []) v)
        (scan-inquote v (w ++ c ∷ []) (store_char maxword c s).0 rest notes h'
          (rw (append_assoc w (c ∷ []) v) room) (All-nonzero-concat w c nonzero n) nz (quiet ∙ e))

  -- Blanks before a token are skipped.
  pub scan-blanks :
      (blanks : Bytes) (s : Store) (cs : Bytes)
      → All (λ c. is_blank c ≡ true) blanks
      → scan maxword failed neutral s (blanks ++ cs) ≡ scan maxword failed neutral s cs
  scan-blanks [] s cs h = refl
  scan-blanks (b ∷ blanks) s cs h =
      scan-goto neutral neutral s b (blanks ++ cs) (action-neutral_blank b h.0)
      ∙ scan-blanks blanks s cs h.1

-- The empty array holds nothing.
pub start-Holds :
    (maxword : ℕ) (word : Bytes)
    → length word ≡ maxword
    → Holds maxword [] (record { word = word; wordn = 0; notes = [] })
start-Holds maxword word e = record {
  tail = word;
  word_is = refl;
  wordn_is = refl;
  fits = omega arith;
}

-- Blanks, an unquoted word without NUL that is shorter than the array, and a delimiter: `gettoken`
-- answers T_WORD, the array holds exactly the word as a string, nothing is printed, and the
-- delimiter is the next byte to be read.
pub gettoken_plain :
    (maxword : ℕ) (word : Bytes) (failed : Bool) (blanks : Bytes) (c : ℕ) (v : Bytes) (d : ℕ)
    (rest : Bytes)
    → length word ≡ maxword
    → length (c ∷ v) < maxword
    → All (λ c. is_blank c ≡ true) blanks
    → c ≢ b'"'
    → All IsPlain (c ∷ v)
    → is_delimiter d ≡ true
    → ReadsWord
        (c ∷ v)
        (d ∷ rest)
        failed
        []
        (gettoken maxword word (record { bytes = blanks ++ (c ∷ v ++ d ∷ rest); failed = failed }))
unfolding gettoken
gettoken_plain maxword word failed blanks c v d rest size room skip q (p, plain) delimits =
    let s : Store = record { word = word; wordn = 0; notes = [] } in
    let (h, _, quiet) = store_char-Holds c (start-Holds maxword word size) (omega arith) in
    rw
      (
        scan-blanks maxword failed blanks s (c ∷ v ++ d ∷ rest) skip,
        scan-keep maxword failed neutral inword s c (v ++ d ∷ rest) (action-neutral c p.0 q),
      )
      (scan-inword maxword failed v (c ∷ []) (store_char maxword c s).0 d rest [] h room (p.1, tt)
        plain delimits quiet)

-- Any text without NUL that is shorter than the array, behind blanks and written between quotes
-- with a backslash before each quote and each backslash, is read back exactly, and reading goes on
-- behind the closing quote.
pub gettoken_quoted :
    (maxword : ℕ) (word : Bytes) (failed : Bool) (blanks v rest : Bytes)
    → length word ≡ maxword
    → length v < maxword
    → All (λ c. is_blank c ≡ true) blanks
    → All (λ c. c ≢ 0) v
    → ReadsWord v rest failed [] (
        gettoken maxword word
          (record { bytes = blanks ++ b'"' ∷ (escape v ++ b'"' ∷ rest); failed = failed }))
unfolding gettoken action
gettoken_quoted maxword word failed blanks v rest size room skip nonzero =
    let s : Store = record { word = word; wordn = 0; notes = [] } in
    rw
      (
        scan-blanks maxword failed blanks s (b'"' ∷ (escape v ++ b'"' ∷ rest)) skip,
        scan-goto maxword failed neutral inquote s b'"' (escape v ++ b'"' ∷ rest) refl,
      )
      (scan-inquote maxword failed v [] s rest [] (start-Holds maxword word size) room tt nonzero
        refl)
