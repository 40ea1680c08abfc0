-- ===== src/Shell/Lexer/Progress.antt =====
-- How far `gettoken` reads, and what it answers at the end of the input.
use unix_study.Prelude.{
  length-set, ℕ, ◌+◌, ◌≤◌, ◌<◌, ◌≡◌, ◌≢◌, Bool, true, false, ◌⊎◌, inl, inr, refl, [], ◌∷◌, Bytes,
  arith, length, All, ◌++◌,
}
use unix_study.Shell.Lexer.{
  Token, t_eof, t_error, Stdin, Store, store_char, LexState, neutral, gtgt, inquote, inword,
  escaped, action, at_eof, scan, gettoken, is_blank, is_delimiter,
}
use unix_study.Shell.Lexer.Holding.{action-inword, action-neutral, action-neutral_blank}

-- A token of the line: neither the end of the input nor an error.
abbrev pub IsLexeme : Token → Type 0
IsLexeme t = (t ≢ t_eof) × (t ≢ t_error)

-- A byte may be pushed back only behind one that was consumed.
abbrev gain : LexState → ℕ
gain neutral = 1
gain _ = 0

at_eof-token :
    (failed : Bool) (s : Store)
    → ((at_eof failed s).token ≡ t_eof) × (failed ≡ true)
      ⊎ ((at_eof failed s).token ≡ t_error) × (failed ≡ false)
unfolding at_eof
at_eof-token true s = inl (refl, refl)
at_eof-token false s = inr (refl, refl)

module _ (maxword : ℕ) (failed : Bool) where
  store_char-length : (c : ℕ) (s : Store) → length (store_char maxword c s).0.word ≡ length s.word
  unfolding store_char
  store_char-length c s = ground (arith, length-set s.word s.wordn c)

  scan-length :
      (state : LexState) (s : Store) (bytes : Bytes)
      → IsLexeme (scan maxword failed state s bytes).token
      → length (scan maxword failed state s bytes).input.bytes + gain state ≤ length bytes
  unfolding scan action
  scan-length escaped s [] l = ground (arith, at_eof-token failed (store_char maxword b'\\' s).0)
  scan-length neutral s [] l = ground (arith, at_eof-token failed s)
  scan-length _ s [] l = ground (arith, at_eof-token failed s)
  scan-length neutral s (c ∷ cs) l =
      let kept = (store_char maxword c s).0 in
      ground (
        arith,
        scan-length neutral s cs,
        scan-length gtgt s cs,
        scan-length inquote s cs,
        scan-length inword kept cs,
      )
  scan-length gtgt s (c ∷ cs) l = ground arith
  scan-length inquote s (c ∷ cs) l =
      ground (arith, scan-length escaped s cs, scan-length inquote (store_char maxword c s).0 cs)
  scan-length inword s (c ∷ cs) l = ground (arith, scan-length inword (store_char maxword c s).0 cs)
  scan-length escaped s (c ∷ cs) l =
      ground (arith, scan-length inquote (store_char maxword c s).0 cs)

  -- No call leaves more bytes than it found.
  scan-le :
      (state : LexState) (s : Store) (bytes : Bytes)
      → length (scan maxword failed state s bytes).input.bytes ≤ length bytes
  unfolding scan action at_eof
  scan-le escaped s [] = ground arith
  scan-le _ s [] = ground arith
  scan-le neutral s (c ∷ cs) =
      let kept = (store_char maxword c s).0 in
      ground (
        arith,
        scan-le neutral s cs,
        scan-le gtgt s cs,
        scan-le inquote s cs,
        scan-le inword kept cs,
      )
  scan-le gtgt s (c ∷ cs) = ground arith
  scan-le inquote s (c ∷ cs) =
      ground (arith, scan-le escaped s cs, scan-le inquote (store_char maxword c s).0 cs)
  scan-le inword s (c ∷ cs) = ground (arith, scan-le inword (store_char maxword c s).0 cs)
  scan-le escaped s (c ∷ cs) = ground (arith, scan-le inquote (store_char maxword c s).0 cs)

  -- The array keeps its size.
  scan-word :
      (state : LexState) (s : Store) (bytes : Bytes)
      → length (scan maxword failed state s bytes).word ≡ length s.word
  unfolding scan action at_eof
  scan-word escaped s [] = ground (arith, store_char-length b'\\' s)
  scan-word _ s [] = ground arith
  scan-word neutral s (c ∷ cs) =
      let kept = (store_char maxword c s).0 in
      ground (
        arith,
        scan-word neutral s cs,
        scan-word gtgt s cs,
        scan-word inquote s cs,
        scan-word inword kept cs,
        store_char-length c s,
      )
  scan-word gtgt s (c ∷ cs) = ground arith
  scan-word inquote s (c ∷ cs) = ground (
    arith,
    scan-word escaped s cs,
    scan-word inquote (store_char maxword c s).0 cs,
    store_char-length c s,
    store_char-length 0 s,
  )
  scan-word inword s (c ∷ cs) = ground (
    arith,
    scan-word inword (store_char maxword c s).0 cs,
    store_char-length c s,
    store_char-length 0 s,
  )
  scan-word escaped s (c ∷ cs) =
      ground (arith, scan-word inquote (store_char maxword c s).0 cs, store_char-length c s)

  scan-failed :
      (state : LexState) (s : Store) (bytes : Bytes)
      → (scan maxword failed state s bytes).input.failed ≡ failed
  unfolding scan action at_eof
  scan-failed escaped s [] = ground arith
  scan-failed _ s [] = ground arith
  scan-failed neutral s (c ∷ cs) =
      let kept = (store_char maxword c s).0 in
      ground (
        arith,
        scan-failed neutral s cs,
        scan-failed gtgt s cs,
        scan-failed inquote s cs,
        scan-failed inword kept cs,
      )
  scan-failed gtgt s (c ∷ cs) = ground arith
  scan-failed inquote s (c ∷ cs) =
      ground (arith, scan-failed escaped s cs, scan-failed inquote (store_char maxword c s).0 cs)
  scan-failed inword s (c ∷ cs) = ground (arith, scan-failed inword (store_char maxword c s).0 cs)
  scan-failed escaped s (c ∷ cs) = ground (arith, scan-failed inquote (store_char maxword c s).0 cs)

  -- The token is the end of the file only if a read failed, and an error only if none did.
  scan-end :
      (state : LexState) (s : Store) (bytes : Bytes)
      → ((scan maxword failed state s bytes).token ≡ t_eof → failed ≡ true)
        × ((scan maxword failed state s bytes).token ≡ t_error → failed ≡ false)
  unfolding scan action
  scan-end escaped s [] = ground (arith, at_eof-token failed (store_char maxword b'\\' s).0)
  scan-end _ s [] = ground (arith, at_eof-token failed s)
  scan-end neutral s (c ∷ cs) =
      let kept = (store_char maxword c s).0 in
      ground (
        arith,
        scan-end neutral s cs,
        scan-end gtgt s cs,
        scan-end inquote s cs,
        scan-end inword kept cs,
      )
  scan-end gtgt s (c ∷ cs) = ground arith
  scan-end inquote s (c ∷ cs) =
      ground (arith, scan-end escaped s cs, scan-end inquote (store_char maxword c s).0 cs)
  scan-end inword s (c ∷ cs) = ground (arith, scan-end inword (store_char maxword c s).0 cs)
  scan-end escaped s (c ∷ cs) = ground (arith, scan-end inquote (store_char maxword c s).0 cs)

-- What a call gives that comes to the end of the input before it has a token, and a read has failed or not.
abbrev pub end_token : Bool → Token
end_token true = t_eof
end_token false = t_error

at_eof-end_token :
    (failed : Bool) (s : Store)
    → ((at_eof failed s).token ≡ end_token failed) × ((at_eof failed s).input.bytes ≡ [])
unfolding at_eof
at_eof-end_token true s = (refl, refl)
at_eof-end_token false s = (refl, refl)

scan_word_to_end :
    (maxword : ℕ) (failed : Bool) (s : Store) (v : Bytes)
    → All (λ c. (is_delimiter c ≡ false) × (c ≢ b'"')) v
    → ((scan maxword failed inword s v).token ≡ end_token failed)
      × ((scan maxword failed inword s v).input.bytes ≡ [])
unfolding scan
scan_word_to_end maxword failed s [] plain = at_eof-end_token failed s
scan_word_to_end maxword failed s (c ∷ v) (p, plain) =
    rw (scan, action-inword c p.0)
      (scan_word_to_end maxword failed (store_char maxword c s).0 v plain)

scan_to_end :
    (maxword : ℕ) (failed : Bool) (s : Store) (blanks v : Bytes)
    → All (λ c. is_blank c ≡ true) blanks
    → All (λ c. (is_delimiter c ≡ false) × (c ≢ b'"')) v
    → ((scan maxword failed neutral s (blanks ++ v)).token ≡ end_token failed)
      × ((scan maxword failed neutral s (blanks ++ v)).input.bytes ≡ [])
unfolding scan
scan_to_end maxword failed s [] [] skip plain = at_eof-end_token failed s
scan_to_end maxword failed s [] (c ∷ v) skip (p, plain) =
    rw (scan, action-neutral c p.0 p.1)
      (scan_word_to_end maxword failed (store_char maxword c s).0 v plain)
scan_to_end maxword failed s (b ∷ blanks) v (q, skip) plain =
    rw (scan, action-neutral_blank b q) (scan_to_end maxword failed s blanks v skip plain)

scan_ends :
    (maxword : ℕ) (failed : Bool) (s : Store) (bytes blanks v : Bytes)
    → All (λ c. is_blank c ≡ true) blanks
    → All (λ c. (is_delimiter c ≡ false) × (c ≢ b'"')) v
    → bytes ≡ blanks ++ v
    → ((scan maxword failed neutral s bytes).token ≡ end_token failed)
      × ((scan maxword failed neutral s bytes).input.bytes ≡ [])
scan_ends maxword failed s bytes blanks v skip plain e =
    rw e (scan_to_end maxword failed s blanks v skip plain)

-- A call that gives a token of the line leaves fewer bytes than it found, so that a loop over the
-- tokens ends.
pub gettoken-length :
    (maxword : ℕ) (word : Bytes) (i : Stdin)
    → IsLexeme (gettoken maxword word i).token
    → length (gettoken maxword word i).input.bytes < length i.bytes
unfolding gettoken
gettoken-length maxword word i l = omega (arith, scan-length maxword i.failed neutral _ i.bytes l)

pub gettoken-le :
    (maxword : ℕ) (word : Bytes) (i : Stdin)
    → length (gettoken maxword word i).input.bytes ≤ length i.bytes
unfolding gettoken
gettoken-le maxword word i = scan-le maxword i.failed neutral _ i.bytes

pub gettoken-word :
    (maxword : ℕ) (word : Bytes) (i : Stdin) → length (gettoken maxword word i).word ≡ length word
unfolding gettoken
gettoken-word maxword word i = scan-word maxword i.failed neutral _ i.bytes

pub gettoken-failed :
    (maxword : ℕ) (word : Bytes) (i : Stdin) → (gettoken maxword word i).input.failed ≡ i.failed
unfolding gettoken
gettoken-failed maxword word i = scan-failed maxword i.failed neutral _ i.bytes

-- Where the input comes to its end behind blanks, or within a word behind them, the end of the file is
-- reported as T_ERROR and a read error as T_EOF, and no bytes are left; and whatever the input is, T_EOF
-- is given only if a read failed, and T_ERROR only if none did. So the test `if(!ferror(stdin))` is the
-- wrong way round.
pub gettoken_at_end :
    (maxword : ℕ) (word : Bytes) (i : Stdin) (blanks v : Bytes)
    → All (λ c. is_blank c ≡ true) blanks
    → All (λ c. (is_delimiter c ≡ false) × (c ≢ b'"')) v
    → i.bytes ≡ blanks ++ v
    → ((gettoken maxword word i).token ≡ end_token i.failed)
      × ((gettoken maxword word i).input.bytes ≡ [])
      × ((other : Stdin)
          → ((gettoken maxword word other).token ≡ t_eof → other.failed ≡ true)
            × ((gettoken maxword word other).token ≡ t_error → other.failed ≡ false))
unfolding gettoken
gettoken_at_end maxword word i blanks v skip plain e =
    let s : Store = record { word = word; wordn = 0; notes = [] } in
    let (token, left) = scan_ends maxword i.failed s i.bytes blanks v skip plain e in
    (token, left, λ other. scan-end maxword other.failed neutral _ other.bytes)
