-- ===== src/Shell/Lexer/Overflow.antt =====
-- What `gettoken` leaves in the array for a word that does not fit.
use native.Mathlib.Decide.{dec_lt}
use unix_study.Prelude.{
  Bool, ℕ, ◌+◌, ◌≤◌, ◌<◌, ◌≡◌, ◌≢◌, refl, ◌∙◌, [], ◌∷◌, ◌++◌, Bytes, arith, length, append_assoc,
  append-nil, leb_of_le, All, c_string, c_string-none, none, true,
}
use unix_study.Shell.Lexer.{
  t_word, Store, store_char, neutral, inword, is_delimiter, is_blank, scan, gettoken,
}
use unix_study.Shell.Lexer.Holding.{
  Holds, store_char-Holds, IsPlain, All-nonzero-concat, action-inword, action-inword_end,
  action-neutral,
}
use unix_study.Shell.Lexer.Words.{scan-keep, scan-end_word_back, scan-blanks, start-Holds}

-- The array ends with the last byte that was stored.
Holds-full :
    {maxword : ℕ} {w : Bytes} {s : Store}
    → Holds maxword w s
    → maxword ≤ length w
    → (s.word ≡ w) × (maxword ≤ s.wordn)
Holds-full {maxword} {w} {s} h long = (go h.tail h.word_is h.fits, rw h.wordn_is long)
  where
    go : (tail : Bytes) → s.word ≡ w ++ tail → length w + length tail ≡ maxword → s.word ≡ w
    go [] e f = e ∙ append-nil w
    go (t ∷ ts) e f = absurd (omega arith)

module _ (maxword : ℕ) (failed : Bool) where
  store_char_full :
      (c : ℕ) (s : Store)
      → maxword ≤ s.wordn
      → ((store_char maxword c s).0.word ≡ s.word) × ((store_char maxword c s).0.wordn ≡ s.wordn)
  unfolding store_char
  store_char_full c s full = rw (leb_of_le maxword s.wordn full) (refl, refl)

  scan-inword_full :
      (v : Bytes) (s : Store) (d : ℕ) (rest : Bytes)
      → maxword ≤ s.wordn
      → All IsPlain v
      → is_delimiter d ≡ true
      → ((scan maxword failed inword s (v ++ d ∷ rest)).word ≡ s.word)
        × ((scan maxword failed inword s (v ++ d ∷ rest)).token ≡ t_word)
  scan-inword_full [] s d rest full plain delimits =
      rw (scan-end_word_back maxword failed inword s d rest (action-inword_end d delimits))
        ((store_char_full 0 s full).0, refl)
  scan-inword_full (c ∷ v) s d rest full (p, plain) delimits =
      let (same, n) = store_char_full c s full in
      let (w, t) =
        scan-inword_full v (store_char maxword c s).0 d rest (omega arith) plain delimits in
      rw (scan-keep maxword failed inword inword s c (v ++ d ∷ rest) (action-inword c p.0))
        (w ∙ same, t)

  scan-inword_long :
      (v w : Bytes) (s : Store) (d : ℕ) (rest : Bytes)
      → Holds maxword w s
      → maxword ≤ length (w ++ v)
      → All (λ c. c ≢ 0) w
      → All IsPlain v
      → is_delimiter d ≡ true
      → (c_string (scan maxword failed inword s (v ++ d ∷ rest)).word ≡ none)
        × ((scan maxword failed inword s (v ++ d ∷ rest)).token ≡ t_word)
  scan-inword_long [] w s d rest h long nonzero plain delimits =
      let (whole, full) = Holds-full h (rw append-nil at long) in
      let (same, t) = scan-inword_full [] s d rest full plain delimits in
      (rw (same, whole) (c_string-none w nonzero), t)
  scan-inword_long (c ∷ v) w s d rest h long nonzero plain delimits =
      elim (dec_lt (length w) maxword) [
        | yes room ↦
            let (h', _, _) = store_char-Holds c h room in
            rw
              (scan-keep maxword failed inword inword s c (v ++ d ∷ rest)
                (action-inword c plain.0.0))
              (scan-inword_long v (w ++ c ∷ []) (store_char maxword c s).0 d rest h'
                (rw (append_assoc w (c ∷ []) v) long) (All-nonzero-concat w c nonzero plain.0.1)
                plain.1 delimits)
        | no filled ↦
            let (whole, full) = Holds-full h (omega arith) in
            let (same, t) = scan-inword_full (c ∷ v) s d rest full plain delimits in
            (rw (same, whole) (c_string-none w nonzero), t)
      ]

-- Behind blanks, an unquoted word without NUL that fills the array, which is not empty, or is
-- longer, and that a delimiter ends, is still answered with T_WORD, but the array holds no NUL:
-- `store_char` drops the terminator, and `gettoken` ignores that it failed.
pub gettoken_long :
    (maxword : ℕ) (word : Bytes) (failed : Bool) (blanks : Bytes) (c : ℕ) (v : Bytes) (d : ℕ)
    (rest : Bytes)
    → length word ≡ maxword
    → 0 < maxword
    → maxword ≤ length (c ∷ v)
    → All (λ c. is_blank c ≡ true) blanks
    → c ≢ b'"'
    → All IsPlain (c ∷ v)
    → is_delimiter d ≡ true
    → (c_string
          (gettoken maxword word
            (record { bytes = blanks ++ (c ∷ v ++ d ∷ rest); failed = failed })).word
        ≡ none)
      × ((gettoken maxword word
            (record { bytes = blanks ++ (c ∷ v ++ d ∷ rest); failed = failed })).token
          ≡ t_word)
unfolding gettoken
gettoken_long maxword word failed blanks c v d rest size pos long skip q (p, plain) delimits =
    let s : Store = record { word = word; wordn = 0; notes = [] } in
    let (h, _, _) = store_char-Holds c (start-Holds maxword word size) pos in
    rw
      (
        scan-blanks maxword failed blanks s (c ∷ v ++ d ∷ rest) skip,
        scan-keep maxword failed neutral inword s c (v ++ d ∷ rest) (action-neutral c p.0 q),
      )
      (scan-inword_long maxword failed v (c ∷ []) (store_char maxword c s).0 d rest h long (p.1, tt)
        plain delimits)
