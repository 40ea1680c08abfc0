-- ===== src/Shell/Lexer/Holding.antt =====
-- The array of a word while it is filled, and how words are written.
use unix_study.Prelude.{
  ℕ, ◌+◌, ◌<◌, ◌≡◌, ◌≢◌, Bool, true, false, ◌||◌, List, refl, sym, ◌∙◌, [], ◌∷◌, ◌++◌, Bytes, arith,
  length, length-append, set-append, append_assoc, ◌==◌, leb, leb_of_lt, if◌then◌else◌, All,
  c_string, c_string-append, some,
}
use unix_study.Shell.Lexer.{
  t_word, Store, store_char, neutral, inword, is_delimiter, is_blank, keep, goto, end_word_back,
  action, Lexed, LexNote,
}

-- The array holds `w` in front, and `wordn` stands behind it.
pub record Holds (maxword : ℕ) (w : Bytes) (s : Store) : Type 0 where
  pub tail : Bytes
  pub word_is : s.word ≡ w ++ tail
  pub wordn_is : s.wordn ≡ length w
  pub fits : length w + length tail ≡ maxword

-- A successful `store_char`: room is left, the byte goes behind the others, nothing is printed.
pub store_char-Holds :
    {maxword : ℕ} {w : Bytes} {s : Store} (c : ℕ)
    → Holds maxword w s
    → length w < maxword
    → Holds maxword (w ++ c ∷ []) (store_char maxword c s).0
      × ((store_char maxword c s).1 ≡ true)
      × ((store_char maxword c s).0.notes ≡ s.notes)
unfolding store_char
store_char-Holds {maxword} {w} {s} c h room = go h.tail h.word_is h.fits
  where
    small : leb maxword s.wordn ≡ false
    small = leb_of_lt _ _ (let e = h.wordn_is in omega arith)

    go :
        (tail : Bytes)
        → s.word ≡ w ++ tail
        → length w + length tail ≡ maxword
        → Holds maxword (w ++ c ∷ []) (store_char maxword c s).0
          × ((store_char maxword c s).1 ≡ true)
          × ((store_char maxword c s).0.notes ≡ s.notes)
    go [] e f = absurd (omega arith)
    go (t ∷ ts) e f = rw small (
      record {
        tail = ts;
        word_is = rw (e, h.wordn_is) (set-append w ts t c ∙ sym (append_assoc w (c ∷ []) ts));
        wordn_is = let e' = h.wordn_is in omega (arith, length-append w (c ∷ []));
        fits = omega (arith, length-append w (c ∷ []));
      },
      refl,
      refl,
    )

-- The terminator makes the contents a string.
pub end-Holds :
    {maxword : ℕ} {w : Bytes} {s : Store}
    → Holds maxword w s
    → length w < maxword
    → All (λ c. c ≢ 0) w
    → c_string (store_char maxword 0 s).0.word ≡ some w
end-Holds {w} h room nonzero =
    let (h', _, _) = store_char-Holds 0 h room in
    rw (h'.word_is, append_assoc) (c_string-append w h'.tail nonzero)

-- How a byte is written inside quotes.
abbrev pub escape_byte : ℕ → Bytes → Bytes
escape_byte c rest = if c == b'"' || c == b'\\' then b'\\' ∷ c ∷ rest else c ∷ rest

abbrev pub escape : Bytes → Bytes
escape [] = []
escape (c ∷ w) = escape_byte c (escape w)

-- A byte that an unquoted word may hold behind its first.
abbrev pub IsPlain : ℕ → Type 0
IsPlain c = (is_delimiter c ≡ false) × (c ≢ 0)

-- The call answers with the word `w`, prints nothing, and leaves `rest`.
pub record ReadsWord (w rest : Bytes) (failed : Bool) (notes : List LexNote) (r : Lexed)
    : Type 0 where
  pub token_is : r.token ≡ t_word
  pub word_is : c_string r.word ≡ some w
  pub input_is : r.input ≡ record { bytes = rest; failed = failed }
  pub notes_is : r.notes ≡ notes

pub All-nonzero-concat :
    (w : Bytes) (c : ℕ) → All (λ c. c ≢ 0) w → c ≢ 0 → All (λ c. c ≢ 0) (w ++ c ∷ [])
All-nonzero-concat [] c h n = (n, tt)
All-nonzero-concat (x ∷ w) c h n = (h.0, All-nonzero-concat w c h.1 n)

pub room_left : (w : Bytes) (c : ℕ) (v : Bytes) (m : ℕ) → length (w ++ c ∷ v) < m → length w < m
room_left w c v m h = omega (arith, length-append w (c ∷ v))

pub action-inword_end : (d : ℕ) → is_delimiter d ≡ true → action inword d ≡ end_word_back
unfolding action
action-inword_end d h = rw h

pub action-inword : (c : ℕ) → is_delimiter c ≡ false → action inword c ≡ keep inword
unfolding action
action-inword c h = rw h

-- The first byte of an unquoted word is no quote either.
pub action-neutral : (c : ℕ) → is_delimiter c ≡ false → c ≢ b'"' → action neutral c ≡ keep inword
unfolding action
action-neutral c h q = ground arith

pub action-neutral_blank : (c : ℕ) → is_blank c ≡ true → action neutral c ≡ goto neutral
unfolding action
action-neutral_blank c h = ground arith
