-- ===== src/CommandLine/Words.antt =====
-- The words of a line that `getargs` accepts.
use unix_study.Prelude.{
  ◌∙◌, refl, none, leb_of_lt, ap, ◌-◌, zero, append_assoc, ◌<◌, ◌≡◌, arith, [], ◌≢◌, All, Bool,
  Bytes, List, Option, false, length, some, suc, true, ℕ, ◌++◌, ◌∷◌,
}
use unix_study.CommandLine.{
  first_word, strtok, is_null, words, max_line, max_arg, is_separator, until_separator, fill,
  has_newline, fgets, after_separator, skip_separators, before_nul, getargs,
}

-- A byte of a word.
abbrev pub IsLetter : ℕ → Type 0
IsLetter c = (is_separator c ≡ false) × (c ≢ 0)

abbrev pub IsWord : Bytes → Type 0
IsWord [] = ⊥
IsWord (c ∷ cs) = All IsLetter (c ∷ cs)

-- The words of a line, with a blank behind each.
abbrev pub spaced : List Bytes → Bytes
spaced [] = []
spaced (w ∷ ws) = w ++ b' ' ∷ spaced ws

-- A byte that does not end a line or a string.
abbrev pub IsInner : ℕ → Type 0
IsInner c = (c ≢ b'\n') × (c ≢ 0)

All-append : (w v : Bytes) → All IsLetter w → All IsInner v → All IsInner (w ++ v)
All-append [] v h k = k
All-append (c ∷ w) v h k = (ground (arith, h.0), All-append w v h.1 k)

spaced-IsInner : (ws : List Bytes) → All IsWord ws → All IsInner (spaced ws)
spaced-IsInner [] h = tt
spaced-IsInner ([] ∷ ws) h = absurd h.0
spaced-IsInner ((c ∷ w) ∷ ws) h =
    All-append (c ∷ w) _ h.0 ((ground arith, ground arith), spaced-IsInner ws h.1)

pub fgets-line :
    (n : ℕ) (l rest : Bytes)
    → All IsInner l
    → length l < n
    → fgets n (l ++ b'\n' ∷ rest) ≡ (l ++ b'\n' ∷ [], rest, false)
unfolding fgets
fgets-line zero l rest h lt = elim lt [ ]
fgets-line (suc n) [] rest h lt = ground arith
fgets-line (suc n) (c ∷ l) rest h lt = ground (arith, fgets-line n l rest h.1 (omega arith), h.0)

pub before_nul-line : (l : Bytes) → All IsInner l → before_nul (l ++ b'\n' ∷ []) ≡ l ++ b'\n' ∷ []
unfolding before_nul
before_nul-line [] h = ground arith
before_nul-line (c ∷ l) h = ground (arith, before_nul-line l h.1, h.0)

pub has_newline-line : (l : Bytes) → has_newline (l ++ b'\n' ∷ []) ≡ true
unfolding has_newline
has_newline-line [] = ground arith
has_newline-line (c ∷ l) = ground (arith, has_newline-line l)

until_separator-word : (w rest : Bytes) → All IsLetter w → until_separator (w ++ b' ' ∷ rest) ≡ w
unfolding until_separator
until_separator-word [] rest h = ground arith
until_separator-word (c ∷ w) rest h = ground (arith, until_separator-word w rest h.1, h.0)

after_separator-word : (w rest : Bytes) → All IsLetter w → after_separator (w ++ b' ' ∷ rest) ≡ rest
unfolding after_separator
after_separator-word [] rest h = ground arith
after_separator-word (c ∷ w) rest h = ground (arith, after_separator-word w rest h.1, h.0)

skip_separators-letter :
    (c : ℕ) (s : Bytes) → is_separator c ≡ false → skip_separators (c ∷ s) ≡ c ∷ s
unfolding skip_separators
skip_separators-letter c s h = rw h refl

strtok-word :
    (c : ℕ) (w s : Bytes) → All IsLetter (c ∷ w) → strtok ((c ∷ w) ++ b' ' ∷ s) ≡ some (c ∷ w, s)
strtok-word c w s h = ap first_word (skip_separators-letter c (w ++ b' ' ∷ s) h.0.0) ∙ λ i.
    some (until_separator-word (c ∷ w) s h i, after_separator-word (c ∷ w) s h i)

fill-spaced :
    (max : ℕ) (ws : List Bytes)
    → All IsWord ws
    → length ws < max
    → fill max (spaced ws ++ b'\n' ∷ []) ≡ ws
unfolding fill
fill-spaced zero ws h lt = elim lt [ ]
fill-spaced (suc max) [] h lt = unfold skip_separators in refl
fill-spaced (suc max) ([] ∷ ws) h lt = absurd h.0
fill-spaced (suc max) ((c ∷ w) ∷ ws) h lt =
    ap first_of (
      ap strtok (append_assoc (c ∷ w) (b' ' ∷ spaced ws) (b'\n' ∷ []))
      ∙ strtok-word c w (spaced ws ++ b'\n' ∷ []) h.0)
    ∙ ap (◌∷◌ (c ∷ w)) (fill-spaced max ws h.1 (omega arith))
  where
    first_of : Option (Bytes × Bytes) → List Bytes
    first_of o = elim o [ none ↦ [] | some (word, rest) ↦ word ∷ fill max rest ]

pub is_null-line : (l : Bytes) (failed : Bool) → is_null (l ++ b'\n' ∷ []) false failed ≡ false
is_null-line [] failed = refl
is_null-line (c ∷ l) failed = refl

-- A line of fewer than twenty words, each without blanks and NUL and with a blank behind it, that
-- fits the buffer: `getargs` answers with exactly these words, prints nothing, and leaves what is
-- behind the line.
pub getargs-words :
    (fuel : ℕ) (ws : List Bytes) (rest : Bytes) (failed : Bool)
    → All IsWord ws
    → length ws < max_arg
    → length (spaced ws) < max_line - 1
    → getargs fuel (record { bytes = spaced ws ++ b'\n' ∷ rest; failed = failed })
      ≡ some (words ws, record { bytes = rest; failed = failed }, [])
unfolding getargs
getargs-words fuel ws rest failed h few fits =
    let inner = spaced-IsInner ws h in
    rw
      (
        fgets-line (max_line - 1) (spaced ws) rest inner fits,
        is_null-line (spaced ws) failed,
        before_nul-line (spaced ws) inner,
        has_newline-line (spaced ws),
        fill-spaced max_arg ws h few,
        leb_of_lt max_arg (length ws) few,
      )
      refl
