-- ===== src/Terminal.antt =====
-- terminal/read_char.c: the keys that are typed, one at a time, up to the escape key.
mod Tests
pub mod Names
pub mod Reading
use unix_study.Prelude.{
  [], ◌∷◌, ◌++◌, ◌>>=◌, none, some, false, inl, inr, refl, arith, ap, ◌∙◌, ◌≡◌, ◌<◌, ◌+◌, ◌-◌, ◌==◌,
  if◌then◌else◌, ltb, Bool, Option, List, ℕ, All, Bool-cases, Option-cases,
}
use unix_study.Prelude.{ℤ, pos, negsuc}

abbrev pub esc : ℕ
esc = 27

-- An answer of `read` for one byte.
pub data Answer : Type 0 where
  failed end_of_file : Answer
  got : ℕ → Answer

-- A `char` with a sign, as an `int`.
abbrev pub of_char : ℕ → ℤ
of_char c = if ltb c 0x80 then pos c else negsuc (0xff - c)

-- `getch`: the `default` of its `switch` goes on into `case -1`.
abbrev pub getch : Answer → ℤ
getch failed = negsuc 0
getch end_of_file = negsuc 0
getch (got c) = of_char c

-- The settings of the terminal: two of its flags, and all others.
pub record Termios : Type 0 where
  pub icanon : Bool
  pub echo : Bool
  pub others : ℕ

pub data Event : Type 0 where
  tcsetattr : Termios → Event
  type_line : ℤ → Event

abbrev pub is_esc : ℤ → Bool
is_esc (pos n) = n == esc
is_esc (negsuc n) = false

-- The loop, over the answers of `read` that are to come, with what follows it. `none` still waits for an
-- answer.
unfoldable pub loop : Termios → List Answer → Option (List Event)
loop oldt [] = none
loop oldt (a ∷ rest) =
    let later = loop oldt rest in
    if is_esc (getch a)
    then some (tcsetattr oldt ∷ [])
    else (do es ← later; some (type_line (getch a) ∷ es))

abbrev pub raw : Termios → Termios
raw t = record t { icanon = false; echo = false }

unfoldable pub main : Termios → List Answer → Option (List Event)
main oldt answers = do es ← loop oldt answers; some (tcsetattr (raw oldt) ∷ es)

-- The answers in front of the escape key, if it is typed.
abbrev pub before_esc : List Answer → Option (List Answer)
before_esc [] = none
before_esc (failed ∷ rs) = before_esc rs >>= λ front. some (failed ∷ front)
before_esc (end_of_file ∷ rs) = before_esc rs >>= λ front. some (end_of_file ∷ front)
before_esc (got c ∷ rs) =
    if c == esc then some [] else (before_esc rs >>= λ front. some (got c ∷ front))

abbrev pub IsByte : Answer → Type 0
IsByte failed = Unit {0}
IsByte end_of_file = Unit {0}
IsByte (got c) = c < 0x100

abbrev pub lines : List Answer → List Event
lines [] = []
lines (a ∷ rs) = type_line (getch a) ∷ lines rs

abbrev closing : Termios → List Answer → List Event
closing oldt front = lines front ++ tcsetattr oldt ∷ []

of_char-esc : (c : ℕ) → c < 0x100 → is_esc (of_char c) ≡ (c == esc)
of_char-esc c h = ground arith

abbrev line_of : Answer → List Event → Option (List Event)
line_of a es = some (type_line (getch a) ∷ es)

closing-line :
    (oldt : Termios) (a : Answer) (o : Option (List Answer))
    → (o >>= λ front. some (closing oldt front)) >>= line_of a
      ≡ (o >>= λ front. some (a ∷ front)) >>= λ front. some (closing oldt front)
closing-line oldt a none = refl
closing-line oldt a (some front) = refl

loop-before_esc :
    (oldt : Termios) (rs : List Answer)
    → All IsByte rs
    → loop oldt rs ≡ (before_esc rs >>= λ front. some (closing oldt front))
unfolding loop
loop-before_esc oldt [] h = refl
loop-before_esc oldt (failed ∷ rs) h =
    ap (λ o. o >>= line_of failed) (loop-before_esc oldt rs h.1)
    ∙ closing-line oldt failed (before_esc rs)
loop-before_esc oldt (end_of_file ∷ rs) h =
    ap (λ o. o >>= line_of end_of_file) (loop-before_esc oldt rs h.1)
    ∙ closing-line oldt end_of_file (before_esc rs)
loop-before_esc oldt (got c ∷ rs) h = elim (Bool-cases (c == esc)) [
  | inl e ↦ rw (of_char-esc c h.0, e) refl
  | inr e ↦
      rw (of_char-esc c h.0, e)
        (ap (λ o. o >>= line_of (got c)) (loop-before_esc oldt rs h.1)
          ∙ closing-line oldt (got c) (before_esc rs))
]

-- For any answers of `read`, failures and the end of the input among them: the program ends exactly if
-- the escape key is typed. It has then printed one line for each answer in front of it, in order, and
-- has set the terminal back to what it was.
pub main-before_esc :
    (oldt : Termios) (rs : List Answer)
    → All IsByte rs
    → main oldt rs ≡ (
        before_esc rs >>= λ front.
        some (tcsetattr (raw oldt) ∷ (lines front ++ tcsetattr oldt ∷ [])))
unfolding main
main-before_esc oldt rs h =
    ap (λ o. o >>= λ es. some (tcsetattr (raw oldt) ∷ es)) (loop-before_esc oldt rs h)
    ∙ elim (Option-cases (before_esc rs)) [ inl e ↦ rw e refl | inr (front, e) ↦ rw e refl ]
