-- ===== src/Terminal/Tests.antt =====
-- Keys typed to terminal/read_char.c.
use unix_study.Prelude.{[], ◌∷◌, ◌++◌, ◌>>=◌, some, true, arith, ◌≡◌, List}
use unix_study.Terminal.{
  Termios, Answer, end_of_file, got, main, main-before_esc, raw, lines, tcsetattr, before_esc,
}

abbrev cooked : Termios
cooked = record { icanon = true; echo = true; others = 7 }

-- A letter, a byte that is negative, the end of the input, escape, and a key behind it.
abbrev keys : List Answer
keys = got b'a' ∷ got 0xff ∷ end_of_file ∷ got 27 ∷ got b'b' ∷ []

main-before_esc_example : main cooked keys ≡ (
    before_esc keys >>= λ front.
    some (tcsetattr (raw cooked) ∷ (lines front ++ tcsetattr cooked ∷ [])))
main-before_esc_example = main-before_esc cooked keys (ground arith)
