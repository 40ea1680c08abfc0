-- ===== src/Terminal/Reading.antt =====
-- terminal/r.c: one `read` of the standard input into memory that was not set.
use unix_study.Prelude.{
  c_string, zero, suc, [], ◌∷◌, ◌++◌, ◌>>=◌, none, some, inl, inr, refl, arith, ◌≡◌, ◌≢◌, ◌≤◌,
  Option, List, ℕ, Bytes, length, All, Option-cases,
}
use unix_study.Shell.Table.{stdin_fileno}

-- The system: the memory that `malloc` gives, where `none` is NULL; the bytes that `read` stores, where
-- `none` is -1, for the number of bytes that it may store; and what is then in `errno`.
pub record Os : Type 0 where
  pub malloc : ℕ → Option Bytes
  pub read : ℕ → Option Bytes
  pub errno : ℕ

pub data Line : Type 0 where
  descriptor : ℕ → Line
  error : ℕ → Line
  text : Bytes → Line
  count : Option ℕ → Line

-- What is in an array behind a call that stores bytes at its start.
unfoldable pub overwrite : Bytes → Bytes → Bytes
overwrite [] memory = memory
overwrite (c ∷ cs) [] = []
overwrite (c ∷ cs) (x ∷ memory) = c ∷ overwrite cs memory

abbrev pub stored : Option Bytes → Bytes
stored none = []
stored (some cs) = cs

abbrev pub counted : Option Bytes → Option ℕ
counted none = none
counted (some cs) = some (length cs)

-- `none` is undefined behaviour: there was no memory, or no NUL in it.
unfoldable pub main : Os → Option (List Line)
main os = do
  memory ← os.malloc 100
  let got = os.read 99
  s ← c_string (overwrite (stored got) memory)
  some (descriptor stdin_fileno ∷ error os.errno ∷ text s ∷ count (counted got) ∷ [])

-- The memory behind the first `n` bytes.
unfoldable pub past : ℕ → Bytes → Bytes
past zero memory = memory
past (suc n) [] = []
past (suc n) (x ∷ memory) = past n memory

-- A string in front of another, if there is one.
abbrev pub in_front : Bytes → Option Bytes → Option Bytes
in_front cs none = none
in_front cs (some old) = some (cs ++ old)

c_string-overwrite :
    (cs memory : Bytes)
    → All (λ c. c ≢ 0) cs
    → length cs ≤ length memory
    → c_string (overwrite cs memory) ≡ in_front cs (c_string (past (length cs) memory))
unfolding overwrite past c_string
c_string-overwrite [] memory plain fits = elim (Option-cases (c_string memory)) [
  | inl e ↦ rw e refl
  | inr (old, e) ↦ rw e refl
]
c_string-overwrite (c ∷ cs) [] plain fits = elim fits [ ]
c_string-overwrite (c ∷ cs) (x ∷ memory) plain fits = ground (
  arith,
  plain.0,
  c_string-overwrite cs memory plain.1 (omega arith),
  Option-cases (c_string (past (length cs) memory)),
)

-- What is printed for `n` bytes and the string that the array holds behind them.
abbrev printed : Os → Bytes → Option Bytes → Option (List Line)
printed os cs none = none
printed os cs (some old) =
    some
      (descriptor stdin_fileno ∷ error os.errno ∷ text (cs ++ old) ∷ count (some (length cs)) ∷ [])

printed-in_front :
    (os : Os) (cs : Bytes) (o s : Option Bytes)
    → s ≡ in_front cs o
    → (do
      t ← s
      some (descriptor stdin_fileno ∷ error os.errno ∷ text t ∷ count (some (length cs)) ∷ []))
      ≡ printed os cs o
printed-in_front os cs none s e = rw e refl
printed-in_front os cs (some old) s e = rw e refl

-- The bytes that were read, without NUL and no more than the memory has, are printed together with what
-- it held behind them, up to its first NUL; if it holds none, the behaviour is undefined.
pub main-printed :
    (os : Os) (memory cs : Bytes)
    → os.malloc 100 ≡ some memory
    → os.read 99 ≡ some cs
    → All (λ c. c ≢ 0) cs
    → length cs ≤ length memory
    → main os ≡ printed os cs (c_string (past (length cs) memory))
unfolding main
main-printed os memory cs m r plain fits =
    rw (m, r)
      (printed-in_front os cs (c_string (past (length cs) memory)) (c_string (overwrite cs memory))
        (c_string-overwrite cs memory plain fits))
