-- ===== src/Date.antt =====
-- fundamental_ex/date.c: the time zone and the year.
mod Tests
use native.Mathlib.Nat.{pow-suc}
use unix_study.Prelude.{
  false, ◌&&◌, Bool, ◌%◌, ◌/◌, ◌^◌, ◌*◌, zero, suc, [], ◌∷◌, ◌++◌, ◌>>=◌, true, inl, inr, refl,
  arith, ap, ◌∙◌, ◌≡◌, ◌<◌, ◌≤◌, ◌+◌, ◌-◌, if◌then◌else◌, ltb, ℕ, Bytes, length, Bool-cases,
}
use unix_study.Prelude.{ℤ, pos, negsuc, take, take-all}

abbrev pub digit : ℕ → ℕ
digit n = n % 10 + b'0'

-- The digits of a number in front of a text; more fuel than the number is enough.
unfoldable pub digits : ℕ → ℕ → Bytes → Bytes
digits zero n text = text
digits (suc fuel) n text =
    let longer = digits fuel (n / 10) (digit n ∷ text) in
    if ltb n 10 then digit n ∷ text else longer

abbrev pub decimal : ℕ → Bytes
decimal n = digits (suc n) n []

-- `%d`.
abbrev pub decimal_of : ℤ → Bytes
decimal_of (pos n) = decimal n
decimal_of (negsuc n) = b'-' ∷ decimal (suc n)

-- A year from one that counts from 1900.
abbrev pub year_of : ℤ → ℤ
year_of (pos n) = pos (n + 1900)
year_of (negsuc n) = if ltb n 1900 then pos (1899 - n) else negsuc (n - 1900)

-- `get_year` into an array of `n` bytes.
unfoldable pub get_year : ℤ → ℕ → Bytes
get_year tm_year n = take (n - 1) (decimal_of (year_of tm_year))

-- `tm_gmtoff / 3600`, which is cut towards zero.
abbrev pub negative : ℕ → ℤ
negative zero = pos 0
negative (suc n) = negsuc n

abbrev pub hours : ℤ → ℤ
hours (pos s) = pos (s / 3600)
hours (negsuc s) = negative (suc s / 3600)

-- `%+03li`: a sign, and two digits at least.
abbrev pub pad : Bytes → Bytes
pad text = if ltb (length text) 2 then b'0' ∷ text else text

abbrev pub signed : ℤ → Bytes
signed (pos n) = b'+' ∷ pad (decimal n)
signed (negsuc n) = b'-' ∷ pad (decimal (suc n))

unfoldable pub get_tz : ℤ → ℕ → Bytes
get_tz tm_gmtoff n = take (n - 1) (signed (hours tm_gmtoff))

-- What `main` prints, with its arrays `year` and `tz`.
unfoldable pub main : ℤ → ℤ → Bytes
main tm_year tm_gmtoff = get_tz tm_gmtoff 4 ++ b' ' ∷ (get_year tm_year 5 ++ b' ' ∷ b'\n' ∷ [])

-- Numbers as they are read.
unfoldable pub number : ℕ → Bytes → ℕ
number n [] = n
number n (c ∷ cs) = number (n * 10 + (c - b'0')) cs

number-digits :
    (fuel n : ℕ) (text : Bytes) → n < fuel → number 0 (digits fuel n text) ≡ number n text
unfolding number digits
number-digits zero n text h = elim h [ ]
number-digits (suc fuel) n text h = elim (Bool-cases (ltb n 10)) [
  | inl small ↦
      let same : 0 + (n % 10 + b'0' - b'0') ≡ n = ground arith in
      rw small (ap (λ m. number m text) same)
  | inr large ↦
      let less : n / 10 < fuel = ground arith in
      let same : n / 10 * 10 + (n % 10 + b'0' - b'0') ≡ n = omega arith in
      rw large (number-digits fuel (n / 10) (digit n ∷ text) less ∙ ap (λ m. number m text) same)
]

digits-length :
    (k fuel n : ℕ) (text : Bytes)
    → n < 10 ^ suc k
    → length (digits fuel n text) ≤ suc k + length text
unfolding digits
digits-length k zero n text h = omega arith
digits-length zero (suc fuel) n text h =
    let small : ltb n 10 ≡ true = ground (arith, h) in rw small (omega arith)
digits-length (suc k) (suc fuel) n text h = elim (Bool-cases (ltb n 10)) [
  | inl small ↦ rw small (omega arith)
  | inr large ↦
      let p = pow-suc 10 (suc k) in
      let less : n / 10 < 10 ^ suc k = omega (arith, h, p) in
      let d = digits-length k fuel (n / 10) (digit n ∷ text) less in rw large (omega (arith, d))
]

decimal-length : (k n : ℕ) → n < 10 ^ suc k → length (decimal n) ≤ suc k
decimal-length k n h = let d = digits-length k (suc n) n [] h in omega (arith, d)

number-decimal : (n : ℕ) → number 0 (decimal n) ≡ n
unfolding number
number-decimal n = number-digits (suc n) n [] (omega arith)

-- A year as it is counted from 1900, and an offset west or east of Greenwich.
abbrev pub since_1900 : ℕ → ℤ
since_1900 year = if ltb year 1900 then negsuc (1899 - year) else pos (year - 1900)

abbrev pub offset : Bool → ℕ → ℤ
offset true seconds = negative seconds
offset false seconds = pos seconds

-- Hours below 100, as two digits behind a sign.
abbrev pub clock : Bool → ℕ → Bytes
clock west h = (if west && ltb 0 h then b'-' else b'+') ∷ (h / 10 + b'0') ∷ (h % 10 + b'0') ∷ []

year_of-since_1900 : (year : ℕ) → year_of (since_1900 year) ≡ pos year
year_of-since_1900 year = ground arith

hours-negative : (n : ℕ) → hours (negative n) ≡ negative (n / 3600)
hours-negative zero = refl
hours-negative (suc n) = refl

hours-offset :
    (west : Bool) (h s : ℕ) → s < 3600 → hours (offset west (h * 3600 + s)) ≡ offset west h
hours-offset true h s lt =
    let whole : (h * 3600 + s) / 3600 ≡ h = omega (arith, lt) in
    hours-negative (h * 3600 + s) ∙ ap negative whole
hours-offset false h s lt =
    let whole : (h * 3600 + s) / 3600 ≡ h = omega (arith, lt) in ap pos whole

two_digits : (h : ℕ) → h < 100 → pad (decimal h) ≡ (h / 10 + b'0') ∷ (h % 10 + b'0') ∷ []
unfolding digits
two_digits zero lt = refl
two_digits (suc n) lt = elim (Bool-cases (ltb (suc n) 10)) [
  | inl small ↦
      let first : b'0' ≡ suc n / 10 + b'0' = ground (arith, small) in
      rw small (ap (λ d. d ∷ (suc n % 10 + b'0') ∷ []) first)
  | inr large ↦
      let last : ltb (suc n / 10) 10 ≡ true = ground (arith, lt) in
      let first : suc n / 10 % 10 + b'0' ≡ suc n / 10 + b'0' = ground (arith, lt) in
      rw (large, last) (ap (λ d. d ∷ (suc n % 10 + b'0') ∷ []) first)
]

signed-offset : (west : Bool) (h : ℕ) → h < 100 → signed (offset west h) ≡ clock west h
signed-offset true zero lt = ap (◌∷◌ b'+') (two_digits zero lt)
signed-offset true (suc h) lt =
    let positive : ltb 0 (suc h) ≡ true = ground arith in
    rw positive (ap (◌∷◌ b'-') (two_digits (suc h) lt))
signed-offset false h lt = ap (◌∷◌ b'+') (two_digits h lt)

-- For a time zone of h hours and s seconds, less than an hour, and h below 100, the program prints two
-- digits for h, behind a minus if the zone is west of Greenwich by an hour or more and a plus otherwise;
-- and then for one of the years 0 to 9999, which it is given as it is counted from 1900, digits that read
-- as that year.
pub main-read :
    (west : Bool) (h s year : ℕ)
    → h < 100
    → s < 3600
    → year < 10000
    → (y : Bytes) × (main (since_1900 year) (offset west (h * 3600 + s))
        ≡ clock west h ++ b' ' ∷ (y ++ b' ' ∷ b'\n' ∷ []))
      × (number 0 y ≡ year)
unfolding main get_tz get_year
main-read west h s year small lt le =
    let zone : signed (hours (offset west (h * 3600 + s))) ≡ clock west h =
      ap signed (hours-offset west h s lt) ∙ signed-offset west h small in
    let three : take 3 (signed (hours (offset west (h * 3600 + s)))) ≡ clock west h =
      ap (take 3) zone ∙ take-all 3 (clock west h) (omega arith) in
    let four : take 4 (decimal_of (year_of (since_1900 year))) ≡ decimal year =
      ap (λ y. take 4 (decimal_of y)) (year_of-since_1900 year)
      ∙ take-all 4 (decimal year) (decimal-length 3 year le) in
    (decimal year, λ i. three i ++ b' ' ∷ (four i ++ b' ' ∷ b'\n' ∷ []), number-decimal year)
