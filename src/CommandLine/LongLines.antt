-- ===== src/CommandLine/LongLines.antt =====
-- `getargs` of process/cl.c on a line of any length.
use unix_study.Prelude.{
  zero, suc, [], ◌∷◌, ◌++◌, some, false, inl, inr, refl, arith, ◌≡◌, ◌<◌, ◌≤◌, ◌-◌, if◌then◌else◌,
  ltb, Bool, List, ℕ, Bytes, length, All, Bool-cases,
}
use unix_study.CommandLine.{
  Args, ignored, Event, line_too_long, max_line, max_arg, fgets, is_null, before_nul, has_newline,
  eat_rest, fill, taken, answered, getargs,
}
use unix_study.CommandLine.Words.{
  fgets-line, before_nul-line, has_newline-line, is_null-line, IsInner,
}

-- A line that does not fit the buffer: what `fgets` takes of it, and what is left.
record TakenOff (n : ℕ) (l : Bytes) (rest : Bytes) : Type 0 where
  front : Bytes
  back : Bytes
  fgets_is : fgets n (l ++ b'\n' ∷ rest) ≡ (front, back ++ b'\n' ∷ rest, false)
  no_newline : has_newline (before_nul front) ≡ false
  inner : All IsInner back
  shorter : length back ≤ length l

fgets-long : (n : ℕ) (l rest : Bytes) → All IsInner l → n ≤ length l → TakenOff n l rest
unfolding fgets has_newline before_nul
fgets-long zero l rest h le = record {
  front = [];
  back = l;
  fgets_is = refl;
  no_newline = refl;
  inner = h;
  shorter = omega arith;
}
fgets-long (suc n) [] rest h le = elim le [ ]
fgets-long (suc n) (c ∷ l) rest h le =
    let t = fgets-long n l rest h.1 (omega arith) in
    record {
      front = c ∷ t.front;
      back = t.back;
      fgets_is = ground (arith, t.fgets_is, h.0);
      no_newline = ground (arith, t.no_newline, h.0);
      inner = t.inner;
      shorter = omega (arith, t.shorter);
    }

eat_rest-line :
    (fuel : ℕ) (l rest : Bytes)
    → All IsInner l
    → length l < fuel
    → eat_rest fuel (l ++ b'\n' ∷ rest) ≡ some rest
unfolding eat_rest
eat_rest-line zero l rest h lt = elim lt [ ]
eat_rest-line (suc fuel) [] rest h lt = ground arith
eat_rest-line (suc fuel) (c ∷ l) rest h lt =
    ground (arith, eat_rest-line fuel l rest h.1 (omega arith), h.0)

is_null-more : (cmd : Bytes) (failed : Bool) → is_null cmd false failed ≡ false
is_null-more [] failed = refl
is_null-more (c ∷ cs) failed = refl

-- What `getargs` says to a line: its words, of which it takes twenty at most, or that it is too long.
abbrev pub line_args : Bytes → Args × List Event
line_args l =
    if ltb (length l) (max_line - 1)
    then taken (fill max_arg (l ++ b'\n' ∷ []))
    else (ignored, line_too_long ∷ [])

pub getargs-line :
    (fuel : ℕ) (l rest : Bytes) (failed : Bool)
    → All IsInner l
    → length l < fuel
    → getargs fuel (record { bytes = l ++ b'\n' ∷ rest; failed = failed })
      ≡ some (answered (record { bytes = rest; failed = failed }) (line_args l))
unfolding getargs
getargs-line fuel l rest failed h lt = elim (Bool-cases (ltb (length l) (max_line - 1))) [
  | inl fits ↦
      rw
        (
          fgets-line (max_line - 1) l rest h (ground arith),
          is_null-line l failed,
          before_nul-line l h,
          has_newline-line l,
          fits,
        )
        refl
  | inr long ↦
      let t = fgets-long (max_line - 1) l rest h (ground arith) in
      rw
        (
          t.fgets_is,
          is_null-more t.front failed,
          t.no_newline,
          eat_rest-line fuel t.back rest t.inner (omega (arith, t.shorter)),
          long,
        )
        refl
]
