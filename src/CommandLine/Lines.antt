-- ===== src/CommandLine/Lines.antt =====
-- What `getargs` makes of a line.
use unix_study.Prelude.{
  ◌-◌, [], refl, zero, arith, ◌≡◌, ◌∷◌, ◌≢◌, All, Bool, Bytes, false, none, suc, ℕ,
}
use unix_study.CommandLine.{is_null, max_line, has_newline, before_nul, fgets, eat_rest, getargs}

-- Without a newline the loop does not end.
eat_rest-none : (fuel : ℕ) (bytes : Bytes) → All (λ c. c ≢ b'\n') bytes → eat_rest fuel bytes ≡ none
unfolding eat_rest
eat_rest-none zero bytes h = refl
eat_rest-none (suc fuel) [] h = eat_rest-none fuel [] tt
eat_rest-none (suc fuel) (c ∷ cs) h = ground (arith, eat_rest-none fuel cs h.1, h.0)

fgets-rest :
    (n : ℕ) (bytes : Bytes)
    → All (λ c. c ≢ b'\n') bytes
    → All (λ c. c ≢ b'\n') (fgets n bytes).1 × (has_newline (before_nul (fgets n bytes).0) ≡ false)
unfolding fgets has_newline before_nul
fgets-rest zero bytes h = (h, refl)
fgets-rest (suc n) [] h = (tt, refl)
fgets-rest (suc n) (c ∷ cs) h = let r = fgets-rest n cs h.1 in ground (arith, r.0, r.1, h.0)

fgets-is_null :
    (n c : ℕ) (bytes : Bytes) (at_end : Bool)
    → is_null (fgets (suc n) (c ∷ bytes)).0 at_end false ≡ false
unfolding fgets
fgets-is_null n c bytes at_end = ground arith

-- A last line that is not empty, that no newline ends and that is read without an error is never
-- answered, although the end of the file is reached: `getargs` runs out of any fuel.
pub getargs_unterminated :
    (fuel : ℕ) (c : ℕ) (bytes : Bytes)
    → All (λ c. c ≢ b'\n') (c ∷ bytes)
    → getargs fuel (record { bytes = c ∷ bytes; failed = false }) ≡ none
unfolding getargs
getargs_unterminated fuel c bytes h =
    let (none_left, none_read) = fgets-rest (max_line - 1) (c ∷ bytes) h in
    rw (fgets-is_null 198 c bytes _, none_read, eat_rest-none fuel _ none_left) refl
