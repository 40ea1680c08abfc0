-- ===== src/Smi/Server/Upper.antt =====
-- The loop over `smi_data` on a buffer that holds a string.
use unix_study.Prelude.{
  suc, [], ◌∷◌, ◌++◌, some, refl, arith, ap, ◌≡◌, ◌≢◌, ℕ, Bytes, length, All, map,
}
use unix_study.Smi.Server.{toupper, upper}

toupper-nonzero : (c : ℕ) → c ≢ 0 → toupper c ≢ 0
unfolding toupper
toupper-nonzero c h = ground arith

pub upper-string :
    (w tail : Bytes) → All (λ c. c ≢ 0) w → upper (w ++ 0 ∷ tail) ≡ some (map toupper w ++ 0 ∷ tail)
unfolding upper
upper-string [] tail h = refl
upper-string (c ∷ w) tail h = ground (arith, upper-string w tail h.1, h.0)

pub All-toupper : (w : Bytes) → All (λ c. c ≢ 0) w → All (λ c. c ≢ 0) (map toupper w)
All-toupper [] h = tt
All-toupper (c ∷ w) h = (toupper-nonzero c h.0, All-toupper w h.1)

pub length-map-toupper : (w : Bytes) → length (map toupper w) ≡ length w
length-map-toupper [] = refl
length-map-toupper (c ∷ w) = ap suc (length-map-toupper w)
