-- ===== src/Date/Tests.antt =====
-- Dates of fundamental_ex/date.c.
use unix_study.Prelude.{◌*◌, ◌+◌, true, [], ◌∷◌, ◌++◌, arith, ◌≡◌, Bytes}
use unix_study.Date.{main, main-read, number, since_1900, offset, clock}

-- Half past three hours west of Greenwich, in 2020.
main-read_example :
    (y : Bytes) × (main (since_1900 2020) (offset true (3 * 3600 + 1800))
      ≡ clock true 3 ++ b' ' ∷ (y ++ b' ' ∷ b'\n' ∷ []))
    × (number 0 y ≡ 2020)
main-read_example = main-read true 3 1800 2020 (omega arith) (omega arith) (omega arith)
