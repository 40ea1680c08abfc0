-- ===== src/Shell/Table/Check.antt =====
-- What `fd_check` finds.
use unix_study.Prelude.{ℕ, zero, suc, ◌+◌, ◌≤◌, ◌<◌, ◌≡◌, ◌↔◌, none, [], refl, arith}
use unix_study.Shell.Table.{Table, open_from, fd_check}

open_from_sound :
    (t : Table) (n fd k : ℕ) → open_from t n fd ≡ [] → fd ≤ k → k < fd + n → t k ≡ none
unfolding open_from
open_from_sound t zero fd k h le lt = absurd (omega arith)
open_from_sound t (suc n) fd k h le lt = ground (arith, open_from_sound t n (fd + 1) k)

open_from_complete :
    (t : Table) (n fd : ℕ) → ((k : ℕ) → fd ≤ k → k < fd + n → t k ≡ none) → open_from t n fd ≡ []
unfolding open_from
open_from_complete t zero fd h = refl
open_from_complete t (suc n) fd h =
    rw (h fd (omega arith) (omega arith))
      (open_from_complete t n (fd + 1) λ k le lt. h k (omega arith) (omega arith))

-- `fd_check` lets the process go on exactly when none of the descriptors 3 to 19 is open.
pub fd_check_iff : (t : Table) → (fd_check t ≡ []) ↔ ((k : ℕ) → 3 ≤ k → k < 20 → t k ≡ none)
unfolding fd_check
fd_check_iff t = (λ h k le lt. open_from_sound t 17 3 k h le lt, λ h. open_from_complete t 17 3 h)
