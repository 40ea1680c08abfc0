-- ===== src/Locks.antt =====
-- basic_io/lock.c: the name of the file that stands for a lock.
mod Tests
use unix_study.Prelude.{
  length-append, [], ◌∷◌, ◌++◌, ◌>>=◌, none, some, true, false, inl, inr, refl, arith, sym, ap, ◌∙◌,
  ◌≡◌, ◌<◌, ◌≤◌, ◌+◌, ◌-◌, ◌↔◌, if◌then◌else◌, ltb, leb, Option, ℕ, Bytes, codes, length,
  Bool-cases,
}
use unix_study.Prelude.{take, take-all, take-length, take-front}

abbrev pub lockdir : Bytes
lockdir = codes "/tmp/"

abbrev pub path_size : ℕ
path_size = 100

-- `snprintf` with two strings: what is in the array of `size` bytes, and the length that the whole would
-- have.
abbrev pub snprintf : ℕ → Bytes → Bytes → Bytes × ℕ
snprintf size a b = (take (size - 1) (a ++ b), length (a ++ b))

-- `lockpath`; `none` is NULL.
unfoldable pub lockpath : Bytes → Option Bytes
lockpath name =
    let (path, n) = snprintf path_size lockdir name in if ltb path_size n then none else some path

lockpath-short :
    (name : Bytes) → length name ≤ 95 → lockpath name ≡ some (take 99 (lockdir ++ name))
unfolding lockpath
lockpath-short name h =
    let fits : ltb 100 (length (lockdir ++ name)) ≡ false = ground arith in rw fits refl

lockpath-long : (name : Bytes) → 95 < length name → lockpath name ≡ none
unfolding lockpath
lockpath-long name h =
    let long : ltb 100 (length (lockdir ++ name)) ≡ true = ground arith in rw long refl

-- `lockpath` gives the path of the lock exactly if its name has 94 bytes at most; a name with one byte
-- more is not refused, and gives the path of the lock whose name is without that byte.
pub lockpath_iff :
    (name : Bytes)
    → ((lockpath name ≡ some (lockdir ++ name)) ↔ (length name ≤ 94))
      × ((c : ℕ) → length name ≡ 94 → lockpath (name ++ c ∷ []) ≡ lockpath name)
lockpath_iff name = (
  (
    λ e. elim (Bool-cases (leb (length name) 95)) [
      | inl short ↦
          let known = lockpath-short name (ground arith) in
          let same : take 99 (lockdir ++ name) ≡ lockdir ++ name = cc in
          let h = take-length 99 (lockdir ++ name) in let l = ap length same in omega (arith, h, l)
      | inr long ↦ let l = lockpath-long name (ground arith) in cc
    ],
    λ h.
        lockpath-short name (omega (arith, h))
        ∙ ap some (take-all 99 (lockdir ++ name) (omega (arith, h))),
  ),
  λ c h.
      let l = length-append name (c ∷ []) in
      lockpath-short (name ++ c ∷ []) (omega (arith, h, l))
      ∙ ap some (
          take-front 99 (lockdir ++ name) (c ∷ []) (omega (arith, h))
          ∙ sym (take-all 99 (lockdir ++ name) (omega (arith, h))))
      ∙ sym (lockpath-short name (omega (arith, h))),
)
