-- ===== src/Locks/Tests.antt =====
-- Names of locks of basic_io/lock.c.
use unix_study.Prelude.{[], ◌∷◌, ◌++◌, some, ◌≡◌, ◌≤◌, ◌↔◌, ℕ, Bytes, length, replicate}
use unix_study.Locks.{lockpath, lockdir, lockpath_iff}

-- A name that just fits.
abbrev longest : Bytes
longest = replicate 94 b'x'

lockpath_iff_example :
    ((lockpath longest ≡ some (lockdir ++ longest)) ↔ (length longest ≤ 94))
    × ((c : ℕ) → length longest ≡ 94 → lockpath (longest ++ c ∷ []) ≡ lockpath longest)
lockpath_iff_example = lockpath_iff longest
