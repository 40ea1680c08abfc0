-- ===== src/Prelude/Integers.antt =====
-- The integers of C, over native numbers.
use Prim.Native.Nat.{ℕ}

pub data ℤ : Type 0 where
  pos negsuc : ℕ → ℤ
