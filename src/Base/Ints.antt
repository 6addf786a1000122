-- ===== src/Base/Ints.antt =====
-- The integers over the native numbers, for the results of C functions that are signed.
use Prim.Native.Nat.{ℕ}

-- `pos n` is n, `negsuc n` is -(n + 1).
pub data ℤ : Type 0 where
  pos : ℕ → ℤ
  negsuc : ℕ → ℤ
