-- ===== src/Prelude/Int.antt =====
-- i64 values as integers; the code only compares, prints and parses them.
use Prim.Native.Nat.{ℕ}

-- `negsuc n` is -(n + 1).
pub data ℤ : Type 0 where
  pos : ℕ → ℤ
  negsuc : ℕ → ℤ
