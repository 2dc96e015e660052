-- ===== src/Base/Ints.antt =====
-- Signed machine integers, as far as the sign decides.
use Prim.Native.Nat.{ℕ}

-- `negsuc n` stands for - (n + 1).
pub data ℤ : Type 0 where
  pos : ℕ → ℤ
  negsuc : ℕ → ℤ
