-- ===== src/Prelude/Int.antt =====
-- Signed integers over the native numbers, as far as the timestamps need them.
use Prim.Native.Nat.{ℕ}

-- `negsuc n` is -(n + 1).
pub data ℤ : Type 0 where
  pos : ℕ → ℤ
  negsuc : ℕ → ℤ

-- `t.max(0) as u64`.
abbrev pub clamp_u64 : ℤ → ℕ
clamp_u64 (pos n) = n
clamp_u64 (negsuc n) = 0
