-- ===== src/Prelude/Int.antt =====
-- Signed integers, as `int` return codes.
use omni_file_system.Prelude.{ℕ}

-- `negsuc n` is -(n + 1).
pub data ℤ : Type 0 where
  pos : ℕ → ℤ
  negsuc : ℕ → ℤ
