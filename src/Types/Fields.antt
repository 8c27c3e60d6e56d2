-- ===== src/Types/Fields.antt =====
-- Integers among the bytes of a packed struct.
use native.Mathlib.Nat.{pow-suc}
use omni_file_system.Prelude.{
  ℕ, zero, suc, ◌/◌, ◌^◌, ◌<◌, ◌≡◌, ap, ◌∙◌, ◌++◌, arith, take, drop, take-append_left,
  drop-append_left,
}
use omni_file_system.Prelude.Bytes.{Bytes}
use omni_file_system.Prelude.Words.{to_le, from_le, length-to_le}

-- The integer in the first `n` bytes.
unfoldable pub field_le : ℕ → Bytes → ℕ
field_le n bs = from_le (take n bs)

pub from_le-to_le : (n v : ℕ) → v < 256 ^ n → from_le (to_le n v) ≡ v
unfolding from_le to_le
from_le-to_le zero v h = omega arith
from_le-to_le (suc n) v h = omega (arith, from_le-to_le n (v / 256) (omega (arith, pow-suc 256 n)))

module _ (n v : ℕ) (rest : Bytes) where
  pub field_le-append : v < 256 ^ n → field_le n (to_le n v ++ rest) ≡ v
  unfolding field_le
  field_le-append h =
      ap from_le (take-append_left n (to_le n v) rest (length-to_le n v)) ∙ from_le-to_le n v h

  pub drop-to_le : drop n (to_le n v ++ rest) ≡ rest
  drop-to_le = drop-append_left n (to_le n v) rest (length-to_le n v)
