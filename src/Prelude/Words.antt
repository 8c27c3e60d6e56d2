-- ===== src/Prelude/Words.antt =====
-- Fixed-width unsigned integers: wrap-around, and their little-endian bytes in the container file.
use omni_file_system.Prelude.{
  ℕ, zero, suc, ◌+◌, ◌-◌, ◌*◌, ◌/◌, ◌%◌, ◌^◌, ◌<◌, ◌≡◌, refl, ap, [], ◌∷◌, arith, length,
}
use omni_file_system.Prelude.Bytes.{Bytes}

-- Conversion to `uint8_t`, `uint32_t`, `uint64_t`.
abbrev pub u8 : ℕ → ℕ
u8 n = n % 2 ^ 8

abbrev pub u32 : ℕ → ℕ
u32 n = n % 2 ^ 32

abbrev pub u64 : ℕ → ℕ
u64 n = n % 2 ^ 64

-- `a - b` on `uint64_t`.
abbrev pub sub_u64 : ℕ → ℕ → ℕ
sub_u64 a b = (a + 2 ^ 64 - b) % 2 ^ 64

-- The `n` bytes of an integer in memory.
unfoldable pub to_le : ℕ → ℕ → Bytes
to_le zero v = []
to_le (suc n) v = (v % 256) ∷ to_le n (v / 256)

unfoldable pub from_le : Bytes → ℕ
from_le [] = 0
from_le (b ∷ bs) = b + 256 * from_le bs

pub length-to_le : (n v : ℕ) → length (to_le n v) ≡ n
unfolding to_le
length-to_le zero v = refl
length-to_le (suc n) v = ap suc (length-to_le n (v / 256))

-- A 32-bit integer survives the way through its bytes.
pub from_le-to_le_4 : (v : ℕ) → v < 2 ^ 32 → from_le (to_le 4 v) ≡ v
unfolding from_le to_le
from_le-to_le_4 v h = omega arith
