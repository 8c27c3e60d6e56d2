-- ===== src/Bitmap.antt =====
-- The free-space bitmap of source/core/ofs_core.cpp: `bitmap_get`, `bitmap_set`, `allocate_blocks`,
-- `free_blocks`. A set bit marks a block in use; block numbers count from 1, bits from 0.
pub mod Bits
pub mod Laws
pub mod Allocation
use Prim.Native.Nat.{bit_and, bit_or}
use omni_file_system.Prelude.Bytes.{Bytes}
use omni_file_system.Prelude.{
  zero, suc, [], ◌∷◌, ℕ, arith, Bool, List, get_or, if◌then◌else◌, not, set, true, ◌-◌, false, ◌+◌,
  ◌/◌, ◌==◌, ltb, ◌%◌, ◌&&◌, ◌^◌, leb, length,
}

-- One byte under a mask: `bits[byte_idx] & mask`, `|= mask`, `&= ~mask`.
unfoldable pub bit_of : ℕ → ℕ → Bool
bit_of byte i = not (bit_and byte (2 ^ i) == 0)

unfoldable pub with_bit : ℕ → ℕ → Bool → ℕ
with_bit byte i v = if v then bit_or byte (2 ^ i) else bit_and byte (255 - 2 ^ i)

unfoldable pub bitmap_get : Bytes → ℕ → Bool
bitmap_get bits idx = bit_of (get_or bits (idx / 8) 0) (idx % 8)

unfoldable pub bitmap_set : Bytes → ℕ → Bool → Bytes
bitmap_set bits idx v = set bits (idx / 8) (with_bit (get_or bits (idx / 8) 0) (idx % 8) v)

-- The scan of `allocate_blocks` from bit `i` on, with `left` bits before `num_blocks` and `want`
-- blocks still missing.
unfoldable pub scan_free : ℕ → ℕ → ℕ → Bytes → List ℕ × Bytes
scan_free zero i want bits = ([], bits)
scan_free (suc left) i zero bits = ([], bits)
scan_free (suc left) i (suc want) bits =
    let taken =
      (let (out, bits') = scan_free left (suc i) want (bitmap_set bits i true) in
        let r : List ℕ × Bytes = ((i + 1) ∷ out, bits') in r) in
    let skipped = scan_free left (suc i) (suc want) bits in
    if not (bitmap_get bits i) then taken else skipped

-- `for (uint32_t b : out) bitmap_set(free_bitmap, b - 1, false)`.
unfoldable pub unset_all : List ℕ → Bytes → Bytes
unset_all [] bits = bits
unset_all (b ∷ bs) bits = unset_all bs (bitmap_set bits (b - 1) false)

-- All `n` blocks, or none and the bits taken so far given back.
unfoldable pub allocate_blocks : ℕ → ℕ → Bytes → List ℕ × Bytes
allocate_blocks num_blocks n bits =
    if n == 0
    then ([], bits)
    else (let (out, bits') = scan_free num_blocks 0 n bits in
        if ltb (length out) n then ([], unset_all out bits') else (out, bits'))

-- Numbers that name no block are passed over.
unfoldable pub free_blocks : ℕ → List ℕ → Bytes → Bytes
free_blocks num_blocks [] bits = bits
free_blocks num_blocks (b ∷ bs) bits =
    free_blocks num_blocks bs
      (if not (b == 0) && leb b num_blocks then bitmap_set bits (b - 1) false else bits)
