-- ===== src/Codec.antt =====
-- The byte substitution of source/core/ofs_core.cpp: `encoding_initialized`, `encode_data`, `decode_data`.
-- `encoding_map` is the instance's array of 256 bytes; an all-zero map means no encoding.
pub mod RoundTrip
use omni_file_system.Prelude.Bytes.{Bytes}
use omni_file_system.Prelude.{
  zero, suc, [], ◌∷◌, ℕ, arith, Bool, if◌then◌else◌, set, false, get_or, map, replicate, not, ◌==◌,
  ◌||◌,
}

unfoldable pub encoding_initialized : Bytes → Bool
encoding_initialized [] = false
encoding_initialized (b ∷ bs) = not (b == 0) || encoding_initialized bs

unfoldable pub encode_data : Bytes → Bytes → Bytes
encode_data encoding_map content =
    if encoding_initialized encoding_map
    then map (λ b. get_or encoding_map b 0) content
    else content

-- `for (i …) inv[encoding_map[i]] = i`, with `left` rounds to go.
unfoldable pub invert : Bytes → ℕ → ℕ → Bytes → Bytes
invert encoding_map zero i inv = inv
invert encoding_map (suc left) i inv =
    invert encoding_map left (suc i) (set inv (get_or encoding_map i 0) i)

unfoldable pub decode_data : Bytes → Bytes → Bytes
decode_data encoding_map content =
    if encoding_initialized encoding_map
    then (let inv = invert encoding_map 256 0 (replicate 256 0) in
        map (λ b. get_or inv b 0) content)
    else content
