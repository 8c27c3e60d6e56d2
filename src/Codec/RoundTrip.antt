-- ===== src/Codec/RoundTrip.antt =====
-- `decode_data` after `encode_data`.
use omni_file_system.Prelude.Preds.{All, All-mono}
use omni_file_system.Codec.{decode_data, invert, encode_data, encoding_initialized}
use omni_file_system.Prelude.Bytes.{Bytes}
use omni_file_system.Prelude.{
  zero, suc, [], ◌∷◌, inl, inr, ℕ, arith, get_or, length, ◌<◌, ◌≡◌, set, ◌+◌, ◌≤◌, Bool-cases, true,
  ◌∙◌, ◌≢◌, length-set, ◌==◌, ==_iff, get_or-set, refl, ap, map, replicate,
}

-- The array holds 256 bytes, and if it is in use, no two bytes have one code.
pub record IsCode (encoding_map : Bytes) : Type 0 where
  pub code_byte : (i : ℕ) → get_or encoding_map i 0 < 256
  pub code_injective :
      encoding_initialized encoding_map ≡ true
      → (i j : ℕ) → i < 256
      → j < 256
      → get_or encoding_map i 0 ≡ get_or encoding_map j 0
      → i ≡ j

abbrev pub AreBytes : Bytes → Type 0
AreBytes = All (λ b. b < 256)

length-invert :
    (encoding_map : Bytes) (left i : ℕ) (inv : Bytes)
    → length (invert encoding_map left i inv) ≡ length inv
unfolding invert
length-invert encoding_map zero i inv = refl
length-invert encoding_map (suc left) i inv =
    length-invert encoding_map left (suc i) (set inv (get_or encoding_map i 0) i)
    ∙ length-set inv (get_or encoding_map i 0) i

module _ (encoding_map : Bytes) where
  -- An entry that no later round writes stays.
  invert-keeps :
      (left i : ℕ) (inv : Bytes) (c : ℕ)
      → length inv ≡ 256
      → ((j : ℕ) → get_or encoding_map j 0 < 256)
      → ((j : ℕ) → i ≤ j → j < i + left → get_or encoding_map j 0 ≢ c)
      → get_or (invert encoding_map left i inv) c 0 ≡ get_or inv c 0
  unfolding invert
  invert-keeps zero i inv c len byte other = refl
  invert-keeps (suc left) i inv c len byte other =
      let p = get_or encoding_map i 0 in
      let w = length-set inv p i in
      let rest =
        invert-keeps left (suc i) (set inv p i) c (w ∙ len) byte
          (λ j le lt. other j (omega arith) (omega arith)) in
      let s = get_or-set inv p c i 0 (omega (arith, byte i)) in
      let d = other i (omega arith) (omega arith) in rw (rest, s) (ground arith)

  -- The code of the last byte that has it leads back to this byte.
  invert-finds :
      (left i : ℕ) (inv : Bytes) (x : ℕ)
      → length inv ≡ 256
      → i + left ≡ 256
      → ((j : ℕ) → get_or encoding_map j 0 < 256)
      → ((j : ℕ) → x < j → j < 256 → get_or encoding_map j 0 ≢ get_or encoding_map x 0)
      → i ≤ x
      → x < 256
      → get_or (invert encoding_map left i inv) (get_or encoding_map x 0) 0 ≡ x
  unfolding invert
  invert-finds zero i inv x len e byte last lo hi = absurd (omega arith)
  invert-finds (suc left) i inv x len e byte last lo hi = elim (Bool-cases (i == x)) [
    | inl here ↦
        let same = (==_iff i x).0 here in
        let c = get_or encoding_map x 0 in
        let p = get_or encoding_map i 0 in
        let w = length-set inv p i in
        let pc : p ≡ c = ap (λ k. get_or encoding_map k 0) same in
        let rest =
          invert-keeps left (suc i) (set inv p i) c (w ∙ len) byte
            (λ j le lt. last j (omega arith) (omega arith)) in
        let s = get_or-set inv p c i 0 (omega (arith, byte i)) in rest ∙ ground (arith, s)
    | inr there ↦
        let p = get_or encoding_map i 0 in
        invert-finds left (suc i) (set inv p i) x (length-set inv p i ∙ len) (omega arith) byte last
          (ground arith) hi
  ]

map_id : (f g : ℕ → ℕ) (xs : Bytes) → All (λ x. f (g x) ≡ x) xs → map f (map g xs) ≡ xs
map_id f g [] h = refl
map_id f g (x ∷ xs) h = cc (h.0, map_id f g xs h.1)

-- For content of bytes and a substitution of bytes that, if it is in use, sends no two bytes to
-- one code: `decode_data` undoes `encode_data`.
pub decode_data-encode_data :
    (encoding_map content : Bytes)
    → IsCode encoding_map
    → AreBytes content
    → decode_data encoding_map (encode_data encoding_map content) ≡ content
unfolding decode_data encode_data
decode_data-encode_data encoding_map content code bytes =
    elim (Bool-cases (encoding_initialized encoding_map)) [
      | inr off ↦ rw off
      | inl on ↦
          let zeros : Bytes = replicate 256 0 in
          let inv = invert encoding_map 256 0 zeros in
          let finds = λ (x : ℕ) (lt : x < 256).
            invert-finds encoding_map 256 0 zeros x refl refl code.code_byte
              (λ j after below clash.
                let e = code.code_injective on j x below lt clash in absurd (omega arith))
              (omega arith) lt in
          rw on (
            map_id (λ b. get_or inv b 0) (λ b. get_or encoding_map b 0) content
              (All-mono (λ b. b < 256) _ content finds bytes))
    ]

-- With a substitution of bytes in use, when `y` is the last byte with the code of `x`:
-- `decode_data` of encoded content that begins with `x` begins with `y`, and goes on with the
-- decoding of the rest.
pub decode_data_last :
    (encoding_map content : Bytes) (x y : ℕ)
    → encoding_initialized encoding_map ≡ true
    → ((j : ℕ) → get_or encoding_map j 0 < 256)
    → y < 256
    → get_or encoding_map x 0 ≡ get_or encoding_map y 0
    → ((j : ℕ) → y < j → j < 256 → get_or encoding_map j 0 ≢ get_or encoding_map y 0)
    → decode_data encoding_map (encode_data encoding_map (x ∷ content))
      ≡ y ∷ decode_data encoding_map (encode_data encoding_map content)
unfolding decode_data encode_data
decode_data_last encoding_map content x y on byte below same last =
    let zeros : Bytes = replicate 256 0 in
    let back = invert-finds encoding_map 256 0 zeros y refl refl byte last (omega arith) below in
    rw (on, same, back) refl
