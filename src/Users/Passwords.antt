-- ===== src/Users/Passwords.antt =====
-- `placeholder_hash`: what is stored for a password.
use mathlib.Core.List.{append_assoc}
use native.Mathlib.Nat.{pow-suc}
use omni_file_system.Prelude.{
  ℕ, zero, suc, ◌+◌, ◌-◌, ◌*◌, ◌/◌, ◌%◌, ◌^◌, ◌<◌, ◌≤◌, ◌≡◌, ◌≢◌, ◌==◌, refl, ap, sym, ◌∙◌, true,
  false, Bool-cases, inl, inr, [], ◌∷◌, ◌++◌, arith, length, length-append, length-replicate,
  replicate, ltb,
}
use omni_file_system.Prelude.Bytes.{Bytes, IsText}
use omni_file_system.Prelude.Text.{IsText-append, IsText-replicate}
use omni_file_system.Users.{hex_digit, hex_digits, placeholder_hash}

hex_digit_pos : (d : ℕ) → 0 < hex_digit d
hex_digit_pos d = ground arith

hex_digits-append : (fuel v : ℕ) (acc : Bytes) → hex_digits fuel v acc ≡ hex_digits fuel v [] ++ acc
unfolding hex_digits
hex_digits-append zero v acc = refl
hex_digits-append (suc fuel) v acc =
    let d = hex_digit (v % 16) in
    let more = hex_digits-append fuel (v / 16) (d ∷ acc) in
    let one = hex_digits-append fuel (v / 16) (d ∷ []) in
    elim (Bool-cases (v / 16 == 0)) [
      | inl done ↦ rw done
      | inr go ↦ rw (go, more, one, append_assoc)
    ]

length-hex_digits-le :
    (fuel v : ℕ) (acc : Bytes) → length (hex_digits fuel v acc) ≤ fuel + length acc
unfolding hex_digits
length-hex_digits-le zero v acc = omega arith
length-hex_digits-le (suc fuel) v acc =
    ground (arith, length-hex_digits-le fuel (v / 16) (hex_digit (v % 16) ∷ acc))

pub IsText-cons : (c : ℕ) (s : Bytes) → 0 < c → IsText s → IsText (c ∷ s)
IsText-cons zero s h k = absurd (omega arith)
IsText-cons (suc c) s h k = k

IsText-hex_digits : (fuel v : ℕ) (acc : Bytes) → IsText acc → IsText (hex_digits fuel v acc)
unfolding hex_digits
IsText-hex_digits zero v acc h = h
IsText-hex_digits (suc fuel) v acc h =
    let d = hex_digit (v % 16) in
    let k = IsText-cons d acc (hex_digit_pos (v % 16)) h in
    elim (Bool-cases (v / 16 == 0)) [
      | inl done ↦ rw done k
      | inr go ↦ rw go (IsText-hex_digits fuel (v / 16) (d ∷ acc) k)
    ]

hex_digits_go :
    (fuel v : ℕ) (acc : Bytes)
    → v / 16 == 0 ≡ false
    → hex_digits (suc fuel) v acc ≡ hex_digits fuel (v / 16) (hex_digit (v % 16) ∷ acc)
unfolding hex_digits
hex_digits_go fuel v acc go = rw go

hex_digits_done :
    (fuel v : ℕ) (acc : Bytes)
    → v / 16 == 0 ≡ true
    → hex_digits (suc fuel) v acc ≡ hex_digit (v % 16) ∷ acc
unfolding hex_digits
hex_digits_done fuel v acc done = rw done

-- Fuel beyond the digits changes nothing.
hex_digits-fuel :
    (fuel v : ℕ) (acc : Bytes)
    → 0 < fuel
    → v < 16 ^ fuel
    → hex_digits (suc fuel) v acc ≡ hex_digits fuel v acc
hex_digits-fuel zero v acc pos h = absurd (omega arith)
hex_digits-fuel (suc zero) v acc pos h =
    let done : v / 16 == 0 ≡ true = ground arith in
    hex_digits_done 1 v acc done ∙ sym (hex_digits_done 0 v acc done)
hex_digits-fuel (suc (suc fuel)) v acc pos h = elim (Bool-cases (v / 16 == 0)) [
  | inl done ↦
      hex_digits_done (suc (suc fuel)) v acc done ∙ sym (hex_digits_done (suc fuel) v acc done)
  | inr go ↦
      let small : v / 16 < 16 ^ suc fuel = omega (arith, pow-suc 16 (suc fuel)) in
      hex_digits_go (suc (suc fuel)) v acc go
      ∙ hex_digits-fuel (suc fuel) (v / 16) (hex_digit (v % 16) ∷ acc) (omega arith) small
      ∙ sym (hex_digits_go (suc fuel) v acc go)
]

-- Sixteen times the number has one more digit, a zero.
hex_digits-times :
    (v : ℕ) → 0 < v → 16 * v < 2 ^ 64 → hex_digits 16 (16 * v) [] ≡ hex_digits 16 v [] ++ b'0' ∷ []
hex_digits-times v pos h =
    let q : 16 * v / 16 ≡ v = omega arith in
    let r : 16 * v % 16 ≡ 0 = omega arith in
    let go : 16 * v / 16 == 0 ≡ false = ground arith in
    let small : v < 16 ^ 15 = omega arith in
    hex_digits_go 15 (16 * v) [] go
    ∙ rw (q, r)
        (sym (hex_digits-fuel 15 v (b'0' ∷ []) (omega arith) small)
          ∙ hex_digits-append 16 v (b'0' ∷ []))

module _ (hash : Bytes → ℕ) where
  -- The hash that is kept has 64 characters, none of them NUL.
  pub placeholder_hash_shape :
      (s : Bytes) → (length (placeholder_hash hash s) ≡ 64) × IsText (placeholder_hash hash s)
  unfolding placeholder_hash
  placeholder_hash_shape s =
      let out = hex_digits 16 (hash s) [] in
      let short = length-hex_digits-le 16 (hash s) [] in
      let less : ltb (length out) 64 ≡ true = ground arith in
      rw less (
        omega (
          arith,
          length-append out (replicate (64 - length out) b'0'),
          length-replicate {A = ℕ} (64 - length out) b'0',
        ),
        IsText-append out (replicate (64 - length out) b'0') (IsText-hex_digits 16 (hash s) [] tt)
            (IsText-replicate (64 - length out) b'0' (omega arith)),
      )

  stored_digits :
      (s : Bytes)
      → placeholder_hash hash s
        ≡ hex_digits 16 (hash s) [] ++ replicate (64 - length (hex_digits 16 (hash s) [])) b'0'
  unfolding placeholder_hash
  stored_digits s =
      let short = length-hex_digits-le 16 (hash s) [] in
      let less : ltb (length (hex_digits 16 (hash s) [])) 64 ≡ true = ground arith in rw less

  -- When `std::hash` gives one password a nonzero value and another one sixteen times that
  -- value, below 2^64, the two values differ, and the stored hashes are equal.
  pub placeholder_hash_collision :
      (p q : Bytes)
      → 0 < hash p
      → hash q ≡ 16 * hash p
      → hash q < 2 ^ 64
      → (hash p ≢ hash q) × (placeholder_hash hash p ≡ placeholder_hash hash q)
  placeholder_hash_collision p q pos e h =
      let out = hex_digits 16 (hash p) [] in
      let longer = hex_digits-times (hash p) pos (omega arith) in
      let short = length-hex_digits-le 15 (hash p) [] in
      let same = hex_digits-fuel 15 (hash p) [] (omega arith) (omega arith) in
      let n : length (out ++ b'0' ∷ []) ≡ suc (length out) =
        omega (arith, length-append out (b'0' ∷ [])) in
      let room : 64 - length out ≡ suc (64 - suc (length out)) =
        omega (arith, short, ap length same) in
      (omega arith, rw (stored_digits p, stored_digits q, e, longer, n, room, append_assoc))
