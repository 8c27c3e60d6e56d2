-- ===== src/Bitmap/Bits.antt =====
-- Reading a bit of a byte after a bit of it was set or cleared, by a table over all bytes.
use omni_file_system.Bitmap.{bit_of, with_bit}
use omni_file_system.Prelude.{
  zero, suc, ℕ, arith, Bool, false, true, not, ◌&&◌, ◌≡◌, ltb, refl, ◌<◌, if◌then◌else◌, ◌==◌,
}

-- Every number less than the bound passes the test, tried from the top.
passes : (ℕ → Bool) → ℕ → Bool
passes test zero = true
passes test (suc bound) = if test bound then passes test bound else false

-- A number less than the bound passes.
pick : (test : ℕ → Bool) (bound i : ℕ) → i < bound → passes test bound ≡ true → test i ≡ true
unfolding passes
pick test zero i below e = absurd (omega arith)
pick test (suc bound) i below e = ground (arith, pick test bound i)

abbrev same : Bool → Bool → Bool
same true b = b
same false b = not b

-- The byte stays a byte, bit `i` becomes `v`, and bit `j` stays if it is another.
row : Bool → ℕ → ℕ → ℕ → Bool
unfolding bit_of with_bit
row v i j byte =
    let r = with_bit byte i v in
    ltb r 256 && same (bit_of r j) (if i == j then v else bit_of byte j)

table : Bool → Bool
unfolding passes row
table v = passes (λ i. passes (λ j. passes (row v i j) 256) 8) 8

table-true : table true ≡ true
unfolding table
table-true = refl

table-false : table false ≡ true
unfolding table
table-false = refl

table_lem : (v : Bool) → table v ≡ true
table_lem true = table-true
table_lem false = table-false

row_lem : (v : Bool) (i j byte : ℕ) → i < 8 → j < 8 → byte < 256 → row v i j byte ≡ true
unfolding table
row_lem v i j byte hi hj hb =
    let column = pick (λ k. passes (λ l. passes (row v k l) 256) 8) 8 i hi (table_lem v) in
    let cell = pick (λ l. passes (row v i l) 256) 8 j hj column in pick (row v i j) 256 byte hb cell

-- Setting or clearing one bit of a byte gives a byte, in which only that bit has changed.
pub bit_of-with_bit :
    (v : Bool) (i j byte : ℕ)
    → i < 8
    → j < 8
    → byte < 256
    → (with_bit byte i v < 256)
      × (bit_of (with_bit byte i v) j ≡ (if i == j then v else bit_of byte j))
unfolding row
bit_of-with_bit v i j byte hi hj hb = ground (arith, row_lem v i j byte hi hj hb)
