-- ===== src/Bitmap/Laws.antt =====
-- The bitmap as a set of bits: what `bitmap_set` changes.
use omni_file_system.Bitmap.Bits.{bit_of-with_bit}
use omni_file_system.Bitmap.{bitmap_set, bitmap_get, with_bit, free_blocks}
use omni_file_system.Prelude.Bytes.{Bytes}
use omni_file_system.Prelude.{
  ℕ, arith, Bool, get_or, length, ◌<◌, ◌*◌, ◌≡◌, length-set, ◌/◌, if◌then◌else◌, ◌%◌, ◌==◌,
  get_or-set, List, [], ◌∷◌, ◌∙◌, refl, Bool-cases, inl, inr, not, ◌&&◌, leb, ◌-◌, false,
}

-- Every element is a byte.
pub record IsBitmap (bits : Bytes) : Type 0 where
  pub byte : (k : ℕ) → get_or bits k 0 < 256

module _ (bits : Bytes) (i : ℕ) (v : Bool) (h : IsBitmap bits) (inside : i < 8 * length bits) where
  pub bitmap_get-set :
      (j : ℕ) → bitmap_get (bitmap_set bits i v) j ≡ (if i == j then v else bitmap_get bits j)
  unfolding bitmap_get bitmap_set
  bitmap_get-set j =
      let old = get_or bits (i / 8) 0 in
      let new = with_bit old (i % 8) v in
      ground (
        arith,
        get_or-set bits (i / 8) (j / 8) new 0,
        bit_of-with_bit v (i % 8) (j % 8) old,
        h.byte (i / 8),
      )

  pub bitmap_set-IsBitmap : IsBitmap (bitmap_set bits i v)
  unfolding bitmap_set
  bitmap_set-IsBitmap = record {
    byte = λ k.
        let old = get_or bits (i / 8) 0 in
        let new = with_bit old (i % 8) v in
        ground (
          arith,
          get_or-set bits (i / 8) k new 0,
          bit_of-with_bit v (i % 8) 0 old,
          h.byte (i / 8),
          h.byte k,
        );
  }

pub length-bitmap_set :
    (bits : Bytes) (i : ℕ) (v : Bool) → length (bitmap_set bits i v) ≡ length bits
unfolding bitmap_set
length-bitmap_set bits i v = length-set bits (i / 8) _

pub length-free_blocks :
    (num_blocks : ℕ) (bs : List ℕ) (bits : Bytes)
    → length (free_blocks num_blocks bs bits) ≡ length bits
unfolding free_blocks
length-free_blocks num_blocks [] bits = refl
length-free_blocks num_blocks (b ∷ bs) bits = elim (Bool-cases (not (b == 0) && leb b num_blocks)) [
  | inl here ↦ rw here (
      length-free_blocks num_blocks bs (bitmap_set bits (b - 1) false)
      ∙ length-bitmap_set bits (b - 1) false)
  | inr outside ↦ rw outside (length-free_blocks num_blocks bs bits)
]
