-- ===== src/Examples/Storage.antt =====
-- Blocks, the bitmap and the byte substitution on small inputs.
use omni_file_system.Blocks.RoundTrip.{read_block-write_block_apart, read_block-write_block}
use omni_file_system.Bitmap.Allocation.{
  allocate_blocks_short, free_blocks-allocate_blocks, count_free, allocate_blocks_enough,
}
use omni_file_system.Prelude.Preds.{Ascending, All, has}
use omni_file_system.Codec.{decode_data, encode_data, encoding_initialized}
use omni_file_system.Codec.RoundTrip.{IsCode, decode_data_last, decode_data-encode_data}
use omni_file_system.Bitmap.{
  allocate_blocks, bitmap_get, free_blocks, scan_free, bitmap_set, bit_of, with_bit,
}
use omni_file_system.Bitmap.Laws.{IsBitmap}
use omni_file_system.Prelude.Bytes.{Bytes, codes}
use omni_file_system.Blocks.{read_block, write_block, filled}
use omni_file_system.Blocks.Laws.{IsPlaced}
use omni_file_system.Stream.Laws.{IsSound}
use omni_file_system.Stream.{Fstream, IoState}
use omni_file_system.Prelude.{
  zero, suc, ◌∷◌, [], ℕ, arith, get_or, length, ◌+◌, ◌<◌, Bool-cases, refl, replicate, ◌%◌, ◌≡◌, ap,
  false, ltb, ◌∙◌, inl, true, ltb→lt, ◌-◌, inr, take, ◌||◌, ◌≤◌, get_or_beyond,
}

-- A new file on a device that refuses nothing.
abbrev blank : Fstream
blank = record {
  byte = λ _. 0;
  extent = 0;
  position = 0;
  state = IoState.good;
  faults = λ _. false;
  clock = 0;
}

blank-IsSound : IsSound blank
blank-IsSound = record { is_good_state = refl; reliable = λ n. refl }

second-IsPlaced : IsPlaced 1000 128 2
second-IsPlaced = omega arith

third-IsPlaced : IsPlaced 1000 128 3
third-IsPlaced = omega arith

read_block-write_block_example :
    (read_block 1000 128 2 (write_block 1000 128 2 3 (codes "hello") blank).1).0
    ≡ record { ok = true; next = 3; payload = filled 124 (take 124 (codes "hello")) }
read_block-write_block_example =
    read_block-write_block second-IsPlaced 3 (codes "hello") blank-IsSound (omega arith)

-- A file of 2000 bytes.
abbrev long : Fstream
long = record blank { extent = 2000 }

long-IsSound : IsSound long
long-IsSound = record { is_good_state = refl; reliable = λ n. refl }

read_block-write_block_apart_example :
    (read_block 1000 128 3 (write_block 1000 128 2 3 (codes "hello") long).1).0
    ≡ (read_block 1000 128 3 long).0
read_block-write_block_apart_example =
    read_block-write_block_apart second-IsPlaced third-IsPlaced 3 (codes "hello") long-IsSound
      (omega arith) (omega arith)

-- Blocks 1 and 3 of 16 are in use.
abbrev two_used : Bytes
two_used = 5 ∷ 0 ∷ []

two_used_byte : (k : ℕ) → get_or two_used k 0 < 256
two_used_byte zero = omega arith
two_used_byte (suc zero) = omega arith
two_used_byte (suc (suc k)) = omega arith

two_used-IsBitmap : IsBitmap two_used
two_used-IsBitmap = record { byte = two_used_byte }

three_blocks : allocate_blocks 16 3 two_used ≡ (2 ∷ 4 ∷ 5 ∷ [], 31 ∷ 0 ∷ [])
unfolding allocate_blocks scan_free bitmap_get bitmap_set bit_of with_bit
three_blocks = refl

allocate_blocks_enough_example :
    let r = allocate_blocks 16 3 two_used in
    (length r.0 ≡ 3)
    × Ascending 0 16 r.0
    × All (λ b. bitmap_get two_used (b - 1) ≡ false) r.0
    × ((j : ℕ) → bitmap_get r.1 j ≡ (bitmap_get two_used j || has r.0 (suc j)))
    × IsBitmap r.1
    × (length r.1 ≡ 2)
allocate_blocks_enough_example =
    allocate_blocks_enough 16 3 two_used two_used-IsBitmap (omega arith)
      (unfold count_free bitmap_get bit_of in omega arith)

allocate_blocks_short_example :
    let r = allocate_blocks 16 15 two_used in
    (r.0 ≡ []) × ((j : ℕ) → bitmap_get r.1 j ≡ bitmap_get two_used j)
allocate_blocks_short_example =
    allocate_blocks_short 16 15 two_used two_used-IsBitmap (omega arith)
      (unfold count_free bitmap_get bit_of in omega arith)

free_blocks-allocate_blocks_example :
    bitmap_get
      (free_blocks 16 (allocate_blocks 16 3 two_used).0 (allocate_blocks 16 3 two_used).1)
      3
    ≡ bitmap_get two_used 3
free_blocks-allocate_blocks_example =
    free_blocks-allocate_blocks 16 3 two_used two_used-IsBitmap (omega arith) 3

pub tabulate : (ℕ → ℕ) → ℕ → ℕ → Bytes
tabulate f zero i = []
tabulate f (suc n) i = f i ∷ tabulate f n (suc i)

get_or-tabulate : (f : ℕ → ℕ) (n i k : ℕ) → k < n → get_or (tabulate f n i) k 0 ≡ f (i + k)
unfolding tabulate
get_or-tabulate f zero i k h = absurd (omega arith)
get_or-tabulate f (suc n) i zero h = let z : i + 0 ≡ i = omega arith in rw z
get_or-tabulate f (suc n) i (suc k) h =
    let z : i + suc k ≡ suc i + k = omega arith in
    rw z (get_or-tabulate f n (suc i) k (omega arith))

length-tabulate : (f : ℕ → ℕ) (n i : ℕ) → length (tabulate f n i) ≡ n
unfolding tabulate
length-tabulate f zero i = refl
length-tabulate f (suc n) i = ap suc (length-tabulate f n (suc i))

-- Every byte is moved on by one.
abbrev shift : ℕ → ℕ
shift k = (k + 1) % 256

abbrev pub shifted : Bytes
shifted = tabulate shift 256 0

shifted_at : (k : ℕ) → k < 256 → get_or shifted k 0 ≡ shift k
shifted_at k h = get_or-tabulate shift 256 0 k h ∙ (let z : 0 + k ≡ k = omega arith in rw z)

pub shifted-IsCode : IsCode shifted
shifted-IsCode = record {
  code_byte = λ i. elim (Bool-cases (ltb i 256)) [
    | inl lt ↦ omega (arith, shifted_at i (ltb→lt i 256 lt))
    | inr ge ↦
        let far : 256 ≤ i = ground arith in
        omega (arith, get_or_beyond shifted i 0 (omega (arith, length-tabulate shift 256 0)))
  ];
  code_injective = λ on i j hi hj e. omega (arith, shifted_at i hi, shifted_at j hj);
}

decode_data-encode_data_example :
    decode_data shifted (encode_data shifted (codes "hello")) ≡ codes "hello"
decode_data-encode_data_example =
    decode_data-encode_data shifted (codes "hello") shifted-IsCode (omega arith)

abbrev constant : Bytes
constant = replicate 256 7

constant_byte : (n j : ℕ) → get_or (replicate n 7) j 0 < 256
constant_byte zero j = omega arith
constant_byte (suc n) zero = omega arith
constant_byte (suc n) (suc j) = constant_byte n j

decode_data_last_example :
    decode_data constant (encode_data constant (codes "hi"))
    ≡ 255 ∷ decode_data constant (encode_data constant (codes "i"))
decode_data_last_example =
    decode_data_last constant (codes "i") b'h' 255 (unfold encoding_initialized in refl)
      (constant_byte 256) (omega arith) refl (λ j after below. absurd (omega arith))
