-- ===== src/Bitmap/Allocation.antt =====
-- `allocate_blocks` takes the first free blocks, all or none, and `free_blocks` gives them back.
use omni_file_system.Bitmap.Laws.{IsBitmap, bitmap_get-set, length-bitmap_set, bitmap_set-IsBitmap}
use omni_file_system.Bitmap.{
  scan_free, bitmap_get, bitmap_set, allocate_blocks, free_blocks, unset_all,
}
use omni_file_system.Prelude.Preds.{has, Ascending, All, Ascending-lower, All-mono, has-All}
use omni_file_system.Prelude.Bytes.{Bytes}
use omni_file_system.Prelude.{
  zero, suc, [], ◌∷◌, ℕ, arith, List, if◌then◌else◌, ◌≤◌, ◌+◌, ◌<◌, ◌*◌, ◌≡◌, length, refl, true,
  ◌-◌, Bool-cases, false, inl, ◌||◌, inr, min, ◌∙◌, ==_zero_pos, ◌&&◌, ◌==◌, le→leb, ltb, not,
}

-- The number of free blocks among the `left` bits from `i` on.
unfoldable pub count_free : ℕ → ℕ → Bytes → ℕ
count_free zero i bits = 0
count_free (suc left) i bits = (if bitmap_get bits i then 0 else 1) + count_free left (suc i) bits

count_free-congr :
    (left i : ℕ) (a b : Bytes)
    → ((j : ℕ) → i ≤ j → bitmap_get a j ≡ bitmap_get b j)
    → count_free left i a ≡ count_free left i b
unfolding count_free
count_free-congr zero i a b h = refl
count_free-congr (suc left) i a b h =
    ground (arith, h i, count_free-congr left (suc i) a b (λ j le. h j (omega arith)))

-- What the scan returns: free blocks in rising order, now marked, as many as wanted or as there are.
pub record Scanned (left i want : ℕ) (bits : Bytes) (out : List ℕ) (marked : Bytes) : Type 0 where
  pub ascending : Ascending i (i + left) out
  pub fresh : All (λ b. bitmap_get bits (b - 1) ≡ false) out
  pub marks : (j : ℕ) → bitmap_get marked j ≡ (bitmap_get bits j || has out (suc j))
  pub bytes : IsBitmap marked
  pub width : length marked ≡ length bits
  pub amount : length out ≡ min want (count_free left i bits)

Scanned-nothing : (i want : ℕ) (bits : Bytes) → IsBitmap bits → Scanned 0 i want bits [] bits
unfolding has count_free
Scanned-nothing i want bits v = record {
  ascending = tt;
  fresh = tt;
  marks = λ j. ground arith;
  bytes = v;
  width = refl;
  amount = omega arith;
}

Scanned-enough : (left i : ℕ) (bits : Bytes) → IsBitmap bits → Scanned left i 0 bits [] bits
unfolding has
Scanned-enough left i bits v = record {
  ascending = tt;
  fresh = tt;
  marks = λ j. ground arith;
  bytes = v;
  width = refl;
  amount = omega arith;
}

module _ {left i want : ℕ} {bits : Bytes} {out : List ℕ} {marked : Bytes} (v : IsBitmap bits) where
  Scanned-skipped :
      bitmap_get bits i ≡ true
      → Scanned left (suc i) (suc want) bits out marked
      → Scanned (suc left) i (suc want) bits out marked
  unfolding count_free
  Scanned-skipped used s =
      let e : suc i + left ≡ i + suc left = omega arith in
      record {
        ascending =
            Ascending-lower (suc i) i (i + suc left) out (omega arith) (rw (← e) s.ascending);
        fresh = s.fresh;
        marks = s.marks;
        bytes = s.bytes;
        width = s.width;
        amount = ground (arith, s.amount);
      }

  Scanned-taken :
      i < 8 * length bits
      → bitmap_get bits i ≡ false
      → Scanned left (suc i) want (bitmap_set bits i true) out marked
      → Scanned (suc left) i (suc want) bits ((i + 1) ∷ out) marked
  unfolding count_free has
  Scanned-taken inside free s =
      let e : suc i + left ≡ i + suc left = omega arith in
      let one : i + 1 ≡ suc i = omega arith in
      let get = bitmap_get-set bits i true v inside in
      let others =
        count_free-congr left (suc i) (bitmap_set bits i true) bits
          (λ j le. ground (arith, get j)) in
      record {
        ascending = (omega arith, omega arith, rw (one, ← e) s.ascending);
        fresh = (
          let z : i + 1 - 1 ≡ i = omega arith in rw z free,
          All-mono _ _ out (λ b h. ground (arith, get (b - 1))) s.fresh,
        );
        marks = λ j. ground (arith, s.marks j, get j);
        bytes = s.bytes;
        width = s.width ∙ length-bitmap_set bits i true;
        amount = ground (arith, s.amount, others);
      }

scan_free-Scanned :
    (left i want : ℕ) (bits : Bytes)
    → IsBitmap bits
    → i + left ≤ 8 * length bits
    → let r = scan_free left i want bits in Scanned left i want bits r.0 r.1
unfolding scan_free
scan_free-Scanned zero i want bits v h = Scanned-nothing i want bits v
scan_free-Scanned (suc left) i zero bits v h = Scanned-enough (suc left) i bits v
scan_free-Scanned (suc left) i (suc want) bits v h = elim (Bool-cases (bitmap_get bits i)) [
  | inl used ↦
      rw used
        (Scanned-skipped v used (scan_free-Scanned left (suc i) (suc want) bits v (omega arith)))
  | inr free ↦
      let inside : i < 8 * length bits = omega arith in
      let fits : suc i + left ≤ 8 * length (bitmap_set bits i true) =
        omega (arith, length-bitmap_set bits i true) in
      rw free (
        Scanned-taken v inside free (
          scan_free-Scanned left (suc i) want (bitmap_set bits i true)
            (bitmap_set-IsBitmap bits i true v inside) fits))
]

-- Clearing the bits of some blocks, all of them inside the bitmap.
unset_all-clears :
    (bs : List ℕ) (lo hi : ℕ) (bits : Bytes)
    → IsBitmap bits
    → hi ≤ 8 * length bits
    → Ascending lo hi bs
    → IsBitmap (unset_all bs bits)
      × ((j : ℕ) → bitmap_get (unset_all bs bits) j ≡ (bitmap_get bits j && not (has bs (suc j))))
unfolding unset_all has
unset_all-clears [] lo hi bits v h a = (v, λ j. ground arith)
unset_all-clears (b ∷ bs) lo hi bits v h a =
    let inside : b - 1 < 8 * length bits = omega arith in
    let width = length-bitmap_set bits (b - 1) false in
    let (v', get') =
      unset_all-clears bs b hi (bitmap_set bits (b - 1) false)
        (bitmap_set-IsBitmap bits (b - 1) false v inside) (omega (arith, width)) a.2 in
    (v', λ j. ground (arith, get' j, bitmap_get-set bits (b - 1) false v inside j))

-- `free_blocks` on valid numbers is that loop.
free_blocks-unset_all :
    (num_blocks : ℕ) (bs : List ℕ) (lo : ℕ) (bits : Bytes)
    → Ascending lo num_blocks bs
    → free_blocks num_blocks bs bits ≡ unset_all bs bits
unfolding free_blocks unset_all
free_blocks-unset_all num_blocks [] lo bits a = refl
free_blocks-unset_all num_blocks (b ∷ bs) lo bits a =
    let pos = ==_zero_pos b (omega arith) in
    let le = le→leb b num_blocks a.1 in
    rw (pos, le) (free_blocks-unset_all num_blocks bs b (bitmap_set bits (b - 1) false) a.2)

module _ (num_blocks n : ℕ) (bits : Bytes) (v : IsBitmap bits)
    (h : num_blocks ≤ 8 * length bits) where
  abbrev scanned : List ℕ × Bytes
  scanned = scan_free num_blocks 0 n bits

  scanned_lem : Scanned num_blocks 0 n bits scanned.0 scanned.1
  scanned_lem = scan_free-Scanned num_blocks 0 n bits v (omega arith)

  rises : Ascending 0 num_blocks scanned.0
  rises = let e : 0 + num_blocks ≡ num_blocks = omega arith in rw e at scanned_lem.ascending

  -- What `free_blocks` or the rollback leaves after the scan reads as before it.
  unset_scanned : (j : ℕ) → bitmap_get (unset_all scanned.0 scanned.1) j ≡ bitmap_get bits j
  unset_scanned j =
      let s = scanned_lem in
      let u =
        unset_all-clears scanned.0 0 num_blocks scanned.1 s.bytes (omega (arith, s.width)) rises in
      let f = has-All (λ b. bitmap_get bits (b - 1) ≡ false) scanned.0 (suc j) s.fresh in
      let z : suc j - 1 ≡ j = omega arith in
      let f' : has scanned.0 (suc j) ≡ true → bitmap_get bits j ≡ false = λ e. rw z at (f e) in
      ground (arith, u.1 j, s.marks j, f')

  -- On a bitmap of bytes with a bit for every block: with at least `n` blocks free,
  -- `allocate_blocks` returns `n` of them in rising order, none of them in use before, marks
  -- exactly these, and keeps the bitmap's length.
  pub allocate_blocks_enough :
      n ≤ count_free num_blocks 0 bits
      → let r = allocate_blocks num_blocks n bits in
        (length r.0 ≡ n)
        × Ascending 0 num_blocks r.0
        × All (λ b. bitmap_get bits (b - 1) ≡ false) r.0
        × ((j : ℕ) → bitmap_get r.1 j ≡ (bitmap_get bits j || has r.0 (suc j)))
        × IsBitmap r.1
        × (length r.1 ≡ length bits)
  unfolding allocate_blocks has
  allocate_blocks_enough enough = elim (Bool-cases (n == 0)) [
    | inl none ↦ rw none (ground arith, tt, tt, λ j. ground arith, v, refl)
    | inr some ↦
        let s = scanned_lem in
        let all : ltb (length scanned.0) n ≡ false = ground (arith, s.amount) in
        rw (some, all) (omega (arith, s.amount), rises, s.fresh, s.marks, s.bytes, s.width)
  ]

  -- On a bitmap of bytes with a bit for every block: with fewer than `n` blocks free,
  -- `allocate_blocks` returns none, and every bit reads as before.
  pub allocate_blocks_short :
      count_free num_blocks 0 bits < n
      → let r = allocate_blocks num_blocks n bits in
        (r.0 ≡ []) × ((j : ℕ) → bitmap_get r.1 j ≡ bitmap_get bits j)
  unfolding allocate_blocks
  allocate_blocks_short short =
      let s = scanned_lem in
      let some = ==_zero_pos n (omega arith) in
      let few : ltb (length scanned.0) n ≡ true = ground (arith, s.amount) in
      rw (some, few) (refl, unset_scanned)

  -- On a bitmap of bytes with a bit for every block: freeing what `allocate_blocks` returned
  -- gives back the bitmap, bit for bit.
  pub free_blocks-allocate_blocks :
      let r = allocate_blocks num_blocks n bits in
      (j : ℕ) → bitmap_get (free_blocks num_blocks r.0 r.1) j ≡ bitmap_get bits j
  unfolding allocate_blocks
  free_blocks-allocate_blocks j = elim (Bool-cases (n == 0)) [
    | inl none ↦ rw none (unfold free_blocks in refl)
    | inr some ↦ elim (Bool-cases (ltb (length scanned.0) n)) [
      | inl few ↦ rw (some, few) (unfold free_blocks in unset_scanned j)
      | inr all ↦
          rw (some, all)
            (rw (free_blocks-unset_all num_blocks scanned.0 0 scanned.1 rises) (unset_scanned j))
    ]
  ]
