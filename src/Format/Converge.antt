-- ===== src/Format/Converge.antt =====
-- Every other configuration is settled: two rounds in a row bring the bitmap size closer to its
-- fixed point, but for the two sizes of a cycle.
use omni_file_system.Format.{
  settle, bitmap_size, format_layout, SimpleConfig, available_for_blocks, Layout, laid_out, offsets,
}
use omni_file_system.Format.Fit.{
  div_lower, scale, bitmap_size-le, IsRoomy, available-IsRoomy, bitmap_size-le_start, settle-fixed,
}
use omni_file_system.Format.Cycle.{next_size, Oscillates}
use omni_file_system.Prelude.Words.{sub_u64}
use omni_file_system.Prelude.{
  inl, inr, ℕ, arith, ◌*◌, ◌≤◌, ◌/◌, ◌<◌, ◌+◌, ◌^◌, ◌-◌, Bool-cases, ◌≡◌, leb, leb→le, refl, ◌≢◌,
  ltb, ltb→lt, false, ◌==◌, ◌∙◌, ==_iff, ap, none, sym, suc, zero, Option-cases,
}

-- The blocks that fit beside a bitmap of `b` bytes.
abbrev blocks_beside : ℕ → ℕ → ℕ → ℕ
blocks_beside available block_size b = sub_u64 available b / block_size

le_of_scaled : (q p d : ℕ) → q * d < (p + 1) * d → q ≤ p
le_of_scaled q p d h = grind arith

-- Quotients of numbers that differ by `d` differ by at most one beyond their share.
quotient_step :
    (p q d x y : ℕ) → 128 ≤ d → p * d ≤ x → y < (q + 1) * d → 128 * p ≤ 128 * q + 128 + (x - y)
quotient_step p q d x y big hx hy = elim (Bool-cases (leb p q)) [
  | inl small ↦ omega (arith, leb→le p q small)
  | inr large ↦
      let k = p - q - 1 in
      let e : p ≡ q + 1 + k = ground arith in
      let s = scale k d 128 big in let hx' : (q + 1 + k) * d ≤ x = rw e at hx in omega (arith)
]

module _ (available block_size : ℕ) (big : 128 ≤ block_size) (word : available < 2 ^ 64) where
  -- A larger bitmap leaves no more blocks, and loses at most one beyond its share.
  blocks_beside_bounds :
      (a b : ℕ)
      → a ≤ b
      → b ≤ available
      → (blocks_beside available block_size b ≤ blocks_beside available block_size a)
        × (128 * blocks_beside available block_size a
            ≤ 128 * blocks_beside available block_size b + 128 + (b - a))
        × (blocks_beside available block_size a * 128 < 2 ^ 64)
  blocks_beside_bounds a b le fits =
      let x = sub_u64 available a in
      let y = sub_u64 available b in
      let p = blocks_beside available block_size a in
      let q = blocks_beside available block_size b in
      let dp = div_lower x p block_size (omega arith) refl in
      let dq = div_lower y q block_size (omega arith) refl in
      let s = scale p block_size 128 big in
      let step = quotient_step p q block_size x y big dp.0 dq.1 in
      (le_of_scaled q p block_size (omega arith), omega arith, omega arith)

  -- Bitmap sizes that differ by at least two come closer in one round; those that differ by one do
  -- not move apart.
  next_size_bounds :
      (a b : ℕ)
      → a < b
      → b ≤ available
      → (next_size available block_size b ≤ next_size available block_size a)
        × (next_size available block_size a ≤ next_size available block_size b + (b - a))
        × (a + 2 ≤ b
            → next_size available block_size a + 1 ≤ next_size available block_size b + (b - a))
  next_size_bounds a b lt fits =
      let s = blocks_beside_bounds a b (omega arith) fits in
      (omega (arith, s), omega (arith, s), λ far. omega (arith, s))

  -- Two sizes that answer each other are a cycle.
  cycle_Oscillates :
      (m : ℕ)
      → m + 1 ≤ available
      → next_size available block_size m ≡ m + 1
      → next_size available block_size (m + 1) ≡ m
      → Oscillates available block_size m
  cycle_Oscillates m fits up down =
      let s = blocks_beside_bounds m (m + 1) (omega arith) fits in
      let p = blocks_beside available block_size m in
      let q = blocks_beside available block_size (m + 1) in
      let dp = div_lower (sub_u64 available m) p block_size (omega arith) refl in
      let dq = div_lower (sub_u64 available (m + 1)) q block_size (omega arith) refl in
      let ep : p ≡ 8 * m + 1 = omega (arith, s) in
      let eq : q ≡ 8 * m = omega (arith, s) in
      let lo : (8 * m + 1) * block_size ≤ sub_u64 available m = rw ep at dp.0 in
      let hi : sub_u64 available (m + 1) < (8 * m + 1) * block_size = rw eq at dq.1 in omega arith

abbrev distance : ℕ → ℕ → ℕ
distance a b = (a - b) + (b - a)

lt_of_not_ltb : (b c : ℕ) → ltb b c ≡ false → c ≢ b → c < b
lt_of_not_ltb b c h ne = ground arith

closer_up :
    (b c e : ℕ)
    → b < c
    → e ≤ c
    → c ≤ e + (c - b)
    → (b + 2 ≤ c → c + 1 ≤ e + (c - b))
    → (c ≡ b + 1 → e ≢ b)
    → distance c e < distance b c
closer_up b c e lt one two far cyc = elim (Bool-cases (c == b + 1)) [
  | inl near ↦ let n = (==_iff c (b + 1)).0 near in let d = cyc n in omega arith
  | inr apart ↦ let n : b + 2 ≤ c = ground arith in let d = far n in omega arith
]

closer_down :
    (b c e : ℕ)
    → c < b
    → c ≤ e
    → e ≤ c + (b - c)
    → (c + 2 ≤ b → e + 1 ≤ c + (b - c))
    → (b ≡ c + 1 → e ≢ b)
    → distance c e < distance b c
closer_down b c e lt one two far cyc = elim (Bool-cases (b == c + 1)) [
  | inl near ↦ let n = (==_iff b (c + 1)).0 near in let d = cyc n in omega arith
  | inr apart ↦ let n : c + 2 ≤ b = ground arith in let d = far n in omega arith
]

module _ (available block_size : ℕ) (big : 128 ≤ block_size) (room : block_size ≤ available)
    (word : available < 2 ^ 64) (steady : (m : ℕ) → ¬ Oscillates available block_size m) where
  abbrev next : ℕ → ℕ
  next b = next_size available block_size b

  -- A round that changes the size is followed by one that changes it less.
  distance_falls :
      (b : ℕ) → b ≤ available → next b ≢ b → distance (next b) (next (next b)) < distance b (next b)
  distance_falls b fits ne =
      let c = next b in
      let fits' : c ≤ available = bitmap_size-le available block_size b big room word fits in
      let bounds = next_size_bounds available block_size big word in
      let cycle = cycle_Oscillates available block_size big word in
      elim (Bool-cases (ltb b c)) [
        | inl up ↦
            let lt = ltb→lt b c up in
            let (one, two, far) = bounds b c lt fits' in
            closer_up b c (next c) lt one two far
              λ e e'. steady b (cycle b (rw e at fits') e (rw e at e'))
        | inr down ↦
            let lt : c < b = lt_of_not_ltb b c down ne in
            let (one, two, far) = bounds c b lt fits in
            closer_down b c (next c) lt one two far
              λ e e'. steady c (cycle c (rw e at fits) (e' ∙ e) (ap next (sym e)))
      ]

  settle-fuel :
      (fuel num_blocks b : ℕ)
      → b ≤ available
      → distance b (next b) + 2 ≤ fuel
      → settle fuel available block_size num_blocks b ≢ none
  unfolding settle
  settle-fuel zero num_blocks b fits h = absurd (omega arith)
  settle-fuel (suc zero) num_blocks b fits h = absurd (omega arith)
  settle-fuel (suc (suc fuel)) num_blocks b fits h = elim (Bool-cases (next b == b)) [
    | inl still ↦ let e = (==_iff (next b) b).0 still in rw e (ground arith)
    | inr moved ↦
        let n = sub_u64 available b / block_size in
        let fits' = bitmap_size-le available block_size b big room word fits in
        let ne : next b ≢ b = λ e. cc (moved, (==_iff (next b) b).1 e) in
        let closer = distance_falls b fits ne in
        let rest = settle-fuel (suc fuel) n (next b) fits' (omega (arith, closer)) in rw moved rest
  ]

-- A settled layout has a block: without one the bitmap would take no byte.
some_block :
    (available block_size nb b : ℕ)
    → 128 ≤ block_size
    → block_size ≤ available
    → available < 2 ^ 64
    → nb ≡ sub_u64 available b / block_size
    → b ≡ bitmap_size nb
    → 0 < nb
some_block available block_size zero b big room word en eb =
    let z : b ≡ 0 = omega arith in
    let e : sub_u64 available b ≡ available = omega arith in
    let d = div_lower available 0 block_size (omega arith) (rw e at en) in absurd (omega arith)
some_block available block_size (suc nb) b big room word en eb = omega arith

-- For a configuration with blocks of 128 bytes at least, a header of 512 at least, room for a
-- block and a size below 2^64, for which no bitmap size makes the sizing loop oscillate, the
-- sizing of `fs_format` returns a layout, and `total_size + 2` rounds are enough.
pub format_layout_returns :
    (c : SimpleConfig)
    → IsRoomy c
    → ((m : ℕ) → ¬ Oscillates (available_for_blocks c) c.block_size m)
    → (fuel : ℕ) → c.total_size + 2 ≤ fuel
    → (l : Layout) × (format_layout fuel c ≡ laid_out l)
unfolding format_layout
format_layout_returns c h steady fuel enough =
    let available = available_for_blocks c in
    let a = available-IsRoomy c h in
    let n = available / c.block_size in
    let start = bitmap_size-le_start available c.block_size h.block (omega arith) (omega arith) in
    let onward =
      bitmap_size-le available c.block_size (bitmap_size n) h.block (omega arith) (omega arith)
        start in
    let runs =
      settle-fuel available c.block_size h.block (omega arith) (omega arith) steady fuel n
        (bitmap_size n) start (omega arith) in
    elim (Option-cases (settle fuel available c.block_size n (bitmap_size n))) [
      | inl stuck ↦ absurd (runs stuck)
      | inr ((nb, b), found) ↦
          let (en, eb, fits) =
            settle-fixed fuel available c.block_size n (bitmap_size n) nb b h.block (omega arith)
              (omega arith) start found in
          let pos : 0 < nb =
            some_block available c.block_size nb b h.block (omega arith) (omega arith) en eb in
          (offsets c nb, rw found (ground arith))
    ]
