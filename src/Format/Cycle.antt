-- ===== src/Format/Cycle.antt =====
-- Configurations for which the loop of `fs_format` alternates between two bitmap sizes for ever.
use omni_file_system.Format.Fit.{
  IsRoomy, bitmap_size-le, available-IsRoomy, bitmap_size-le_start, div_lower, scale,
}
use omni_file_system.Prelude.Words.{sub_u64}
use omni_file_system.Format.{
  bitmap_size, format_layout, settle, SimpleConfig, available_for_blocks, out_of_fuel,
}
use omni_file_system.Prelude.{
  zero, suc, inl, inr, ℕ, arith, ◌<◌, ◌≡◌, ◌≤◌, ◌*◌, ◌^◌, none, ◌+◌, ◌/◌, ◌≢◌, Bool-cases, leb,
  refl, leb→le,
}

-- With this much room, a bitmap of `m` bytes leaves one block too many for it, and one of `m + 1`
-- bytes one block too few.
abbrev pub Oscillates : ℕ → ℕ → ℕ → Type 0
Oscillates available block_size m = available ≡ (8 * m + 1) * block_size + m

-- The bitmap size that one round computes from another.
abbrev pub next_size : ℕ → ℕ → ℕ → ℕ
next_size available block_size b = bitmap_size (sub_u64 available b / block_size)

less_than_multiple : (x k d : ℕ) → 0 < d → x < k * d → x / d < k
less_than_multiple x k d h lt = grind arith

pub at_least_multiple : (x k d : ℕ) → 0 < d → k * d ≤ x → k ≤ x / d
at_least_multiple x k d h le = grind arith

-- No bitmap size answers itself.
next_size-ne :
    (available block_size m b : ℕ)
    → Oscillates available block_size m
    → 128 ≤ block_size
    → available < 2 ^ 64
    → b ≤ available
    → next_size available block_size b ≢ b
next_size-ne available block_size m b o big word fits e = elim (Bool-cases (leb b m)) [
  | inl small ↦
      let le : b ≤ m = leb→le b m small in
      let q =
        at_least_multiple (sub_u64 available b) (8 * m + 1) block_size (omega arith)
          (omega arith) in
      let n = sub_u64 available b / block_size in
      let d = div_lower (sub_u64 available b) n block_size (omega arith) refl in
      omega (arith, scale n block_size 128 big)
  | inr large ↦
      let gt : m < b = ground arith in
      let q =
        less_than_multiple (sub_u64 available b) (8 * m + 1) block_size (omega arith)
          (omega arith) in
      omega arith
]

-- Whatever the fuel, the loop does not break.
pub settle_never :
    (fuel available block_size num_blocks b m : ℕ)
    → Oscillates available block_size m
    → 128 ≤ block_size
    → block_size ≤ available
    → available < 2 ^ 64
    → b ≤ available
    → settle fuel available block_size num_blocks b ≡ none
unfolding settle
settle_never zero available block_size num_blocks b m o big room word fits = refl
settle_never (suc fuel) available block_size num_blocks b m o big room word fits =
    let n = sub_u64 available b / block_size in
    let fits' = bitmap_size-le available block_size b big room word fits in
    let rest = settle_never fuel available block_size n (bitmap_size n) m o big room word fits' in
    ground (arith, rest, next_size-ne available block_size m b o big word fits)

-- For a configuration with blocks of 128 bytes at least, a header of 512 at least, room for a
-- block and a size below 2^64, whose room for blocks is `8 m + 1` blocks and `m` bytes for some
-- `m`: no number of rounds ends the sizing loop of `fs_format`.
pub format_layout_hangs :
    (c : SimpleConfig) (m : ℕ)
    → IsRoomy c
    → Oscillates (available_for_blocks c) c.block_size m
    → (fuel : ℕ) → format_layout fuel c ≡ out_of_fuel
unfolding format_layout
format_layout_hangs c m h o fuel =
    let available = available_for_blocks c in
    let a = available-IsRoomy c h in
    let n = available / c.block_size in
    let start = bitmap_size-le_start available c.block_size h.block (omega arith) (omega arith) in
    let never =
      settle_never fuel available c.block_size n (bitmap_size n) m o h.block (omega arith)
        (omega arith) start in
    rw never (ground arith)
