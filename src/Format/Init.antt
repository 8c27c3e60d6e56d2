-- ===== src/Format/Init.antt =====
-- `fs_init` counts the blocks without the bitmap: where its block region ends.
use omni_file_system.Format.Cycle.{at_least_multiple}
use omni_file_system.Format.Fit.{IsRoomy, available-IsRoomy, div_lower, scale}
use omni_file_system.Prelude.Words.{u32}
use omni_file_system.Format.{
  SimpleConfig, init_num_blocks, offsets, bitmap_size, available_for_blocks,
}
use omni_file_system.Prelude.{
  ℕ, arith, ◌+◌, ◌<◌, ◌*◌, ◌^◌, ◌≤◌, ◌↔◌, ◌/◌, ◌%◌, ◌≡◌, ltb, false, ==_zero_pos, refl,
}

-- The end of the block region that `fs_init` works with.
unfoldable pub init_blocks_end : SimpleConfig → ℕ → ℕ
init_blocks_end c file_end =
    let n = init_num_blocks c file_end in
    u32 (u32 (offsets c n).bitmap_offset + bitmap_size n) + n * c.block_size

-- A roomy container of less than 4 GiB, so that the 32-bit offsets hold.
module _ (c : SimpleConfig) (file_end : ℕ) (h : IsRoomy c)
    (small : c.total_size + c.block_size < 2 ^ 32) where
  abbrev quotient : ℕ
  quotient = available_for_blocks c / c.block_size

  quotient_bounds : (0 < quotient) × (quotient * 128 ≤ available_for_blocks c)
  quotient_bounds =
      let a = available-IsRoomy c h in
      let d = div_lower (available_for_blocks c) quotient c.block_size (omega arith) refl in
      let s = scale quotient c.block_size 128 h.block in
      (
        at_least_multiple (available_for_blocks c) 1 c.block_size (omega arith) (omega arith),
        omega arith,
      )

  init_num_blocks-eq : init_num_blocks c file_end ≡ quotient
  unfolding init_num_blocks
  init_num_blocks-eq =
      let a = available-IsRoomy c h in
      let q = quotient_bounds in
      let enough : ltb (available_for_blocks c) c.block_size ≡ false = ground arith in
      rw (enough, ==_zero_pos quotient q.0) (omega arith)

  -- For a configuration with blocks of 128 bytes at least, a header of 512 at least, room for a
  -- block, and size and block size together below 2^32: the block region that `fs_init` works
  -- with stays inside the container exactly if the bytes that the division by the block size
  -- leaves over hold the bitmap.
  pub init_blocks_end-le :
      (init_blocks_end c file_end ≤ c.total_size)
      ↔ ((available_for_blocks c / c.block_size + 7) / 8 ≤ available_for_blocks c % c.block_size)
  unfolding init_blocks_end
  init_blocks_end-le =
      let a = available-IsRoomy c h in
      let q = quotient_bounds in
      let e : available_for_blocks c
          ≡ quotient * c.block_size + available_for_blocks c % c.block_size =
        grind arith in
      rw init_num_blocks-eq ((λ k. omega arith), (λ k. omega arith))
