-- ===== src/Format.antt =====
-- The layout that `fs_format` of source/core/ofs_core.cpp computes, and the block count of `fs_init`.
-- All sizes are `uint64_t`.
pub mod Fit
pub mod Cycle
pub mod Converge
pub mod Init
use omni_file_system.Prelude.Words.{sub_u64, u64, u32}
use omni_file_system.Prelude.{
  zero, suc, [], ◌∷◌, ℕ, arith, Option, ◌/◌, if◌then◌else◌, none, ◌*◌, ◌+◌, some, ◌==◌, ltb, ◌&&◌,
  leb,
}

-- The sizes of `SimpleConfig`.
pub record SimpleConfig : Type 0 where
  pub total_size : ℕ
  pub header_size : ℕ
  pub block_size : ℕ
  pub max_files : ℕ
  pub max_users : ℕ

abbrev pub header_bytes : ℕ
header_bytes = 512

abbrev pub user_bytes : ℕ
user_bytes = 128

abbrev pub meta_bytes : ℕ
meta_bytes = 72

-- `total_size - header_size - user_table_size - metadata_size`
unfoldable pub available_for_blocks : SimpleConfig → ℕ
available_for_blocks c =
    sub_u64 (sub_u64 (sub_u64 c.total_size c.header_size) (u64 (c.max_users * user_bytes)))
      (u64 (c.max_files * meta_bytes))

-- `(num_blocks + 7) / 8`
abbrev pub bitmap_size : ℕ → ℕ
bitmap_size num_blocks = u64 (num_blocks + 7) / 8

-- The loop of `fs_format`: `none` means that the fuel ran out before the break. A result is the
-- number of blocks and the size of the bitmap.
unfoldable pub settle : ℕ → ℕ → ℕ → ℕ → ℕ → Option (ℕ × ℕ)
settle zero available block_size num_blocks bitmap_bytes = none
settle (suc fuel) available block_size num_blocks bitmap_bytes =
    let nb = sub_u64 available bitmap_bytes / block_size in
    let new_bitmap = bitmap_size nb in
    let again = settle fuel available block_size nb new_bitmap in
    if new_bitmap == bitmap_bytes && nb == num_blocks
    then some (num_blocks, bitmap_bytes)
    else again

pub record Layout : Type 0 where
  pub num_blocks : ℕ
  pub user_table_offset : ℕ
  pub metadata_offset : ℕ
  pub bitmap_offset : ℕ
  pub blocks_offset : ℕ

abbrev pub offsets : SimpleConfig → ℕ → Layout
offsets c num_blocks =
    let user_table = c.header_size in
    let metadata = u64 (user_table + u64 (c.max_users * user_bytes)) in
    let bitmap = u64 (metadata + u64 (c.max_files * meta_bytes)) in
    record {
      num_blocks = num_blocks;
      user_table_offset = user_table;
      metadata_offset = metadata;
      bitmap_offset = bitmap;
      blocks_offset = u64 (bitmap + bitmap_size num_blocks);
    }

-- What the sizing part of `fs_format` comes to.
pub data Sizing : Type 0 where
  laid_out : Layout → Sizing
  error_invalid_config : Sizing
  out_of_fuel : Sizing

unfoldable pub format_layout : ℕ → SimpleConfig → Sizing
format_layout fuel c =
    let available = available_for_blocks c in
    let num_blocks = available / c.block_size in
    let sized : Sizing =
      elim (settle fuel available c.block_size num_blocks (bitmap_size num_blocks)) [
        | none ↦ out_of_fuel
        | some (nb, bitmap_bytes) ↦
            if nb == 0 then error_invalid_config else laid_out (offsets c nb)
      ] in
    if ltb c.header_size header_bytes
    then error_invalid_config
    else if ltb c.block_size 128
    then error_invalid_config
    else if leb c.total_size c.header_size
    then error_invalid_config
    else if ltb available c.block_size
    then error_invalid_config
    else sized

-- `num_blocks` of `fs_init`, from the header that `fs_format` wrote; `file_end` is the size of the
-- file. The bitmap is not subtracted.
unfoldable pub init_num_blocks : SimpleConfig → ℕ → ℕ
init_num_blocks c file_end =
    let available = available_for_blocks c in
    let metadata_offset = u32 (offsets c 0).metadata_offset in
    let metadata_end = u64 (metadata_offset + u64 (c.max_files * meta_bytes)) in
    let content =
      (if ltb available c.block_size then sub_u64 file_end metadata_end else available) in
    let num_blocks = content / c.block_size in u32 (if num_blocks == 0 then 1 else num_blocks)
