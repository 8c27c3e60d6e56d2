-- ===== src/Format/Fit.antt =====
-- A layout that the sizing returns fills the container and does not run over its end.
use omni_file_system.Prelude.Words.{sub_u64}
use omni_file_system.Format.{
  SimpleConfig, available_for_blocks, settle, user_bytes, meta_bytes, bitmap_size, Layout,
  format_layout, offsets, laid_out,
}
use omni_file_system.Prelude.{
  zero, suc, ℕ, arith, ◌+◌, ◌<◌, ◌≡◌, some, ◌*◌, ◌^◌, ◌≤◌, ◌/◌, Option-cases, refl, inl, inr,
}

-- Sizes of a real container: no `uint64_t` wraps, and there is room for a block.
pub record IsRoomy (c : SimpleConfig) : Type 0 where
  pub word : c.total_size < 2 ^ 64
  pub block : 128 ≤ c.block_size
  pub header : 512 ≤ c.header_size
  pub room :
      c.header_size + c.max_users * user_bytes + c.max_files * meta_bytes + c.block_size
      ≤ c.total_size

pub available-IsRoomy :
    (c : SimpleConfig)
    → IsRoomy c
    → available_for_blocks c + c.header_size + c.max_users * user_bytes + c.max_files * meta_bytes
      ≡ c.total_size
unfolding available_for_blocks
available-IsRoomy c h = omega arith

pub div_lower : (x n d : ℕ) → 0 < d → n ≡ x / d → (n * d ≤ x) × (x < (n + 1) * d)
div_lower x n d h e = grind arith

pub scale : (n d k : ℕ) → k ≤ d → n * k ≤ n * d
scale n d k h = grind arith

-- A bitmap for the blocks of a region is smaller than the region.
pub bitmap_size-le :
    (available block_size b : ℕ)
    → 128 ≤ block_size
    → block_size ≤ available
    → available < 2 ^ 64
    → b ≤ available
    → bitmap_size (sub_u64 available b / block_size) ≤ available
bitmap_size-le available block_size b big room word h =
    let rest = sub_u64 available b in
    let n = rest / block_size in
    let d = div_lower rest n block_size (omega arith) refl in
    omega (arith, d.0, scale n block_size 128 big)

-- So is the bitmap that the loop starts from.
pub bitmap_size-le_start :
    (available block_size : ℕ)
    → 128 ≤ block_size
    → block_size ≤ available
    → available < 2 ^ 64
    → bitmap_size (available / block_size) ≤ available
bitmap_size-le_start available block_size big room word =
    let z : sub_u64 available 0 ≡ available = omega arith in
    rw z at (bitmap_size-le available block_size 0 big room word (omega arith))

-- The settled numbers answer one another.
pub settle-fixed :
    (fuel available block_size num_blocks bitmap_bytes nb b : ℕ)
    → 128 ≤ block_size
    → block_size ≤ available
    → available < 2 ^ 64
    → bitmap_bytes ≤ available
    → settle fuel available block_size num_blocks bitmap_bytes ≡ some (nb, b)
    → (nb ≡ sub_u64 available b / block_size) × (b ≡ bitmap_size nb) × (b ≤ available)
unfolding settle
settle-fixed zero available block_size num_blocks bitmap_bytes nb b big room word fits h = cc
settle-fixed (suc fuel) available block_size num_blocks bitmap_bytes nb b big room word fits h =
    let n = sub_u64 available bitmap_bytes / block_size in
    let fits' = bitmap_size-le available block_size bitmap_bytes big room word fits in
    let rest = settle-fixed fuel available block_size n (bitmap_size n) nb b big room word fits' in
    ground (arith, rest)

-- The end of the block region of a layout.
abbrev pub blocks_end : SimpleConfig → Layout → ℕ
blocks_end c l = l.blocks_offset + l.num_blocks * c.block_size

-- The sizing of a roomy configuration keeps the regions in order and apart, ends the blocks inside
-- the container, and one block more with its bit would not fit.
pub record IsFit (c : SimpleConfig) (l : Layout) : Type 0 where
  pub users : l.user_table_offset + c.max_users * user_bytes ≡ l.metadata_offset
  pub metadata : l.metadata_offset + c.max_files * meta_bytes ≡ l.bitmap_offset
  pub bitmap : l.bitmap_offset + (l.num_blocks + 7) / 8 ≡ l.blocks_offset
  pub some_blocks : 0 < l.num_blocks
  pub inside : blocks_end c l ≤ c.total_size
  pub tight :
      c.total_size < l.bitmap_offset + (l.num_blocks + 8) / 8 + (l.num_blocks + 1) * c.block_size

settled-IsFit :
    (c : SimpleConfig) (nb b : ℕ)
    → IsRoomy c
    → nb ≡ sub_u64 (available_for_blocks c) b / c.block_size
    → b ≡ bitmap_size nb
    → b ≤ available_for_blocks c
    → 0 < nb
    → IsFit c (offsets c nb)
settled-IsFit c nb b h en eb fits pos =
    let a = available-IsRoomy c h in
    let d = div_lower (sub_u64 (available_for_blocks c) b) nb c.block_size (omega arith) en in
    let s = scale nb c.block_size 128 h.block in
    record {
      users = omega arith;
      metadata = omega arith;
      bitmap = omega arith;
      some_blocks = pos;
      inside = omega arith;
      tight = omega arith;
    }

-- For a configuration with blocks of 128 bytes at least, a header of 512 at least, room for a
-- block and a size below 2^64: a layout that the sizing of `fs_format` returns keeps the regions
-- in order and apart, has a block, ends inside the container, and one block more with its bit
-- would not fit.
pub format_layout-IsFit :
    (fuel : ℕ) (c : SimpleConfig) (l : Layout)
    → IsRoomy c
    → format_layout fuel c ≡ laid_out l
    → IsFit c l
unfolding format_layout
format_layout-IsFit fuel c l h e =
    let available = available_for_blocks c in
    let a = available-IsRoomy c h in
    let n = available / c.block_size in
    let run = settle fuel available c.block_size n (bitmap_size n) in
    elim (Option-cases run) [
      | inl stuck ↦ absurd (ground (arith, stuck))
      | inr ((nb, b), found) ↦
          let start : bitmap_size n ≤ available =
            bitmap_size-le_start available c.block_size h.block (omega arith) (omega arith) in
          let (en, eb, fits) =
            settle-fixed fuel available c.block_size n (bitmap_size n) nb b h.block (omega arith)
              (omega arith) start found in
          let pos : 0 < nb = ground (arith, found) in
          let same : l ≡ offsets c nb = ground (arith, found) in
          rw same (settled-IsFit c nb b h en eb fits pos)
    ]
