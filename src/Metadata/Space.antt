-- ===== src/Metadata/Space.antt =====
-- The space that `get_stats` of source/core/ofs_core.cpp reports, and what `allocate_blocks` can allocate.
use omni_file_system.Prelude.{
  ℕ, zero, suc, ◌+◌, ◌-◌, ◌*◌, ◌^◌, ◌≤◌, ◌<◌, ◌≡◌, ◌↔◌, refl, Bool-cases, inl, inr, some, arith,
  length, ltb, ltb→lt,
}
use omni_file_system.Prelude.Bytes.{Bytes}
use omni_file_system.Prelude.Words.{u64}
use omni_file_system.Bitmap.{allocate_blocks}
use omni_file_system.Bitmap.Laws.{IsBitmap}
use omni_file_system.Bitmap.Allocation.{count_free, allocate_blocks_enough, allocate_blocks_short}
use omni_file_system.Instance.{FsInstance, SessionInfo, ok}
use omni_file_system.Metadata.{count_used, stats_of, get_stats}

used_free : (left i : ℕ) (bits : Bytes) → count_used left i bits + count_free left i bits ≡ left
unfolding count_used count_free
used_free zero i bits = refl
used_free (suc left) i bits = ground (arith, used_free left (suc i) bits)

times_mono : (m n k : ℕ) → m ≤ n → m * k ≤ n * k
times_mono m n k h = grind arith

times_strict : (m n k : ℕ) → 0 < k → m < n → m * k < n * k
times_strict m n k pos h = grind arith

times_le : (m n k : ℕ) → 0 < k → (m ≤ n) ↔ (m * k ≤ n * k)
times_le m n k pos = (
  λ h. times_mono m n k h,
  λ h. elim (Bool-cases (ltb n m)) [
    | inl more ↦ absurd (omega (arith, times_strict n m k pos (ltb→lt n m more)))
    | inr fits ↦ ground arith
  ],
)

space_split :
    (used n_free n size : ℕ)
    → used + n_free ≡ n
    → n * size < 2 ^ 64
    → (u64 (used * size) + u64 ((n - used) * size) ≡ n * size)
      × (u64 ((n - used) * size) ≡ n_free * size)
space_split used n_free n size split narrow =
    let e : n - used ≡ n_free = omega (arith, split) in
    let d : n * size ≡ used * size + n_free * size = grind (arith, split) in
    rw e (omega (arith, d), omega (arith, d))

module _ (num_blocks n : ℕ) (bits : Bytes) (v : IsBitmap bits)
    (marked : num_blocks ≤ 8 * length bits) (some_want : 0 < n) where
  allocates :
      (length (allocate_blocks num_blocks n bits).0 ≡ n) ↔ (n ≤ count_free num_blocks 0 bits)
  allocates = (
    λ e. elim (Bool-cases (ltb (count_free num_blocks 0 bits) n)) [
      | inl short ↦
          let r = allocate_blocks_short num_blocks n bits v marked (ltb→lt _ _ short) in
          let k = (rw r.0 at e) in absurd (omega arith)
      | inr enough ↦ ground arith
    ],
    λ le. let r = allocate_blocks_enough num_blocks n bits v marked le in r.0,
  )

-- On a bitmap of bytes with a bit for every block, with blocks of a byte at least and a block
-- region below 2^64 bytes: `get_stats` under a session succeeds and leaves the instance as it
-- was, used and free space add up to the block region, and `n > 0` blocks can be allocated
-- exactly if `n` blocks fit in the reported free space.
pub get_stats-allocate_blocks :
    (s : SessionInfo) (inst : FsInstance)
    → IsBitmap inst.free_bitmap
    → inst.num_blocks ≤ 8 * length inst.free_bitmap
    → 0 < inst.header.block_size
    → inst.num_blocks * inst.header.block_size < 2 ^ 64
    → let stats = stats_of inst in
      (get_stats (some s) inst ≡ (ok stats, inst))
      × (stats.used_space + stats.free_space ≡ inst.num_blocks * inst.header.block_size)
      × ((n : ℕ)
          → 0 < n
          → (length (allocate_blocks inst.num_blocks n inst.free_bitmap).0 ≡ n)
            ↔ (n * inst.header.block_size ≤ stats.free_space))
unfolding get_stats stats_of
get_stats-allocate_blocks s inst v marked pos narrow =
    let size = inst.header.block_size in
    let n_free = count_free inst.num_blocks 0 inst.free_bitmap in
    let split = used_free inst.num_blocks 0 inst.free_bitmap in
    let (sum, exact) = space_split _ n_free inst.num_blocks size split narrow in
    (
      refl,
      sum,
      λ n some_want.
          let a = allocates inst.num_blocks n inst.free_bitmap v marked some_want in
          let m = times_le n n_free size pos in rw exact (λ h. m.0 (a.0 h), λ h. a.1 (m.1 h)),
    )
