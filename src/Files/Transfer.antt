-- ===== src/Files/Transfer.antt =====
-- The content of a file through the operations on the instance: stored by `file_create`, read by
-- `file_read`.
use omni_file_system.Prelude.{
  ℕ, zero, suc, ◌+◌, ◌-◌, ◌*◌, ◌/◌, ◌^◌, ◌≤◌, ◌<◌, ◌≡◌, refl, Bool-cases, false, inl, inr, List, [],
  ◌∷◌, arith, length, drop, length-drop, ◌==◌, ==_zero_pos, lt→ltb, ltb, ltb→lt, some,
}
use omni_file_system.Prelude.Bytes.{Bytes}
use omni_file_system.Prelude.Words.{u32, u64, sub_u64}
use omni_file_system.Format.Fit.{div_lower}
use omni_file_system.Stream.Laws.{IsSound}
use omni_file_system.Prelude.Preds.{All, Ascending}
use omni_file_system.Bitmap.{allocate_blocks, bitmap_get}
use omni_file_system.Bitmap.Laws.{IsBitmap}
use omni_file_system.Bitmap.Allocation.{count_free, allocate_blocks_enough}
use omni_file_system.Codec.RoundTrip.{IsCode, AreBytes}
use omni_file_system.Instance.{Outcome, FsInstance, ok}
use omni_file_system.Types.{MetaEntry, new_meta_entry}
use omni_file_system.Directory.{block_size_of}
use omni_file_system.Files.{
  blocks_for, block_payload_of, create_blocks, take_blocks, store_content, read_content,
  first_or_zero, write_chunks,
}
use omni_file_system.Files.Carry.{read_chunks-Holds}
use omni_file_system.Files.Chunks.{IsRegion, Covers, Stored, write_chunks-Stored, below_multiple}

-- The instance is mounted on a working device, its blocks lie in the file's address range, its bitmap
-- has a bit for each block, and its substitution has no collision.
pub record IsReady (inst : FsInstance) : Type 0 where
  pub sound : IsSound inst.file
  pub narrow : inst.header.block_size < 2 ^ 32
  pub region : IsRegion inst.blocks_offset (block_size_of inst) inst.num_blocks
  pub bits : IsBitmap inst.free_bitmap
  pub marked : inst.num_blocks ≤ 8 * length inst.free_bitmap
  pub code : IsCode inst.encoding_map

step_lem : (k n : ℕ) → suc k * n ≡ n + k * n
step_lem k n = grind arith

-- A chain of the length that `blocks_for` computes covers the content.
covers :
    {region size blocks : ℕ} (r : IsRegion region size blocks) (bs : List ℕ) (content : Bytes)
    → length content ≤ length bs * (size - 4)
    → length bs * (size - 4) < length content + (size - 4)
    → Covers r bs content
covers r [] [] h k = refl
covers r [] (c ∷ content) h k = absurd (omega arith)
covers {region} {size} r (b ∷ bs) content h k =
    let e = step_lem (length bs) (size - 4) in
    let l = length-drop (size - 4) content in
    (omega arith, covers r bs (drop (size - 4) content) (omega arith) (omega (arith, r.room)))

Covers-by :
    {region size blocks : ℕ} (r : IsRegion region size blocks) (k : ℕ) (bs : List ℕ)
    (content : Bytes)
    → length bs ≡ k
    → length content ≤ k * (size - 4)
    → k * (size - 4) < length content + (size - 4)
    → Covers r bs content
Covers-by r k bs content e up down = covers r bs content (rw e up) (rw e down)

quotient_le : (q b n x : ℕ) → q * n ≤ x → x < (b + 1) * n → q ≤ b
quotient_le q b n x lower upper = elim (Bool-cases (ltb b q)) [
  | inl gt ↦ absurd (omega (arith, below_multiple (b + 1) q n (omega (arith, ltb→lt b q gt))))
  | inr le ↦ ground arith
]

quotient_pos : (q n x : ℕ) → n ≤ x → x < (q + 1) * n → 0 < q
quotient_pos zero n x h k = absurd (omega arith)
quotient_pos (suc q) n x h k = omega arith

-- The number of blocks that `blocks_for` computes is rounded up, and nothing wraps.
pub blocks_for_lem :
    (size n blocks : ℕ)
    → 0 < size
    → 0 < n
    → n < 2 ^ 32
    → blocks < 2 ^ 32
    → size ≤ blocks * n
    → let q = blocks_for size n in (size ≤ q * n) × (q * n < size + n) × (0 < q) × (q ≤ blocks)
unfolding blocks_for
blocks_for_lem size n blocks pos room narrow counted fits =
    let most : (blocks + 1) * n ≤ 2 ^ 32 * n =
      below_multiple (blocks + 1) (2 ^ 32) n (omega arith) in
    let e : (blocks + 1) * n ≡ blocks * n + n = grind arith in
    let x = size + n - 1 in
    let sum : sub_u64 (u64 (size + n)) 1 ≡ x = omega arith in
    let (lower, upper) = div_lower x (x / n) n room refl in
    let e' : (x / n + 1) * n ≡ x / n * n + n = grind arith in
    let le : x / n ≤ blocks = quotient_le (x / n) blocks n x lower (omega arith) in
    let same : u32 (x / n) ≡ x / n = omega arith in
    rw (==_zero_pos size pos, sum, same)
      (omega arith, omega arith, quotient_pos (x / n) n x (omega arith) upper, le)

module _ (inst : FsInstance) (meta_index : ℕ) (content : Bytes) (ready : IsReady inst) where
  -- The entry of a file whose chain starts with `blocks`.
  abbrev pub file_entry : List ℕ → MetaEntry
  file_entry blocks = record new_meta_entry {
    valid = 0;
    type = 0;
    start_index = first_or_zero blocks;
    total_size = length content;
  }

  payload_lem : block_payload_of inst ≡ block_size_of inst - 4
  payload_lem = omega (arith, ready.narrow, ready.region.room)

  store_content_lem :
      (bs : List ℕ) (bits : Bytes)
      → let w =
          write_chunks inst.blocks_offset
            (block_size_of inst)
            (block_size_of inst - 4)
            inst.encoding_map
            bs
            content
            inst.file in
        store_content bs content (record inst { free_bitmap = bits })
        ≡ (w.0, record inst { free_bitmap = bits; file = w.1 })
  unfolding store_content
  store_content_lem bs bits = rw payload_lem refl

  -- The blocks that the content takes, and the bitmap afterwards.
  abbrev pub chain : List ℕ
  chain =
      (allocate_blocks inst.num_blocks (blocks_for (length content) (block_size_of inst - 4))
        inst.free_bitmap).0

  abbrev pub bits_after : Bytes
  bits_after =
      (allocate_blocks inst.num_blocks (blocks_for (length content) (block_size_of inst - 4))
        inst.free_bitmap).1

  -- What the storing part of `file_create` makes of the instance: it takes free blocks, marks them,
  -- and writes the content to them.
  pub record Created (r : Outcome (List ℕ) × FsInstance) : Type 0 where
    pub succeeds : r.0 ≡ ok chain
    pub keeps : r.1 ≡ record inst { free_bitmap = bits_after; file = r.1.file }
    pub writes :
        r.1.file
        ≡ (write_chunks inst.blocks_offset
            (block_size_of inst)
            (block_size_of inst - 4)
            inst.encoding_map
            chain
            content
            inst.file).1
    pub stores : Stored ready.region inst.encoding_map 0 inst.file r.1.file chain content
    pub rises : Ascending 0 inst.num_blocks chain
    pub fresh : All (λ b. bitmap_get inst.free_bitmap (b - 1) ≡ false) chain
    pub width : length bits_after ≡ length inst.free_bitmap

  pub create_blocks-Created :
      0 < length content
      → length content ≤ inst.num_blocks * (block_size_of inst - 4)
      → blocks_for (length content) (block_size_of inst - 4)
        ≤ count_free inst.num_blocks 0 inst.free_bitmap
      → Created (create_blocks meta_index content inst)
  unfolding create_blocks take_blocks
  create_blocks-Created some_left fits enough =
      let room = ready.region.room in
      let n = block_size_of inst - 4 in
      let q = blocks_for (length content) n in
      let (up, down, pos, le) =
        blocks_for_lem (length content) n inst.num_blocks some_left (omega arith)
          (omega (arith, ready.narrow)) ready.region.counted fits in
      let (amount, rises, fresh, marks, bytes, width) =
        allocate_blocks_enough inst.num_blocks q inst.free_bitmap ready.bits ready.marked enough in
      let c = Covers-by ready.region q chain content amount up down in
      let some_needed : 0 < q = pos in
      let some_taken : length chain == 0 ≡ false =
        ==_zero_pos (length chain) (omega (arith, amount)) in
      let (done, stored) =
        write_chunks-Stored ready.region inst.encoding_map chain 0 content ready.sound rises c in
      rw (payload_lem, lt→ltb 0 q some_needed, some_taken, store_content_lem chain bits_after, done)
        (record {
          succeeds = refl;
          keeps = refl;
          writes = refl;
          stores = stored;
          rises = rises;
          fresh = fresh;
          width = width;
        })

  -- On a ready instance (working device, blocks in the address range, a bit for every block, a
  -- substitution without collisions), for content that is not empty, consists of bytes and fits
  -- the free blocks: the storing part of `file_create` succeeds with the chain of allocated
  -- blocks, and the reading loop of `file_read`, run on an entry with the first block as its
  -- start and the content's length as its size, ends with exactly the content.
  pub read_content-create_blocks :
      0 < length content
      → AreBytes content
      → length content ≤ inst.num_blocks * (block_size_of inst - 4)
      → blocks_for (length content) (block_size_of inst - 4)
        ≤ count_free inst.num_blocks 0 inst.free_bitmap
      → let r = create_blocks meta_index content inst in
        (r.0 ≡ ok chain) × ((read_content (file_entry chain) r.1).0 ≡ ok (some content))
  unfolding read_content
  read_content-create_blocks some_left bytes fits enough =
      let c = create_blocks-Created some_left fits enough in
      let (e, s) =
        read_chunks-Holds ready.region (suc (length content)) inst.encoding_map chain content []
          c.stores.sound ready.code bytes c.stores.holds (omega arith) in
      let keeps = c.keeps in (c.succeeds, rw keeps (rw e refl))
