-- ===== src/Files/Chunks.antt =====
-- The content of a file in its chain of blocks: what `write_chunks` stores and `read_chunks` returns.
use omni_file_system.Prelude.{
  ℕ, ◌+◌, ◌-◌, ◌*◌, ◌^◌, ◌≤◌, ◌<◌, ◌≡◌, refl, ap, ◌∙◌, true, Bool-cases, inl, inr, List, [], ◌∷◌,
  arith, length, take, drop, length-map, length-take, take_all,
}
use omni_file_system.Prelude.Bytes.{Bytes}
use omni_file_system.Prelude.Preds.{Ascending}
use omni_file_system.Stream.{Fstream}
use omni_file_system.Stream.Laws.{IsSound, SameFile}
use omni_file_system.Blocks.{BlockRead, write_block, filled}
use omni_file_system.Blocks.Laws.{IsPlaced, block_at, length-block_image, write_block-Wrote}
use omni_file_system.Blocks.RoundTrip.{block_at-Wrote, block_at-Wrote_apart}
use omni_file_system.Codec.{encode_data, encoding_initialized}
use omni_file_system.Files.{write_chunks, first_or_zero}

pub length-encode_data :
    (encoding_map xs : Bytes) → length (encode_data encoding_map xs) ≡ length xs
unfolding encode_data
length-encode_data encoding_map xs = elim (Bool-cases (encoding_initialized encoding_map)) [
  | inl on ↦ rw on (length-map xs _)
  | inr off ↦ rw off
]

-- Blocks 1 to `blocks` from `region` on, each of `size` bytes, where no address wraps.
pub record IsRegion (region size blocks : ℕ) : Type 0 where
  pub room : 4 < size
  pub narrow : size < 2 ^ 32
  pub counted : blocks < 2 ^ 32
  pub fits : region + blocks * size < 2 ^ 64

pub below_multiple : (a b d : ℕ) → a ≤ b → a * d ≤ b * d
below_multiple a b d h = grind arith

module _ {region size blocks : ℕ} (r : IsRegion region size blocks) where
  pub placed : (b : ℕ) → 0 < b → b ≤ blocks → IsPlaced region size b
  placed b pos le =
      let s = below_multiple (b - 1) blocks size (omega arith) in
      record { room = r.room; narrow = r.narrow; numbered = pos; fits = omega (arith, r.fits, s) }

  abbrev pub position : ℕ → ℕ
  position b = region + (b - 1) * size

  -- What the block of a chunk reads as.
  abbrev pub chunk_read : Bytes → ℕ → Bytes → BlockRead
  chunk_read encoding_map next chunk = record {
    ok = true;
    next = next;
    payload = filled (size - 4) (encode_data encoding_map chunk);
  }

  -- The chain `bs` holds the encoded bytes of `content`, a full block's worth in each block but the
  -- last.
  abbrev pub Holds : Bytes → Fstream → List ℕ → Bytes → Type 0
  Holds encoding_map f [] content = content ≡ []
  Holds encoding_map f (b ∷ bs) content =
      (0 < b)
      × (b ≤ blocks)
      × (0 < length content)
      × (position b + size ≤ f.extent)
      × (block_at f.byte (position b) size
          ≡ chunk_read encoding_map (first_or_zero bs) (take (size - 4) content))
      × Holds encoding_map f bs (drop (size - 4) content)

  -- As many blocks as the content fills.
  abbrev pub Covers : List ℕ → Bytes → Type 0
  Covers [] content = content ≡ []
  Covers (b ∷ bs) content = (0 < length content) × Covers bs (drop (size - 4) content)

  -- Blocks up to `lo` read in `g` as in `f`.
  abbrev pub KeepsBelow : ℕ → Fstream → Fstream → Type 0
  KeepsBelow lo f g =
      (j : ℕ)
      → 0 < j
      → j ≤ lo
      → j ≤ blocks
      → block_at g.byte (position j) size ≡ block_at f.byte (position j) size

  pub record Stored (encoding_map : Bytes) (lo : ℕ) (f g : Fstream) (bs : List ℕ) (content : Bytes)
      : Type 0 where
    pub sound : IsSound g
    pub grows : f.extent ≤ g.extent
    pub holds : Holds encoding_map g bs content
    pub keeps : KeepsBelow lo f g

  first_small : (lo : ℕ) (bs : List ℕ) → Ascending lo blocks bs → first_or_zero bs < 2 ^ 32
  first_small lo [] a = omega arith
  first_small lo (b ∷ bs) a = omega (arith, r.counted)

  read_of : ℕ → Bytes → BlockRead
  read_of next payload = record { ok = true; next = next; payload = payload }

  chunk_written :
      (encoding_map chunk : Bytes)
      → length chunk ≤ size - 4
      → filled (size - 4) (take (size - 4) (encode_data encoding_map chunk))
        ≡ filled (size - 4) (encode_data encoding_map chunk)
  chunk_written encoding_map chunk le = ap (filled (size - 4)) (
      take_all (size - 4) (encode_data encoding_map chunk)
        (omega (arith, length-encode_data encoding_map chunk)))

  pub write_chunks-Stored :
      (encoding_map : Bytes) (bs : List ℕ) (lo : ℕ) (content : Bytes) {f : Fstream}
      → IsSound f
      → Ascending lo blocks bs
      → Covers bs content
      → let w = write_chunks region size (size - 4) encoding_map bs content f in
        (w.0 ≡ true) × Stored encoding_map lo f w.1 bs content
  unfolding write_chunks read_of
  write_chunks-Stored encoding_map [] lo content v a c = (
    refl,
    record { sound = v; grows = omega arith; holds = c; keeps = λ j pos le in_range. refl },
  )
  write_chunks-Stored encoding_map (b ∷ bs) lo content {f} v a c =
      let chunk = take (size - 4) content in
      let enc = encode_data encoding_map chunk in
      let p = placed b (omega arith) a.1 in
      let next = first_or_zero bs in
      let (done, w) = write_block-Wrote p next enc v in
      let g = (write_block region size b next enc f).1 in
      let (rest_done, rest) =
        write_chunks-Stored encoding_map bs b (drop (size - 4) content) w.sound a.2 c.1 in
      let own = block_at-Wrote p next enc (first_small b bs a.2) w in
      let le : length chunk ≤ size - 4 = omega (arith, length-take (size - 4) content) in
      let len = length-block_image size next enc (omega (arith, r.room)) in
      rw (done, rest_done)
        (
          refl,
          record {
            sound = rest.sound;
            grows = omega (arith, w.grows, rest.grows);
            holds = (
              omega arith,
              a.1,
              c.0,
              omega (arith, w.reaches, rest.grows, len),
              rest.keeps b (omega arith) (omega arith) a.1
                  ∙ own
                  ∙ ap (read_of next) (chunk_written encoding_map chunk le),
              rest.holds,
            );
            keeps = λ j pos le' in_range.
                rest.keeps j pos (omega arith) in_range
                ∙ block_at-Wrote_apart p (placed j pos in_range) next enc (omega arith) w;
          },
        )

  pub Holds-SameFile :
      (encoding_map : Bytes) (bs : List ℕ) (content : Bytes) {f g : Fstream}
      → SameFile f g
      → Holds encoding_map f bs content
      → Holds encoding_map g bs content
  Holds-SameFile encoding_map [] content s h = h
  Holds-SameFile encoding_map (b ∷ bs) content s h = (
    h.0,
    h.1,
    h.2,
    omega (arith, h.3, s.extent),
    rw (s.bytes) (h.4),
    Holds-SameFile encoding_map bs (drop (size - 4) content) s h.5,
  )
