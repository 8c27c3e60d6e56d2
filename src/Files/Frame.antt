-- ===== src/Files/Frame.antt =====
-- What the writes of an operation leave alone: each block that is not written.
use omni_file_system.Prelude.{
  ℕ, ◌+◌, ◌-◌, ◌*◌, ◌≤◌, ◌<◌, ◌≡◌, ◌≢◌, inl, inr, refl, ◌∙◌, true, false, List, [], ◌∷◌, arith,
  length, drop, ◌==◌, ◌||◌, take,
}
use omni_file_system.Prelude.Bytes.{Bytes}
use omni_file_system.Prelude.Preds.{Ascending, has}
use omni_file_system.Stream.{Fstream}
use omni_file_system.Stream.Laws.{IsSound, Wrote, read_at-congr}
use omni_file_system.Blocks.Laws.{IsPlaced, block_at, length-block_image, write_block-Wrote}
use omni_file_system.Blocks.RoundTrip.{starts_apart}
use omni_file_system.Codec.{encode_data}
use omni_file_system.Instance.Frame.{Wrote-byte, KeepsRegion}
use omni_file_system.Directory.{payload_count}
use omni_file_system.Directory.Block.{Lists}
use omni_file_system.Files.{write_chunks, first_or_zero}
use omni_file_system.Files.Chunks.{IsRegion, placed, position, Holds}

module _ {region size blocks : ℕ} (r : IsRegion region size blocks) where
  -- Block `j` has the same bytes in `f` and in `g`.
  abbrev pub SameBlock : Fstream → Fstream → ℕ → Type 0
  SameBlock f g j = (q : ℕ) → position r j ≤ q → q < position r j + size → g.byte q ≡ f.byte q

  pub KeepsRegion-SameBlock : {f g : Fstream} → KeepsRegion region f g → (j : ℕ) → SameBlock f g j
  KeepsRegion-SameBlock k j q le lt = k.beyond q (omega arith)

  -- A write within block `i` leaves block `j`.
  pub Wrote-SameBlock :
      {i j : ℕ} {xs : Bytes} {f g : Fstream}
      → IsPlaced region size i
      → IsPlaced region size j
      → i ≢ j
      → length xs ≤ size
      → Wrote (position r i) xs f g
      → SameBlock f g j
  Wrote-SameBlock {i} {j} h k ne short w q le lt = elim (starts_apart h k ne) [
    | inl a ↦ Wrote-byte w q (inr (omega arith))
    | inr b ↦ Wrote-byte w q (inl (omega arith))
  ]

  block_at-SameBlock :
      (f g : Fstream) (j : ℕ)
      → SameBlock f g j
      → block_at g.byte (position r j) size ≡ block_at f.byte (position r j) size
  block_at-SameBlock f g j s =
      let room = r.room in
      let e =
        read_at-congr g.byte f.byte (position r j) (position r j) 4
          (λ i lt. s (position r j + i) (omega arith) (omega arith)) in
      let e' =
        read_at-congr g.byte f.byte (position r j + 4) (position r j + 4) (size - 4)
          (λ i lt. s (position r j + 4 + i) (omega arith) (omega arith)) in
      rw (e, e')

  pub Holds-SameBlocks :
      (encoding_map : Bytes) (bs : List ℕ) (content : Bytes) (f g : Fstream)
      → f.extent ≤ g.extent
      → ((j : ℕ) → has bs j ≡ true → SameBlock f g j)
      → Holds r encoding_map f bs content
      → Holds r encoding_map g bs content
  unfolding has
  Holds-SameBlocks encoding_map [] content f g grows s h = h
  Holds-SameBlocks encoding_map (b ∷ bs) content f g grows s
        (pos, le, some_left, inside, image, more) =
      let first : (b == b || has bs b) ≡ true = ground arith in
      (
        pos,
        le,
        some_left,
        omega arith,
        block_at-SameBlock f g b (s b first) ∙ image,
        Holds-SameBlocks encoding_map bs (drop (size - 4) content) f g grows
            (λ j h. s j (ground (arith, h))) more,
      )

  pub Lists-SameBlock :
      {j : ℕ} (p : IsPlaced region size j) (room : 8 ≤ size) {f g : Fstream} {cs : List ℕ}
      → f.extent ≤ g.extent
      → SameBlock f g j
      → Lists p room f cs
      → Lists p room g cs
  Lists-SameBlock {j} p room {f} {g} grows s l =
      let n = 4 + payload_count size * 4 in
      let narrow = r.narrow in
      let e =
        read_at-congr g.byte f.byte (position r j) (position r j) n
          (λ i lt. s (position r j + i) (omega arith) (omega arith)) in
      record {
        indices = l.indices;
        fit = l.fit;
        inside = omega (arith, l.inside);
        image = e ∙ l.image;
      }

  -- Storing a file's content leaves every block outside its chain.
  pub write_chunks-SameBlock :
      (encoding_map : Bytes) (bs : List ℕ) (lo : ℕ) (content : Bytes) {f : Fstream} (j : ℕ)
      → IsSound f
      → Ascending lo blocks bs
      → 0 < j
      → j ≤ blocks
      → has bs j ≡ false
      → SameBlock f (write_chunks region size (size - 4) encoding_map bs content f).1 j
  unfolding write_chunks has
  write_chunks-SameBlock encoding_map [] lo content j v a pos le apart = λ q h k. refl
  write_chunks-SameBlock encoding_map (b ∷ bs) lo content {f} j v a pos le apart =
      let enc = encode_data encoding_map (take (size - 4) content) in
      let p = placed r b (omega arith) a.1 in
      let next = first_or_zero bs in
      let (done, w) = write_block-Wrote p next enc v in
      let other : b ≢ j = λ e. ground (arith, e) in
      let apart' : has bs j ≡ false = ground (arith, apart) in
      let room = r.room in
      let short = length-block_image size next enc (omega arith) in
      let here = Wrote-SameBlock p (placed r j pos le) other (omega (arith, short)) w in
      let rest =
        write_chunks-SameBlock encoding_map bs b (drop (size - 4) content) j w.sound a.2 pos le
          apart' in
      rw done (λ q h k. rest q h k ∙ here q h k)
