-- ===== src/Files/Relink.antt =====
-- The walk along a chain of blocks, and the link that `file_truncate` writes.
use omni_file_system.Prelude.{
  ℕ, zero, suc, ◌+◌, ◌-◌, ◌^◌, ◌%◌, ◌⊎◌, ◌≤◌, ◌<◌, ◌≡◌, refl, ap, ◌∙◌, Bool-cases, false, inl, inr,
  List, [], ◌∷◌, arith, length, drop, ==_zero_pos, ◌==◌, ◌≢◌, ltb,
}
use omni_file_system.Prelude.Bytes.{Bytes}
use omni_file_system.Prelude.Words.{u32, from_le, to_le, length-to_le, from_le-to_le_4}
use omni_file_system.Stream.{Fstream, read_at}
use omni_file_system.Stream.Laws.{
  IsSound, SameFile, SameFile-refl, SameFile-trans, Wrote, read_at-congr, read_at-Wrote_self,
}
use omni_file_system.Blocks.{BlockRead, chain_loop, get_block_chain}
use omni_file_system.Blocks.Laws.{read_block_lem}
use omni_file_system.Blocks.RoundTrip.{starts_apart}
use omni_file_system.Instance.Frame.{KeepsRegion, Wrote-byte}
use omni_file_system.Files.{first_or_zero}
use omni_file_system.Files.Truncate.{last_of}
use omni_file_system.Files.Chunks.{IsRegion, placed, position, Holds, Holds-SameFile}
use omni_file_system.Files.Cut.{CutAt}

module _ {region size blocks : ℕ} (r : IsRegion region size blocks) where
  chain_loop-Holds :
      (rounds count : ℕ) (encoding_map : Bytes) (bs : List ℕ) (content : Bytes) {f : Fstream}
      → IsSound f
      → Holds r encoding_map f bs content
      → blocks + 2 < 2 ^ 32
      → count + length bs ≤ blocks
      → length bs < rounds
      → let w = chain_loop rounds region size blocks count (first_or_zero bs) f in
        (w.0 ≡ bs) × SameFile f w.1
  unfolding chain_loop
  chain_loop-Holds zero count encoding_map bs content v h counted fits le = absurd (omega arith)
  chain_loop-Holds (suc rounds) count encoding_map [] content v h counted fits le =
      (refl, SameFile-refl v)
  chain_loop-Holds (suc rounds) count encoding_map (b ∷ bs) content {f} v
        (pos, in_range, left, inside, image, more) counted fits le =
      let p = placed r b pos in_range in
      let (e, s) = read_block_lem p v inside in
      let got = e ∙ image in
      let goes_on : ltb (u32 (blocks + 2)) (suc count) ≡ false =
        let z : (blocks + 2) % 2 ^ 32 ≡ blocks + 2 = omega arith in rw z (ground arith) in
      let (e', s') =
        chain_loop-Holds rounds (suc count) encoding_map bs (drop (size - 4) content) s.sound
          (Holds-SameFile r encoding_map bs (drop (size - 4) content) s more) counted (omega arith)
          (omega arith) in
      rw (==_zero_pos b pos, got, goes_on, e') (refl, SameFile-trans s s')

  -- The walk finds the chain.
  pub get_block_chain-Holds :
      (encoding_map : Bytes) (bs : List ℕ) (content : Bytes) {f : Fstream}
      → IsSound f
      → Holds r encoding_map f bs content
      → blocks + 2 < 2 ^ 32
      → length bs ≤ blocks
      → let w = get_block_chain region size blocks (first_or_zero bs) f in
        (w.0 ≡ bs) × SameFile f w.1
  unfolding get_block_chain
  get_block_chain-Holds encoding_map bs content v h counted fits =
      chain_loop-Holds (blocks + 3) 0 encoding_map bs content v h counted (omega arith)
        (omega arith)

  KeepsRegion-read_at :
      {f g : Fstream} (p n : ℕ)
      → KeepsRegion region f g
      → region ≤ p
      → read_at g.byte p n ≡ read_at f.byte p n
  KeepsRegion-read_at {f} {g} p n k le =
      read_at-congr g.byte f.byte p p n (λ i lt. k.beyond (p + i) (omega arith))

  -- A byte of another block lies outside the link of block `last`.
  beyond_link :
      (last j : ℕ)
      → 0 < last
      → last ≤ blocks
      → 0 < j
      → j ≤ blocks
      → last ≢ j
      → (q : ℕ) → position r j ≤ q
      → q < position r j + size
      → (q < position r last) ⊎ (position r last + 4 ≤ q)
  beyond_link last j pos le pos' le' ne q lo hi =
      let room = r.room in
      elim (starts_apart (placed r last pos le) (placed r j pos' le') ne) [
        | inl a ↦ inr (omega arith)
        | inr b ↦ inl (omega arith)
      ]

  -- So does the payload of block `last`.
  beyond_head :
      (last j : ℕ)
      → 0 < last
      → last ≤ blocks
      → 0 < j
      → j ≤ blocks
      → (q : ℕ) → position r j + 4 ≤ q
      → q < position r j + size
      → (q < position r last) ⊎ (position r last + 4 ≤ q)
  beyond_head last j pos le pos' le' q lo hi = elim (Bool-cases (last == j)) [
    | inl same ↦
        let e : last ≡ j = ground arith in let e' = ap (position r) e in inr (omega (arith, e'))
    | inr other ↦ beyond_link last j pos le pos' le' (λ e. ground arith) q (omega arith) hi
  ]

  -- The link of block `last` is written, and then nothing else in the region.
  pub Wrote-CutAt :
      (last : ℕ) {f g h : Fstream}
      → 0 < last
      → last ≤ blocks
      → Wrote (position r last) (to_le 4 0) f g
      → KeepsRegion region g h
      → CutAt r last f h
  Wrote-CutAt last {f} {g} {h} pos le w k =
      let room = r.room in
      let wide = length-to_le 4 0 in
      let w' : (q : ℕ) → (q < position r last) ⊎ (position r last + 4 ≤ q) → g.byte q ≡ f.byte q =
        λ q apart. Wrote-byte w q (rw wide apart) in
      let link = (rw wide at (read_at-Wrote_self w)) in
      record {
        grows = omega (arith, w.grows, k.grows);
        payloads = λ j pos' le'.
            KeepsRegion-read_at (position r j + 4) (size - 4) k (omega arith)
            ∙ read_at-congr g.byte f.byte (position r j + 4) (position r j + 4) (size - 4) (λ i lt.
              w' (position r j + 4 + i) (
                beyond_head last j pos le pos' le' (position r j + 4 + i) (omega arith)
                  (omega arith)));
        links = λ j pos' le' ne.
            KeepsRegion-read_at (position r j) 4 k (omega arith)
            ∙ read_at-congr g.byte f.byte (position r j) (position r j) 4 (λ i lt.
              w' (position r j + i) (
                beyond_link last j pos le pos' le' ne (position r j + i) (omega arith)
                  (omega arith)));
        ended =
            ap from_le (KeepsRegion-read_at (position r last) 4 k (omega arith) ∙ link)
            ∙ from_le-to_le_4 0 (omega arith);
      }

  Holds-ended :
      (encoding_map : Bytes) (b : ℕ) (bs : List ℕ) (content : Bytes) (f : Fstream)
      → Holds r encoding_map f (b ∷ bs) content
      → from_le (read_at f.byte (position r (last_of b bs)) 4) ≡ 0
  unfolding last_of
  Holds-ended encoding_map b [] content f (pos, le, left, inside, image, more) =
      ap (λ (x : BlockRead). x.next) image
  Holds-ended encoding_map b (c ∷ bs) content f (pos, le, left, inside, image, more) =
      Holds-ended encoding_map c bs (drop (size - 4) content) f more

  -- The last block of a chain ends it already.
  pub Holds-CutAt :
      (encoding_map : Bytes) (b : ℕ) (bs : List ℕ) (content : Bytes) (f h : Fstream)
      → Holds r encoding_map f (b ∷ bs) content
      → KeepsRegion region f h
      → CutAt r (last_of b bs) f h
  Holds-CutAt encoding_map b bs content f h held k = record {
    grows = k.grows;
    payloads = λ j pos le. KeepsRegion-read_at (position r j + 4) (size - 4) k (omega arith);
    links = λ j pos le ne. KeepsRegion-read_at (position r j) 4 k (omega arith);
    ended =
        ap from_le (KeepsRegion-read_at (position r (last_of b bs)) 4 k (omega arith))
        ∙ Holds-ended encoding_map b bs content f held;
  }
