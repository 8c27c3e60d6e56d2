-- ===== src/Blocks/RoundTrip.antt =====
-- A block that was written is read back, and every other block reads as before.
use mathlib.Core.Path.{subst}
use omni_file_system.Prelude.Words.{to_le, length-to_le, from_le-to_le_4}
use omni_file_system.Blocks.{write_block, read_block, filled}
use omni_file_system.Stream.Laws.{
  IsSound, Wrote, read_at-Wrote_self, read_at-parts, read_at-Wrote_apart,
}
use omni_file_system.Stream.{Fstream, read_at}
use omni_file_system.Prelude.Bytes.{Bytes}
use omni_file_system.Blocks.Laws.{
  IsPlaced, start, block_image, block_at, length-block_image, write_block-Wrote, read_block_lem,
}
use omni_file_system.Prelude.{
  zero, suc, inl, inr, ℕ, arith, ◌<◌, ◌^◌, ◌≡◌, true, ◌-◌, take, ◌+◌, ◌∙◌, length, ◌*◌, ◌≢◌, ◌≤◌,
  ◌⊎◌, sym, Bool-cases, ltb, ltb→lt,
}

module _ {region block_size index : ℕ} (h : IsPlaced region block_size index) where
  pub block_at-Wrote :
      (next : ℕ) (content : Bytes) {f g : Fstream}
      → next < 2 ^ 32
      → Wrote (start h) (block_image block_size next content) f g
      → block_at g.byte (start h) block_size ≡ record {
        ok = true;
        next = next;
        payload = filled (block_size - 4) (take (block_size - 4) content);
      }
  block_at-Wrote next content {f} {g} small w =
      let n = block_size - 4 in
      let body = filled n (take n content) in
      let len = length-block_image block_size next content (omega (arith, h.room)) in
      let size : 4 + n ≡ block_size = omega (arith, h.room) in
      let image = block_image block_size next content in
      let total : length image ≡ 4 + n = omega (arith, len, size) in
      let whole = subst (λ k. read_at g.byte (start h) k ≡ image) total (read_at-Wrote_self w) in
      let (head, rest) =
        read_at-parts g.byte (start h) 4 n (to_le 4 next) body whole (length-to_le 4 next) in
      rw (head, rest, from_le-to_le_4 next small)

  -- On a working device, for a block whose place is in the address range and a next number below
  -- 2^32: `read_block` after `write_block` of the same block succeeds and returns the next
  -- number and the content, cut to the block's room and padded with zeros.
  pub read_block-write_block :
      (next : ℕ) (content : Bytes) {f : Fstream}
      → IsSound f
      → next < 2 ^ 32
      → let g = (write_block region block_size index next content f).1 in
        (read_block region block_size index g).0 ≡ record {
          ok = true;
          next = next;
          payload = filled (block_size - 4) (take (block_size - 4) content);
        }
  read_block-write_block next content v small =
      let (done, w) = write_block-Wrote h next content v in
      let len = length-block_image block_size next content (omega (arith, h.room)) in
      (read_block_lem h w.sound (omega (arith, w.reaches, len))).0
      ∙ block_at-Wrote next content small w

-- Two blocks do not overlap.
blocks_apart :
    (i j block_size : ℕ) → 0 < i → i < j → (i - 1) * block_size + block_size ≤ (j - 1) * block_size
blocks_apart (suc i) (suc j) block_size h k =
    let e : suc i - 1 ≡ i = omega arith in
    let e' : suc j - 1 ≡ j = omega arith in rw (e, e') (grind arith)
blocks_apart zero j block_size h k = absurd (omega arith)
blocks_apart (suc i) zero block_size h k = absurd (omega arith)

module _ {region block_size i j : ℕ} (h : IsPlaced region block_size i)
    (k : IsPlaced region block_size j) where
  pub starts_apart : i ≢ j → (start h + block_size ≤ start k) ⊎ (start k + block_size ≤ start h)
  starts_apart ne = elim (Bool-cases (ltb i j)) [
    | inl lt ↦ inl (omega (arith, blocks_apart i j block_size h.numbered (ltb→lt i j lt)))
    | inr ge ↦
        let gt : j < i = ground arith in
        inr (omega (arith, blocks_apart j i block_size k.numbered gt))
  ]

  -- Writing block `i` leaves block `j` as it was.
  pub block_at-Wrote_apart :
      (next : ℕ) (content : Bytes) {f g : Fstream}
      → i ≢ j
      → Wrote (start h) (block_image block_size next content) f g
      → block_at g.byte (start k) block_size ≡ block_at f.byte (start k) block_size
  block_at-Wrote_apart next content {f} {g} ne w =
      let len = length-block_image block_size next content (omega (arith, h.room)) in
      let room = h.room in
      elim (starts_apart ne) [
        | inl a ↦
            let e = read_at-Wrote_apart w (start k) 4 (inr (omega arith)) in
            let e' = read_at-Wrote_apart w (start k + 4) (block_size - 4) (inr (omega arith)) in
            rw (e, e')
        | inr b ↦
            let e = read_at-Wrote_apart w (start k) 4 (inl (omega arith)) in
            let e' = read_at-Wrote_apart w (start k + 4) (block_size - 4) (inl (omega arith)) in
            rw (e, e')
      ]

  -- On a working device, for two different blocks whose places are in the address range: when
  -- block `j` lies inside the file, writing block `i` leaves what `read_block` returns for block
  -- `j`, its success, its next number and its payload.
  pub read_block-write_block_apart :
      (next : ℕ) (content : Bytes) {f : Fstream}
      → IsSound f
      → start k + block_size ≤ f.extent
      → i ≢ j
      → let g = (write_block region block_size i next content f).1 in
        (read_block region block_size j g).0 ≡ (read_block region block_size j f).0
  read_block-write_block_apart next content v inside ne =
      let (done, w) = write_block-Wrote h next content v in
      (read_block_lem k w.sound (omega (arith, inside, w.grows))).0
      ∙ block_at-Wrote_apart next content ne w
      ∙ sym (read_block_lem k v inside).0
