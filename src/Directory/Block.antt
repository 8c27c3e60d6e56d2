-- ===== src/Directory/Block.antt =====
-- A directory of one block: what it lists, and what adding and removing a child write.
use omni_file_system.Prelude.{
  ℕ, suc, ◌+◌, ◌*◌, ◌≤◌, ◌<◌, ◌≡◌, refl, ap, ◌∙◌, true, some, List, [], ◌++◌, arith, length, take,
  length-take, take_all, length-append, ==_zero_pos,
}
use mathlib.Core.Path.{subst}
use omni_file_system.Prelude.Bytes.{Bytes}
use omni_file_system.Prelude.Words.{to_le, from_le, length-to_le, from_le-to_le_4}
use omni_file_system.Prelude.Preds.{All, All-take}
use omni_file_system.Stream.{Fstream, read_at, seekg, read}
use omni_file_system.Stream.Laws.{
  IsSound, Wrote, SameFile, Wrote-append, write-Wrote, flush-Wrote, seekp-SameFile, seekg-SameFile,
  SameFile-trans, seekp-position, seekg-position, is_good-IsSound, Wrote-SameFile, Wrote-at,
  read-inside, read_at-Wrote_self, read_at-parts,
}
use omni_file_system.Blocks.Laws.{IsPlaced, start, block_position_lem, filled_all}
use omni_file_system.Instance.{FsInstance, finished}
use omni_file_system.Directory.{
  dir_loop, words_of, words_image, new_payload, payload_count, block_size_of, write_children,
  nonzero,
}
use omni_file_system.Directory.Words.{
  IsIndex, nonzero-new_payload, length-words_image, length-new_payload,
}

-- The bytes that hold the children `cs`.
abbrev pub dir_image : ℕ → List ℕ → Bytes
dir_image blk_size cs = to_le 4 0 ++ words_image (new_payload (payload_count blk_size) cs)

pub length-dir_image :
    (blk_size : ℕ) (cs : List ℕ)
    → All IsIndex cs
    → length (dir_image blk_size cs) ≡ 4 + payload_count blk_size * 4
length-dir_image blk_size cs h =
    let count = payload_count blk_size in
    let p = new_payload count cs in
    omega (
      arith,
      length-append (to_le 4 0) (words_image p),
      length-to_le 4 0,
      length-words_image p,
      length-new_payload count cs h,
    )

module _ {region blk_size index : ℕ} (h : IsPlaced region blk_size index)
    (room : 8 ≤ blk_size) where
  -- The block holds exactly the children `cs`, and no block follows.
  pub record Lists (f : Fstream) (cs : List ℕ) : Type 0 where
    pub indices : All IsIndex cs
    pub fit : length cs ≤ payload_count blk_size
    pub inside : start h + (4 + payload_count blk_size * 4) ≤ f.extent
    pub image : read_at f.byte (start h) (4 + payload_count blk_size * 4) ≡ dir_image blk_size cs

  count_pos : 0 < payload_count blk_size
  count_pos = omega (arith, h.narrow)

  -- One round of the loop on the block, to its end.
  pub dir_loop-Lists :
      (fuel : ℕ) {f : Fstream} {cs : List ℕ}
      → IsSound f
      → Lists f cs
      → ((dir_loop (suc (suc fuel)) region blk_size index [] f).0 ≡ finished (some cs))
        × SameFile f (dir_loop (suc (suc fuel)) region blk_size index [] f).1
  unfolding dir_loop
  dir_loop-Lists fuel {f} {cs} v l =
      let count = payload_count blk_size in
      let same = seekg-SameFile (start h) v in
      let at = seekg-position (start h) v in
      let g = seekg (start h) f in
      let (eh, sh, ph) = read-inside 4 same.sound (omega (arith, same.extent, at, l.inside)) in
      let k = (read 4 g).1 in
      let (eb, sb, pb) =
        read-inside (count * 4) sh.sound
          (omega (arith, same.extent, sh.extent, at, ph, l.inside)) in
      let p = new_payload count cs in
      let (e4, ec) =
        read_at-parts f.byte (start h) 4 (count * 4) (to_le 4 0) (words_image p) l.image
          (length-to_le 4 0) in
      let bh : (read 4 g).0 ≡ to_le 4 0 = eh ∙ rw (at, same.bytes) e4 in
      let ph' : k.position ≡ start h + 4 = ph ∙ ap (λ (t : ℕ). t + 4) at in
      let bb : (read (count * 4) k).0 ≡ words_image p = eb ∙ rw (ph', sh.bytes, same.bytes) ec in
      let fh = filled_all 4 (to_le 4 0) (length-to_le 4 0) in
      let fb =
        filled_all (count * 4) (words_image p)
          (omega (arith, length-words_image p, length-new_payload count cs l.indices)) in
      let z : from_le (to_le 4 0) ≡ 0 = from_le-to_le_4 0 (omega arith) in
      let listed : nonzero (words_of count (words_image p)) ≡ cs =
        nonzero-new_payload count cs l.indices ∙ take_all count cs l.fit in
      rw
        (
          ==_zero_pos index h.numbered,
          block_position_lem h,
          is_good-IsSound same.sound,
          is_good-IsSound sb.sound,
          bh,
          bb,
          fh,
          fb,
          z,
          listed,
        )
        (refl, SameFile-trans same (SameFile-trans sh sb))

  -- The list of children goes to the block, as far as it fits, and nothing else changes.
  pub write_children-Wrote :
      (cs : List ℕ) (inst : FsInstance)
      → IsSound inst.file
      → inst.blocks_offset ≡ region
      → block_size_of inst ≡ blk_size
      → All IsIndex cs
      → let r = write_children index cs inst in
        (r.0 ≡ true)
        × Wrote (start h) (dir_image blk_size cs) inst.file r.1.file
        × (r.1 ≡ record inst { file = r.1.file })
  unfolding write_children
  write_children-Wrote cs inst v at_region sized idx =
      let f = inst.file in
      let p = new_payload (payload_count blk_size) cs in
      let same = seekp-SameFile (start h) v in
      let head = write-Wrote (to_le 4 0) same.sound (omega (arith, length-to_le 4 0)) in
      let body = write-Wrote (words_image p) head.sound (
        omega (
          arith,
          count_pos,
          length-words_image p,
          length-new_payload (payload_count blk_size) cs idx,
        )) in
      let both = flush-Wrote (Wrote-append head body) in
      let done = Wrote-at (seekp-position (start h) v) (Wrote-SameFile same both) in
      rw (sized, at_region, block_position_lem h) (is_good-IsSound done.sound, done, refl)

  -- What was written is listed.
  pub Lists-written :
      (cs : List ℕ) {f g : Fstream}
      → All IsIndex cs
      → Wrote (start h) (dir_image blk_size cs) f g
      → Lists g (take (payload_count blk_size) cs)
  Lists-written cs {f} {g} idx w =
      let count = payload_count blk_size in
      let len = length-dir_image blk_size cs idx in
      let image = dir_image blk_size cs in
      let fit : length (take count cs) ≤ count = omega (arith, length-take count cs) in
      let whole = subst (λ k. read_at g.byte (start h) k ≡ image) len (read_at-Wrote_self w) in
      record {
        indices = All-take IsIndex count cs idx;
        fit = fit;
        inside = omega (arith, w.reaches, len);
        image = rw (take_all count (take count cs) fit) whole;
      }

  pub Lists-SameFile : {f g : Fstream} {cs : List ℕ} → SameFile f g → Lists f cs → Lists g cs
  Lists-SameFile s l = record {
    indices = l.indices;
    fit = l.fit;
    inside = omega (arith, s.extent, l.inside);
    image = rw (s.bytes) l.image;
  }
