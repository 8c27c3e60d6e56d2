-- ===== src/Files/Carry.antt =====
-- Chains of blocks with more in them than the file: what is left of a longer content.
use mathlib.Core.List.{append-nil, append_assoc}
use omni_file_system.Prelude.{
  ℕ, zero, suc, ◌+◌, ◌-◌, ◌≤◌, ◌<◌, ◌≡◌, refl, sym, ap, ◌∙◌, some, List, [], ◌∷◌, ◌++◌, arith,
  length, take, drop, take-append_left, length-take, length-drop, take-append-drop, ==_zero_pos,
  lt→ltb, min, replicate,
}
use omni_file_system.Prelude.Bytes.{Bytes}
use omni_file_system.Prelude.Words.{from_le}
use omni_file_system.Prelude.Preds.{All-take, All-drop}
use omni_file_system.Stream.{Fstream, read_at}
use omni_file_system.Stream.Laws.{IsSound, SameFile, SameFile-refl, SameFile-trans, length-read_at}
use omni_file_system.Blocks.{BlockRead, filled}
use omni_file_system.Blocks.Laws.{read_block_lem}
use omni_file_system.Codec.{encode_data}
use omni_file_system.Codec.RoundTrip.{IsCode, AreBytes, decode_data-encode_data}
use omni_file_system.Instance.{finished}
use omni_file_system.Files.{read_chunks, first_or_zero}
use omni_file_system.Files.Chunks.{IsRegion, placed, position, length-encode_data, Holds}

take-filled : (n : ℕ) (xs : Bytes) → length xs ≤ n → take (length xs) (filled n xs) ≡ xs
take-filled n xs le = take-append_left (length xs) xs (replicate (n - length xs) 0) refl

module _ {region size blocks : ℕ} (r : IsRegion region size blocks) where
  -- The chain `bs` starts with the encoded bytes of `content`; behind them each block holds anything.
  abbrev pub Carries : Bytes → Fstream → List ℕ → Bytes → Type 0
  Carries encoding_map f [] content = content ≡ []
  Carries encoding_map f (b ∷ bs) content =
      (0 < b)
      × (b ≤ blocks)
      × (0 < length content)
      × (position r b + size ≤ f.extent)
      × (from_le (read_at f.byte (position r b) 4) ≡ first_or_zero bs)
      × (take (length (take (size - 4) content)) (read_at f.byte (position r b + 4) (size - 4))
          ≡ encode_data encoding_map (take (size - 4) content))
      × Carries encoding_map f bs (drop (size - 4) content)

  Carries-SameFile :
      (encoding_map : Bytes) (bs : List ℕ) (content : Bytes) {f g : Fstream}
      → SameFile f g
      → Carries encoding_map f bs content
      → Carries encoding_map g bs content
  Carries-SameFile encoding_map [] content s h = h
  Carries-SameFile encoding_map (b ∷ bs) content s (pos, le, left, inside, link, bytes, more) = (
    pos,
    le,
    left,
    omega (arith, inside, s.extent),
    rw (s.bytes) link,
    rw (s.bytes) bytes,
    Carries-SameFile encoding_map bs (drop (size - 4) content) s more,
  )

  -- Reading as many bytes as the content has gives the content, and needs no more rounds than
  -- there are bytes.
  pub read_chunks-Carries :
      (fuel : ℕ) (encoding_map : Bytes) (bs : List ℕ) (content acc : Bytes) {f : Fstream}
      → IsSound f
      → IsCode encoding_map
      → AreBytes content
      → Carries encoding_map f bs content
      → length content < fuel
      → let w =
          read_chunks fuel region size encoding_map (first_or_zero bs) (length content) acc f in
        (w.0 ≡ finished (some (acc ++ content))) × SameFile f w.1
  unfolding read_chunks
  read_chunks-Carries zero encoding_map bs content acc v code bytes h le = absurd (omega arith)
  read_chunks-Carries (suc fuel) encoding_map [] content acc v code bytes h le =
      rw h (rw append-nil (refl, SameFile-refl v))
  read_chunks-Carries (suc fuel) encoding_map (b ∷ bs) content acc {f} v code bytes
        (pos, in_range, some_left, inside, link, start, more) le =
      let chunk = take (size - 4) content in
      let p = placed r b pos in_range in
      let (e, s) = read_block_lem p v inside in
      let back =
        decode_data-encode_data encoding_map chunk code
          (All-take (λ x. x < 256) (size - 4) content bytes) in
      let k : min (length content) (length (read_at f.byte (position r b + 4) (size - 4)))
          ≡ length chunk =
        omega (
          arith,
          length-read_at f.byte (position r b + 4) (size - 4),
          length-take (size - 4) content,
        ) in
      let room = r.room in
      let left : length content - length chunk ≡ length (drop (size - 4) content) =
        omega (arith, length-take (size - 4) content, length-drop (size - 4) content) in
      let fewer : length (drop (size - 4) content) < fuel =
        omega (arith, length-drop (size - 4) content) in
      let (e', s') =
        read_chunks-Carries fuel encoding_map bs (drop (size - 4) content) (acc ++ chunk) s.sound
          code (All-drop (λ x. x < 256) (size - 4) content bytes)
          (Carries-SameFile encoding_map bs (drop (size - 4) content) s more) fewer in
      rw
        (
          ==_zero_pos b pos,
          lt→ltb 0 (length content) some_left,
          e,
          link,
          k,
          start,
          back,
          left,
          e',
          append_assoc,
          take-append-drop,
        )
        (refl, SameFile-trans s s')

  Holds-Carries :
      (encoding_map : Bytes) (bs : List ℕ) (content : Bytes) (f : Fstream)
      → Holds r encoding_map f bs content
      → Carries encoding_map f bs content
  Holds-Carries encoding_map [] content f h = h
  Holds-Carries encoding_map (b ∷ bs) content f (pos, le, left, inside, image, more) =
      let chunk = take (size - 4) content in
      let len = length-encode_data encoding_map chunk in
      let payload = ap (λ (x : BlockRead). x.payload) image in
      let start =
        take-filled (size - 4) (encode_data encoding_map chunk)
          (omega (arith, len, length-take (size - 4) content)) in
      (
        pos,
        le,
        left,
        inside,
        ap (λ (x : BlockRead). x.next) image,
        rw payload (
            ap (λ k. take k (filled (size - 4) (encode_data encoding_map chunk))) (sym len)
            ∙ start),
        Holds-Carries encoding_map bs (drop (size - 4) content) f more,
      )

  -- Reading a chain gives back the bytes that it holds, to the last one.
  pub read_chunks-Holds :
      (fuel : ℕ) (encoding_map : Bytes) (bs : List ℕ) (content acc : Bytes) {f : Fstream}
      → IsSound f
      → IsCode encoding_map
      → AreBytes content
      → Holds r encoding_map f bs content
      → length content < fuel
      → let w =
          read_chunks fuel region size encoding_map (first_or_zero bs) (length content) acc f in
        (w.0 ≡ finished (some (acc ++ content))) × SameFile f w.1
  read_chunks-Holds fuel encoding_map bs content acc {f} v code bytes h le =
      read_chunks-Carries fuel encoding_map bs content acc v code bytes
        (Holds-Carries encoding_map bs content f h) le
