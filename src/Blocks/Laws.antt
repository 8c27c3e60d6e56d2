-- ===== src/Blocks/Laws.antt =====
-- What `write_block` leaves in the file, and that `read_block` reads it back.
use omni_file_system.Prelude.Words.{sub_u64, to_le, length-to_le, from_le}
use omni_file_system.Stream.Laws.{
  Wrote, Wrote-append, write-Wrote, IsSound, flush-Wrote, seekp-SameFile, is_good-IsSound,
  seekp-position, Wrote-SameFile, Wrote-at, SameFile, read-inside, seekg-SameFile, SameFile-trans,
  seekg-position, length-read_at,
}
use omni_file_system.Blocks.{
  write_padding, block_position, write_block_at, payload_size, write_block, write_payload, filled,
  read_block, read_block_at, BlockRead,
}
use omni_file_system.Stream.{Fstream, write, read_at, read}
use mathlib.Core.List.{append-nil, append_assoc}
use omni_file_system.Prelude.{
  [], ◌∷◌, zero, suc, ℕ, arith, take, ◌≤◌, length, ◌<◌, ◌^◌, ◌≡◌, ◌++◌, ◌-◌, replicate,
  length-append, length-take, length-replicate, min, ◌+◌, replicate-append, ◌*◌, eq-zero-suc,
  if◌then◌else◌, ltb, true, take-length-take, ==_zero_pos, lt→ltb,
}
use omni_file_system.Prelude.Bytes.{Bytes}

-- The bytes of a block: the next block's number, the content cut to the room, and zeros.
abbrev pub block_image : ℕ → ℕ → Bytes → Bytes
block_image block_size next content =
    let kept = take (block_size - 4) content in
    to_le 4 next ++ (kept ++ replicate (block_size - 4 - length kept) 0)

pub room_lem :
    (block_size : ℕ) → 4 ≤ block_size → block_size < 2 ^ 32 → sub_u64 block_size 4 ≡ block_size - 4
room_lem block_size h k = omega arith

pub length-block_image :
    (block_size next : ℕ) (content : Bytes)
    → 4 ≤ block_size
    → length (block_image block_size next content) ≡ block_size
length-block_image block_size next content h =
    let n = block_size - 4 in
    let kept = take n content in
    let zeros : Bytes = replicate (n - length kept) 0 in
    omega (
      arith,
      length-append (to_le 4 next) (kept ++ zeros),
      length-append kept zeros,
      length-to_le 4 next,
      length-take n content,
      length-replicate {A = ℕ} (n - length kept) 0,
    )

Wrote-write :
    {p : ℕ} {xs : Bytes} {f g : Fstream} (ys : Bytes)
    → Wrote p xs f g
    → 0 < length ys
    → Wrote p (xs ++ ys) f (write ys g)
Wrote-write ys w h = Wrote-append w (write-Wrote ys w.sound h)

write_padding-Wrote :
    (rounds pad p : ℕ) (xs : Bytes) (f g : Fstream)
    → pad ≤ rounds
    → Wrote p xs f g
    → Wrote p (xs ++ replicate pad 0) f (write_padding rounds pad g)
unfolding write_padding
write_padding-Wrote zero zero p xs f g h w = rw append-nil w
write_padding-Wrote zero (suc pad) p xs f g h w = absurd (omega arith)
write_padding-Wrote (suc rounds) zero p xs f g h w = rw append-nil w
write_padding-Wrote (suc rounds) (suc pad) p xs f g h w =
    let n = min (suc pad) 4096 in
    let zeros : Bytes = replicate n 0 in
    let step = Wrote-write zeros w (omega (arith, length-replicate {A = ℕ} n 0)) in
    let rest = suc pad - n in
    let more =
      write_padding-Wrote rounds rest p (xs ++ zeros) f (write zeros g) (omega arith) step in
    let e : n + rest ≡ suc pad = omega arith in
    rw eq-zero-suc (rw (append_assoc, replicate-append, e) at more)

-- The block lies where the arithmetic of the code does not wrap.
pub record IsPlaced (region block_size index : ℕ) : Type 0 where
  pub room : 4 < block_size
  pub narrow : block_size < 2 ^ 32
  pub numbered : 0 < index
  pub fits : region + (index - 1) * block_size < 2 ^ 64

pub block_position_lem :
    {region block_size index : ℕ}
    → IsPlaced region block_size index
    → block_position region block_size index ≡ region + (index - 1) * block_size
block_position_lem h = omega arith

payload_size_lem :
    (room : ℕ) (content : Bytes) → payload_size room (length content) ≡ length (take room content)
unfolding payload_size
payload_size_lem room content = ground (arith, length-take room content)

Wrote-kept :
    {p : ℕ} {xs : Bytes} {f g : Fstream} (kept : Bytes)
    → Wrote p xs f g
    → Wrote p (xs ++ kept) f (if ltb 0 (length kept) then write kept g else g)
Wrote-kept [] w = rw append-nil w
Wrote-kept (x ∷ kept) w =
    let pos : 0 < length (x ∷ kept) = omega arith in
    rw (lt→ltb 0 (length (x ∷ kept)) pos) (Wrote-write (x ∷ kept) w pos)

write_payload-Wrote :
    {p : ℕ} {xs : Bytes} {f g : Fstream} (room : ℕ) (content : Bytes)
    → Wrote p xs f g
    → Wrote p (xs ++ take room content) f (write_payload (length (take room content)) content g)
unfolding write_payload
write_payload-Wrote room content w =
    rw (take-length-take room content) (Wrote-kept (take room content) w)

write_block_at-Wrote :
    (block_size next : ℕ) (content : Bytes) {f : Fstream}
    → 4 < block_size
    → block_size < 2 ^ 32
    → IsSound f
    → ((write_block_at block_size next content f).0 ≡ true)
      × Wrote f.position
          (block_image block_size next content)
          f
          (write_block_at block_size next content f).1
unfolding write_block_at
write_block_at-Wrote block_size next content {f} lo hi v =
    let room = block_size - 4 in
    let kept = take room content in
    let head = write-Wrote (to_le 4 next) v (omega (arith, length-to_le 4 next)) in
    let body = write_payload-Wrote room content head in
    let pad = room - length kept in
    let g = write_payload (length kept) content (write (to_le 4 next) f) in
    let padded =
      write_padding-Wrote pad pad f.position (to_le 4 next ++ kept) f g (omega arith) body in
    let done = flush-Wrote padded in
    rw (room_lem block_size (omega arith) hi, payload_size_lem)
      (rw done.sound.is_good_state, rw (← append_assoc) done)

pub filled_all : (n : ℕ) (xs : Bytes) → length xs ≡ n → filled n xs ≡ xs
filled_all n xs e = let z : n - length xs ≡ 0 = omega arith in rw (z, append-nil)

-- What a successful read of the block at `p` delivers, over the bytes of a file.
abbrev pub block_at : (ℕ → ℕ) → ℕ → ℕ → BlockRead
block_at byte p block_size = record {
  ok = true;
  next = from_le (read_at byte p 4);
  payload = read_at byte (p + 4) (block_size - 4);
}

read_block_at_lem :
    (block_size p : ℕ) (byte : ℕ → ℕ) {f : Fstream}
    → 4 < block_size
    → block_size < 2 ^ 32
    → IsSound f
    → f.position ≡ p
    → f.byte ≡ byte
    → p + block_size ≤ f.extent
    → ((read_block_at block_size f).0 ≡ block_at byte p block_size)
      × SameFile f (read_block_at block_size f).1
unfolding read_block_at
read_block_at_lem block_size p byte {f} lo hi v at same inside =
    let size = block_size - 4 in
    let (eh, sh, ph) = read-inside 4 v (omega arith) in
    let g = (read 4 f).1 in
    let (eb, sb, pb) = read-inside size sh.sound (omega (arith, sh.extent)) in
    let fh = filled_all 4 (read_at byte p 4) (length-read_at byte p 4) in
    let fb = filled_all size (read_at byte (p + 4) size) (length-read_at byte (p + 4) size) in
    rw (room_lem block_size (omega arith) hi)
      (rw (is_good-IsSound sb.sound, eh, eb, ph, sh.bytes, at, same, fh, fb), SameFile-trans sh sb)

module _ {region block_size index : ℕ} (h : IsPlaced region block_size index) where
  abbrev pub start : ℕ
  start = region + (index - 1) * block_size

  -- On a sound stream `write_block` succeeds and replaces exactly the bytes of the block.
  pub write_block-Wrote :
      (next : ℕ) (content : Bytes) {f : Fstream}
      → IsSound f
      → ((write_block region block_size index next content f).0 ≡ true)
        × Wrote start
            (block_image block_size next content)
            f
            (write_block region block_size index next content f).1
  unfolding write_block
  write_block-Wrote next content {f} v =
      let same = seekp-SameFile start v in
      let (done, w) = write_block_at-Wrote block_size next content h.room h.narrow same.sound in
      rw (==_zero_pos index h.numbered, block_position_lem h, is_good-IsSound same.sound)
        (done, Wrote-at (seekp-position start v) (Wrote-SameFile same w))

  -- On a sound stream, inside the file, `read_block` succeeds and delivers the block's bytes.
  pub read_block_lem :
      {f : Fstream}
      → IsSound f
      → start + block_size ≤ f.extent
      → ((read_block region block_size index f).0 ≡ block_at f.byte start block_size)
        × SameFile f (read_block region block_size index f).1
  unfolding read_block
  read_block_lem {f} v inside =
      let same = seekg-SameFile start v in
      let at = seekg-position start v in
      let (e, s) =
        read_block_at_lem block_size start f.byte h.room h.narrow same.sound at same.bytes
          (omega (arith, same.extent)) in
      rw (==_zero_pos index h.numbered, block_position_lem h, is_good-IsSound same.sound)
        (e, SameFile-trans same s)
