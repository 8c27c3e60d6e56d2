-- ===== src/Blocks.antt =====
-- The block region of the container file: `write_block`, `read_block` and `get_block_chain` of
-- source/core/ofs_core.cpp. Block `i` (counted from 1) starts with the 4 bytes of the next block's number,
-- 0 at the end of a chain; the payload follows.
pub mod Laws
pub mod RoundTrip
use omni_file_system.Prelude.{
  ℕ, zero, suc, ◌+◌, ◌-◌, ◌*◌, Bool, true, false, not, ◌||◌, List, [], ◌∷◌, ◌++◌, length, take,
  replicate, ltb, min, ◌==◌, if◌then◌else◌, ◌&&◌,
}
use omni_file_system.Prelude.Bytes.{Bytes}
use omni_file_system.Prelude.Words.{u64, sub_u64, to_le, from_le, u32}
use omni_file_system.Stream.{Fstream, is_good, is_eof, seekp, seekg, write, flush, read}

-- Where a block starts: `region + uint64_t(index - 1) * block_size`.
abbrev pub block_position : ℕ → ℕ → ℕ → ℕ
block_position region block_size index = u64 (region + (index - 1) * block_size)

-- The padding loop of `write_block`: zeros, at most 4096 at a time. Each round with `pad > 0`
-- lowers `pad`, so `pad` rounds are enough.
unfoldable pub write_padding : ℕ → ℕ → Fstream → Fstream
write_padding zero pad f = f
write_padding (suc rounds) pad f =
    let rest = (let w = min pad 4096 in write_padding rounds (pad - w) (write (replicate w 0) f)) in
    if pad == 0 then f else rest

-- `payload`: the length of the content, cut to the room.
unfoldable pub payload_size : ℕ → ℕ → ℕ
payload_size room data_len = if ltb room data_len then room else data_len

unfoldable pub write_payload : ℕ → Bytes → Fstream → Fstream
write_payload payload content f = if ltb 0 payload then write (take payload content) f else f

-- The writes of `write_block` behind the seek. `data_len` is the length of `content`.
unfoldable pub write_block_at : ℕ → ℕ → Bytes → Fstream → Bool × Fstream
write_block_at block_size next content f =
    let room = sub_u64 block_size 4 in
    let payload = payload_size room (length content) in
    let g = write (to_le 4 next) f in
    let h = write_payload payload content g in
    let pad = room - payload in let k = flush (write_padding pad pad h) in (is_good k.state, k)

unfoldable pub write_block : ℕ → ℕ → ℕ → ℕ → Bytes → Fstream → Bool × Fstream
write_block region block_size index next content f =
    if index == 0
    then (false, f)
    else (let g = seekp (block_position region block_size index) f in
        if is_good g.state then write_block_at block_size next content g else (false, g))

-- `resize(n)` zeros and then the bytes that `read` delivered.
abbrev pub filled : ℕ → Bytes → Bytes
filled n got = got ++ replicate (n - length got) 0

-- What `read_block` returns, with the values of its output parameters.
pub record BlockRead : Type 0 where
  pub ok : Bool
  pub next : ℕ
  pub payload : Bytes

-- The reads of `read_block` behind the seek.
unfoldable pub read_block_at : ℕ → Fstream → BlockRead × Fstream
read_block_at block_size f =
    let (head, g) = read 4 f in
    let size = sub_u64 block_size 4 in
    let (body, h) = read size g in
    (
      record {
        ok = not (not (is_good h.state) && not (is_eof h.state));
        next = from_le (filled 4 head);
        payload = filled size body;
      },
      h,
    )

-- `next` is the caller's variable, 0 before the call at every call.
unfoldable pub read_block : ℕ → ℕ → ℕ → Fstream → BlockRead × Fstream
read_block region block_size index f =
    if index == 0
    then (record { ok = false; next = 0; payload = [] }, f)
    else (let g = seekg (block_position region block_size index) f in
        if is_good g.state
        then read_block_at block_size g
        else (record { ok = false; next = 0; payload = [] }, g))

-- `get_block_chain`: the walk stops at a failed read and once it holds more than `num_blocks + 2`
-- blocks, so `num_blocks + 3` rounds are enough.
unfoldable pub chain_loop : ℕ → ℕ → ℕ → ℕ → ℕ → ℕ → Fstream → List ℕ × Fstream
chain_loop zero region block_size num_blocks size cur f = ([], f)
chain_loop (suc rounds) region block_size num_blocks size cur f =
    let (r, g) = read_block region block_size cur f in
    let (rest, h) = chain_loop rounds region block_size num_blocks (suc size) r.next g in
    let onward : List ℕ × Fstream = (cur ∷ rest, h) in
    let last = not r.ok || ltb (u32 (num_blocks + 2)) (suc size) in
    let walk : List ℕ × Fstream = (if last then (cur ∷ [], g) else onward) in
    if cur == 0 then ([], f) else walk

unfoldable pub get_block_chain : ℕ → ℕ → ℕ → ℕ → Fstream → List ℕ × Fstream
unfolding chain_loop
get_block_chain region block_size num_blocks start f =
    chain_loop (num_blocks + 3) region block_size num_blocks 0 start f
