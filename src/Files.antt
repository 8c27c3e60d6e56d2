-- ===== src/Files.antt =====
-- Files of source/core/ofs_core.cpp: `file_create`, `file_read`, `file_edit`, `file_delete`, `file_exists`.
--
-- The bytes that a caller hands over are a list, `size` is its length.
pub mod Chunks
pub mod Frame
pub mod Returns
pub mod Transfer
pub mod Truncate
pub mod Carry
pub mod Reading
pub mod Cut
pub mod Relink
pub mod Shrink
pub mod Truncation
pub mod Rename
pub mod Creation
pub mod Placing
pub mod ReadBack
pub mod RoundTrip
use omni_file_system.Prelude.{
  ℕ, zero, suc, ◌+◌, ◌-◌, ◌*◌, ◌/◌, ◌%◌, ◌==◌, Bool, true, false, not, ◌&&◌, ◌||◌, Option, none,
  some, List, [], ◌∷◌, ◌++◌, length, take, drop, leb, ltb, min, if◌then◌else◌,
}
use omni_file_system.Prelude.Bytes.{Bytes, c_str}
use omni_file_system.Prelude.Words.{u32, u64, sub_u64}
use omni_file_system.HashMap
use omni_file_system.Stream.{Fstream}
use omni_file_system.Blocks.{write_block, read_block}
use omni_file_system.Bitmap.{allocate_blocks, free_blocks}
use omni_file_system.Codec.{encode_data, decode_data}
use omni_file_system.Types.{
  MetaEntry, UserInfo, set_name, error_invalid_operation, error_not_found, error_invalid_path,
  error_file_exists, error_no_space, error_io_error,
}
use omni_file_system.Instance.{
  FsInstance, SessionInfo, Op, Outcome, ok, ◌>>=◌, ◌>>◌, pure, fail, gets, modify, check, require,
  call, Loop, finished, running, looped, entry?, entry_at, modify_entry,
}
use omni_file_system.Instance.Persist.{persist_bitmap, persist_meta_entries, persist_header}
use omni_file_system.Directory.{
  find_free_meta_index, dir_add_child, dir_remove_child, block_size_of,
}
use omni_file_system.Paths.{slash, split_path_tokens, parent_and_name, rebuild_path_index}

-- `static_cast<uint32_t>(header.block_size - 4)`
abbrev pub block_payload_of : FsInstance → ℕ
block_payload_of inst = u32 (sub_u64 inst.header.block_size 4)

-- `(size == 0) ? 0 : (size + block_payload - 1) / block_payload`
unfoldable pub blocks_for : ℕ → ℕ → ℕ
blocks_for size block_payload =
    if size == 0 then 0 else u32 (sub_u64 (u64 (size + block_payload)) 1 / block_payload)

abbrev pub first_or_zero : List ℕ → ℕ
first_or_zero [] = 0
first_or_zero (b ∷ bs) = b

-- The loop of `file_create` over its blocks: `rest` is what is left of the data at each round.
unfoldable pub write_chunks : ℕ → ℕ → ℕ → Bytes → List ℕ → Bytes → Fstream → Bool × Fstream
write_chunks region block_size block_payload encoding_map [] rest f = (true, f)
write_chunks region block_size block_payload encoding_map (b ∷ bs) rest f =
    let chunk = take block_payload rest in
    let (done, g) =
      write_block region block_size b (first_or_zero bs) (encode_data encoding_map chunk) f in
    let onward =
      write_chunks region block_size block_payload encoding_map bs (drop block_payload rest) g in
    let stop : Bool × Fstream = (false, g) in if done then onward else stop

-- The loop of `file_read` at block `cur`, with `remaining` bytes to go; `none` where a block cannot
-- be read.
unfoldable pub read_chunks :
    ℕ → ℕ → ℕ → Bytes → ℕ → ℕ → Bytes → Fstream → Loop (Option Bytes) × Fstream
read_chunks zero region block_size encoding_map cur remaining file_data f = (running, f)
read_chunks (suc fuel) region block_size encoding_map cur remaining file_data f =
    let (r, g) = read_block region block_size cur f in
    let chunk_size = min remaining (length r.payload) in
    let decoded = decode_data encoding_map (take chunk_size r.payload) in
    let onward =
      read_chunks fuel region block_size encoding_map r.next (remaining - chunk_size)
        (file_data ++ decoded) g in
    let stop : Loop (Option Bytes) × Fstream = (finished none, g) in
    let done : Loop (Option Bytes) × Fstream = (finished (some file_data), f) in
    let round = (if r.ok then onward else stop) in
    if not (cur == 0) && ltb 0 remaining then round else done

-- `path[0] == '/'`, and the path is not empty.
abbrev pub is_absolute : Bytes → Bool
is_absolute [] = false
is_absolute (c ∷ s) = c == slash

-- `user_index.find(s->user.username)`, 0 if it is not there.
unfoldable pub owner_of : FsInstance → SessionInfo → ℕ
owner_of inst s = elim (HashMap.find inst.user_index (c_str s.user.username)) [
  | none ↦ 0
  | some i ↦ u32 i
]

-- The entry of a new file.
abbrev pub as_new_file : ℕ → Bytes → ℕ → ℕ → ℕ → MetaEntry → MetaEntry
as_new_file parent basename size owner now e = record (set_name basename e) {
  valid = 0;
  type = 0;
  parent = parent;
  total_size = size;
  permissions = 420;
  owner_id = owner;
  created_time = now;
  modified_time = now;
}

-- `entry.valid = 1`
abbrev pub released : MetaEntry → MetaEntry
released e = record e { valid = 1 }

-- `allocate_blocks` and `free_blocks` on the instance's bitmap.
unfoldable pub take_blocks : ℕ → FsInstance → List ℕ × FsInstance
take_blocks n inst =
    let (blocks, bits) = allocate_blocks inst.num_blocks n inst.free_bitmap in
    (blocks, record inst { free_bitmap = bits })

unfoldable pub give_back : List ℕ → FsInstance → FsInstance
give_back blocks inst = record inst {
  free_bitmap = free_blocks inst.num_blocks blocks inst.free_bitmap;
}

unfoldable pub store_content : List ℕ → Bytes → FsInstance → Bool × FsInstance
store_content blocks content inst =
    let (done, f) =
      write_chunks inst.blocks_offset (block_size_of inst) (block_payload_of inst) inst.encoding_map
        blocks content inst.file in
    (done, record inst { file = f })

-- The part of `file_create` that stores the content: the blocks, in the order of the chain.
unfoldable pub create_blocks : ℕ → Bytes → Op (List ℕ)
create_blocks meta_index content = do
  need_blocks ← gets (λ inst. blocks_for (length content) (block_payload_of inst))
  blocks ← (if ltb 0 need_blocks then call (take_blocks need_blocks) else pure [])
  if ltb 0 need_blocks && length blocks == 0
      then (do modify_entry meta_index released; fail error_no_space)
      else (do
        stored ← call (store_content blocks content)
        if stored then pure blocks else (do
          modify (give_back blocks)
          modify_entry meta_index released
          fail error_io_error))

unfoldable pub file_create : ℕ → ℕ → Option SessionInfo → Option Bytes → Bytes → Op (Unit {0})
file_create fuel now session path_c content = do
  s ← require session error_invalid_operation
  path ← require path_c error_invalid_operation
  check (is_absolute path) error_invalid_path
  (parent_path, basename) ← require (parent_and_name (split_path_tokens path)) error_invalid_path
  parent_meta ← (λ inst. require (HashMap.find inst.path_index parent_path) error_not_found inst)
  taken ← gets (λ inst. HashMap.contains inst.path_index path)
  check (not taken) error_file_exists
  meta_index ← gets find_free_meta_index
  check (not (meta_index == 0)) error_no_space
  owner ← gets (λ inst. owner_of inst s)
  modify_entry meta_index (as_new_file parent_meta basename (length content) owner now)
  blocks ← create_blocks meta_index content
  modify_entry meta_index (λ e. record e { start_index = first_or_zero blocks })
  modify (λ inst. record inst {
    next_meta_index =
        if leb inst.next_meta_index meta_index then meta_index + 1 else inst.next_meta_index;
  })
  saved ← call persist_meta_entries
  check saved error_io_error
  saved' ← call persist_bitmap
  check saved' error_io_error
  saved'' ← call persist_header
  check saved'' error_io_error
  _ ← dir_add_child fuel parent_meta meta_index
  modify (λ inst. record inst { path_index = (HashMap.insert inst.path_index path meta_index).1 })

-- `meta_index == 0 || meta_index > meta_entries.size()`, and the entry.
unfoldable pub entry_in_range : ℕ → Op MetaEntry
entry_in_range i inst = require (entry? inst.meta_entries i) error_not_found inst

unfoldable pub lookup_path : Bytes → Op ℕ
lookup_path path inst = require (HashMap.find inst.path_index path) error_not_found inst

-- The loop of `file_read` on the instance. Each round takes a byte at least off `total_size`.
unfoldable pub read_content : MetaEntry → Op (Option Bytes)
read_content entry inst =
    let (r, f) =
      read_chunks (suc entry.total_size) inst.blocks_offset (block_size_of inst) inst.encoding_map
        entry.start_index entry.total_size [] inst.file in
    (looped r, record inst { file = f })

unfoldable pub file_read : Option SessionInfo → Option Bytes → Op Bytes
file_read session path_c = do
  s ← require session error_invalid_operation
  path ← require path_c error_invalid_operation
  meta_index ← lookup_path path
  entry ← entry_in_range meta_index
  check (entry.valid == 0) error_not_found
  check (entry.type == 0) error_invalid_operation
  if entry.total_size == 0
      then pure []
      else (do content ← read_content entry; require content error_io_error)

unfoldable pub file_exists : Option SessionInfo → Option Bytes → Op (Unit {0})
file_exists session path_c = do
  s ← require session error_invalid_operation
  path ← require path_c error_invalid_operation
  meta_index ← lookup_path path
  entry ← entry_in_range meta_index
  check (entry.valid == 0) error_not_found
  check (entry.type == 0) error_invalid_operation

abbrev pub prepend : ℕ → Loop (List ℕ) → Loop (List ℕ)
prepend b running = running
prepend b (finished bs) = finished (b ∷ bs)

-- The loop of `file_delete` along the chain; it stops where a block cannot be read.
unfoldable pub collect_chain : ℕ → ℕ → ℕ → ℕ → Fstream → Loop (List ℕ) × Fstream
collect_chain zero region block_size cur f = (running, f)
collect_chain (suc fuel) region block_size cur f =
    let (r, g) = read_block region block_size cur f in
    let (rest, h) = collect_chain fuel region block_size r.next g in
    let onward : Loop (List ℕ) × Fstream = (prepend cur rest, h) in
    let stop : Loop (List ℕ) × Fstream = (finished (cur ∷ []), g) in
    let round = (if r.ok then onward else stop) in
    let done : Loop (List ℕ) × Fstream = (finished [], f) in if cur == 0 then done else round

unfoldable pub file_delete : ℕ → Option SessionInfo → Option Bytes → Op (Unit {0})
file_delete fuel session path_c = do
  s ← require session error_invalid_operation
  path ← require path_c error_invalid_operation
  meta_idx ← lookup_path path
  entry ← entry_at meta_idx
  check (entry.valid == 0 && entry.type == 0) error_not_found
  free_list ← (λ inst.
      let (r, f) =
        collect_chain fuel inst.blocks_offset (block_size_of inst) entry.start_index inst.file in
      (looped r, record inst { file = f }))
  modify (give_back free_list)
  known ← gets (λ inst. not (entry.parent == 0) && leb entry.parent (length inst.meta_entries))
  _ ← (if known then dir_remove_child fuel entry.parent meta_idx else pure false)
  modify_entry meta_idx (λ e. record e { valid = 1; start_index = 0; total_size = 0 })
  _ ← call persist_meta_entries
  _ ← call persist_bitmap
  modify rebuild_path_index

-- The loop of `file_edit` over the blocks before the edited one.
unfoldable pub skip_blocks : ℕ → ℕ → ℕ → ℕ → Fstream → Option ℕ × Fstream
skip_blocks zero region block_size cur f = (some cur, f)
skip_blocks (suc left) region block_size cur f =
    let (r, g) = read_block region block_size cur f in
    let onward = skip_blocks left region block_size r.next g in
    let stop : Option ℕ × Fstream = (none, g) in
    let round = (if r.ok then onward else stop) in
    let done : Option ℕ × Fstream = (some cur, f) in if cur == 0 then done else round

-- `memcpy(dec + offset, data, write_len)`
abbrev pub overwritten : Bytes → ℕ → Bytes → Bytes
overwritten dec offset content = take offset dec ++ (content ++ drop (offset + length content) dec)

-- The block `cur` of `file_edit`: read, decoded, overwritten from `offset` on as far as it goes,
-- encoded and written back.
unfoldable pub edit_block : ℕ → ℕ → Bytes → ℕ → ℕ → Bytes → Fstream → Bool × Fstream
edit_block region block_size encoding_map cur offset content f =
    let (r, g) = read_block region block_size cur f in
    let dec = decode_data encoding_map r.payload in
    let write_len = min (length content) (length r.payload - offset) in
    let enc = encode_data encoding_map (overwritten dec offset (take write_len content)) in
    let stop : Bool × Fstream = (false, g) in
    if r.ok then write_block region block_size cur r.next enc g else stop

unfoldable pub file_edit : ℕ → Option SessionInfo → Option Bytes → Option Bytes → ℕ → Op (Unit {0})
file_edit now session path_c content_c index = do
  s ← require session error_invalid_operation
  path ← require path_c error_invalid_operation
  content ← require content_c error_invalid_operation
  meta_idx ← lookup_path path
  entry ← entry_at meta_idx
  check (entry.valid == 0 && entry.type == 0) error_not_found
  check (leb index entry.total_size) error_invalid_operation
  payload ← gets block_payload_of
  found ← call (λ inst.
      let (r, f) =
        skip_blocks (index / payload) inst.blocks_offset (block_size_of inst) entry.start_index
          inst.file in
      (r, record inst { file = f }))
  cur ← require found error_io_error
  check (not (cur == 0)) error_invalid_operation
  done ← call (λ inst.
      let (r, f) =
        edit_block inst.blocks_offset (block_size_of inst) inst.encoding_map cur (index % payload)
          content inst.file in
      (r, record inst { file = f }))
  check done error_io_error
  modify_entry meta_idx (λ e. record e { modified_time = now })
  _ ← call persist_meta_entries
  pure tt
