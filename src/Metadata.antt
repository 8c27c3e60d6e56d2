-- ===== src/Metadata.antt =====
-- What a caller is told of files, directories and the whole container: `dir_list`, `get_metadata` and
-- `get_stats` of source/core/ofs_core.cpp.
pub mod Space
use omni_file_system.Prelude.{
  ℕ, zero, suc, ◌+◌, ◌-◌, ◌*◌, ◌==◌, Bool, true, false, not, Option, none, some, List, [], ◌∷◌,
  length, ltb, replicate, get_elem?, if◌then◌else◌,
}
use omni_file_system.Prelude.Bytes.{Bytes, codes, strncpy}
use omni_file_system.Prelude.Words.{u32, u64}
use omni_file_system.Stream.{Fstream}
use omni_file_system.Blocks.{read_block}
use omni_file_system.Bitmap.{bitmap_get}
use omni_file_system.Types.{
  MetaEntry, UserInfo, error_invalid_operation, error_not_found, error_io_error,
}
use omni_file_system.Types.Reports.{FileEntry, FileMetadata, FsStats, new_file_entry}
use omni_file_system.Instance.{
  FsInstance, SessionInfo, Op, ok, ◌>>=◌, ◌>>◌, pure, gets, check, require, call, Loop, finished,
  running, looped, entry?, entry_at,
}
use omni_file_system.Directory.{dir_block_read, block_size_of}
use omni_file_system.Files.{lookup_path}

-- `users[owner_id].username`, or "unknown" behind the end of the table.
abbrev pub owner_name : List UserInfo → ℕ → Bytes
owner_name users owner_id = elim (get_elem? users owner_id) [
  | none ↦ codes "unknown"
  | some u ↦ u.username
]

-- What is told of the entry `idx`.
unfoldable pub file_entry_of : List UserInfo → ℕ → MetaEntry → FileEntry
file_entry_of users idx me = record new_file_entry {
  name = strncpy 255 me.name;
  type = me.type;
  size = me.total_size;
  permissions = me.permissions;
  created_time = me.created_time;
  modified_time = me.modified_time;
  owner = strncpy 31 (owner_name users me.owner_id);
  inode = idx;
}

-- The loop of `dir_list`: an index out of range and an entry that is not in use are passed over.
unfoldable pub listed_entries : List UserInfo → List MetaEntry → List ℕ → List FileEntry
listed_entries users es [] = []
listed_entries users es (idx ∷ rest) =
    let more = listed_entries users es rest in
    elim (entry? es idx) [
      | none ↦ more
      | some me ↦ if me.valid == 0 then file_entry_of users idx me ∷ more else more
    ]

-- `*count` is the length of the result.
unfoldable pub dir_list : ℕ → Option SessionInfo → Option Bytes → Op (List FileEntry)
dir_list fuel session path_c = do
  s ← require session error_invalid_operation
  path ← require path_c error_invalid_operation
  dir_idx ← lookup_path path
  dir ← entry_at dir_idx
  check (dir.type == 1) error_invalid_operation
  read_back ← dir_block_read fuel dir
  child_indices ← require read_back error_io_error
  gets (λ inst. listed_entries inst.users inst.meta_entries child_indices)

-- The loop of `get_metadata` along the chain, with `count` blocks so far.
unfoldable pub count_chain : ℕ → ℕ → ℕ → ℕ → ℕ → Fstream → Loop ℕ × Fstream
count_chain zero region block_size blk count f = (running, f)
count_chain (suc fuel) region block_size blk count f =
    let (r, g) = read_block region block_size blk f in
    let onward = count_chain fuel region block_size r.next (u32 (count + 1)) g in
    let stop : Loop ℕ × Fstream = (finished (u32 (count + 1)), g) in
    let round = (if r.ok then onward else stop) in
    let done : Loop ℕ × Fstream = (finished count, f) in if blk == 0 then done else round

unfoldable pub get_metadata : ℕ → Option SessionInfo → Option Bytes → Op FileMetadata
get_metadata fuel session path_c = do
  s ← require session error_invalid_operation
  path ← require path_c error_invalid_operation
  meta_idx ← lookup_path path
  me ← entry_at meta_idx
  check (me.valid == 0) error_not_found
  count ← (λ inst.
      let (r, f) =
        count_chain fuel inst.blocks_offset (block_size_of inst) me.start_index 0 inst.file in
      (looped r, record inst { file = f }))
  gets (λ inst. record {
    path = strncpy 511 path;
    entry = file_entry_of inst.users meta_idx me;
    blocks_used = count;
    actual_size = u64 (count * inst.header.block_size);
    reserved = replicate 64 0;
  })

-- The bits set among the `left` from bit `i` on.
unfoldable pub count_used : ℕ → ℕ → Bytes → ℕ
count_used zero i bits = 0
count_used (suc left) i bits = (if bitmap_get bits i then 1 else 0) + count_used left (suc i) bits

-- The entries in use of one type.
unfoldable pub count_type : ℕ → List MetaEntry → ℕ
count_type type [] = 0
count_type type (me ∷ es) =
    let rest = count_type type es in
    if me.valid == 0 then (if me.type == type then rest + 1 else rest) else rest

unfoldable pub count_active : List UserInfo → ℕ
count_active [] = 0
count_active (u ∷ us) = let rest = count_active us in if u.is_active == 0 then rest else rest + 1

-- The statistics of an instance; `free_blocks` of the source is `num_blocks - used_blocks`.
unfoldable pub stats_of : FsInstance → FsStats
stats_of inst =
    let used_blocks = count_used inst.num_blocks 0 inst.free_bitmap in
    let free_blocks = inst.num_blocks - used_blocks in
    record {
      total_size = inst.header.total_size;
      used_space = u64 (used_blocks * inst.header.block_size);
      free_space = u64 (free_blocks * inst.header.block_size);
      total_files = u32 (count_type 0 inst.meta_entries);
      total_directories = u32 (count_type 1 inst.meta_entries);
      total_users = u32 (count_active inst.users);
      active_sessions = u32 inst.sessions.size;
      fragmentation = if ltb 0 free_blocks then some (used_blocks, inst.num_blocks) else none;
      reserved = replicate 64 0;
    }

unfoldable pub get_stats : Option SessionInfo → Op FsStats
unfolding stats_of
get_stats session = do s ← require session error_invalid_operation; gets stats_of
