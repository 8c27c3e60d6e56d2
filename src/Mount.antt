-- ===== src/Mount.antt =====
-- Mounting and unmounting: the writes of `fs_format`, `fs_init` and `fs_shutdown` of
-- source/core/ofs_core.cpp.
--
-- The library opens files: `Host` says whether `std::ofstream` and `std::fstream` open, and which
-- transfers the device refuses. A stream that was closed and opened again is at the start of the
-- same bytes and good.
pub mod Tables
pub mod Saved
pub mod Steps
pub mod Restart
pub mod Lookups
pub mod Found
use omni_file_system.Prelude.{
  ℕ, zero, suc, ◌+◌, ◌-◌, ◌*◌, ◌/◌, ◌%◌, ◌==◌, Bool, true, false, not, ◌&&◌, ◌||◌, Option, none,
  some, List, [], ◌∷◌, ◌++◌, length, map, replicate, take, drop, ltb, if◌then◌else◌,
}
use mathlib.Core.List.{flatten}
use omni_file_system.Prelude.Bytes.{Bytes, codes, c_str}
use omni_file_system.Prelude.Words.{u32, u64, sub_u64, from_le, to_le}
use omni_file_system.HashMap
use omni_file_system.HashMap.{SimpleHashMap}
use omni_file_system.Stream.{Fstream, IoState, is_good, seekg, seekp, read, write, flush}
use omni_file_system.Types.{
  MetaEntry, UserInfo, OmniHeader, admin, no_user, new_user_info, new_meta_entry, set_name,
  error_invalid_config, error_io_error, error_invalid_session, OfsErrorCodes,
}
use omni_file_system.Types.Images.{
  meta_image, meta_of, user_image, user_of, header_image, header_of,
}
use omni_file_system.Format.{
  SimpleConfig, Layout, format_layout, laid_out, out_of_fuel, header_bytes, user_bytes, meta_bytes,
  bitmap_size,
}
use omni_file_system.Format
use omni_file_system.Config.{Config, load}
use omni_file_system.Instance.{FsInstance, Outcome, ok, err, hangs, faults}
use omni_file_system.Instance.Persist.{
  persist_bitmap, persist_meta_entries, persist_user_table, persist_header,
}
use omni_file_system.Paths.{rebuild_path_index}
use omni_file_system.Users.{strncmp_eq, placeholder_hash}

pub record Host : Type 0 where
  pub creates : Bool
  pub opens : Bool
  pub refuses : ℕ → Bool
  pub now : ℕ
  pub hash : Bytes → ℕ
  pub stoull : Bytes → Option ℕ
  pub stoul : Bytes → Option ℕ

abbrev pub magic : Bytes
magic = codes "OMNIFS01"

-- `close` and `open` of the same file.
abbrev pub reopened : Host → Fstream → Fstream
reopened host f = record f { position = 0; state = IoState.good; faults = host.refuses }

-- The container as `out` leaves it: one byte at its end.
abbrev pub created_file : Host → ℕ → Fstream
created_file host total_size = flush (
    write (0 ∷ []) (
      seekp (sub_u64 total_size 1) (record {
        byte = λ q. 0;
        extent = 0;
        position = 0;
        state = IoState.good;
        faults = host.refuses;
        clock = 0;
      })))

abbrev pub format_header : ℕ → SimpleConfig → Layout → OmniHeader
format_header now cfg layout = record {
  magic = magic;
  format_version = 65536;
  total_size = cfg.total_size;
  header_size = cfg.header_size;
  block_size = cfg.block_size;
  student_id = replicate 32 0;
  submission_date = replicate 16 0;
  config_hash = replicate 64 0;
  config_timestamp = now;
  user_table_offset = u32 layout.user_table_offset;
  max_users = cfg.max_users;
  file_state_storage_offset = u32 layout.metadata_offset;
  change_log_offset = u32 layout.bitmap_offset;
  reserved = replicate 320 0 ++ (to_le 8 2 ++ replicate 12 0);
}

-- `users[0] = admin`; without a slot the source writes behind the vector.
abbrev pub format_users : (Bytes → ℕ) → ℕ → Bytes → Bytes → ℕ → List UserInfo
format_users hash now username password zero = []
format_users hash now username password (suc n) =
    new_user_info username (placeholder_hash hash password) admin now ∷ replicate n no_user

abbrev pub root_directory : MetaEntry
root_directory = set_name (codes "root") (record new_meta_entry { valid = 0; type = 1 })

abbrev pub format_entries : ℕ → List MetaEntry
format_entries zero = []
format_entries (suc n) = root_directory ∷ replicate n new_meta_entry

-- The four tables, written one after the other without a test.
unfoldable pub format_tables :
    OmniHeader → List UserInfo → List MetaEntry → Layout → Fstream → Fstream
format_tables header users entries layout f =
    let g = write (header_image header) (seekp 0 f) in
    let h = write (flatten (map user_image users)) (seekp layout.user_table_offset g) in
    let k = write (flatten (map meta_image entries)) (seekp layout.metadata_offset h) in
    flush (write (replicate (bitmap_size layout.num_blocks) 0) (seekp layout.bitmap_offset k))

-- `fs_format` behind `cfg.load`.
unfoldable pub format_with : Host → ℕ → Config → Outcome Fstream
format_with host fuel cfg = elim (format_layout fuel cfg.sizes) [
  | Format.out_of_fuel ↦ hangs
  | Format.error_invalid_config ↦ err error_invalid_config
  | Format.laid_out layout ↦
      let f = reopened host (created_file host cfg.sizes.total_size) in
      let users =
        format_users host.hash host.now cfg.admin_username cfg.admin_password cfg.sizes.max_users in
      if not host.creates || not host.opens
      then err error_io_error
      else if cfg.sizes.max_users == 0
      then faults
      else ok (
          format_tables (format_header host.now cfg.sizes layout) users
            (format_entries cfg.sizes.max_files) layout f)
]

-- The container that `fs_format` makes, from the content of the file under `config_path`. An
-- exception of the conversions leaves the call: `faults`.
unfoldable pub fs_format : Host → ℕ → Option Bytes → Outcome Fstream
fs_format host fuel config = elim (load host.stoull host.stoul config) [
  | none ↦ faults
  | some cfg ↦ format_with host fuel cfg
]

-- `read` into memory that holds `memory`: what the file does not give stays.
unfoldable pub read_over : Bytes → ℕ → Fstream → Bytes × Fstream
read_over memory position f =
    let (got, g) = read (length memory) (seekg position f) in (got ++ drop (length got) memory, g)

-- The elements of a vector from its bytes.
unfoldable pub elements {ℓ} : {A : Type ℓ} → (Bytes → A) → ℕ → ℕ → Bytes → List A
elements of size zero bytes = []
elements of size (suc n) bytes = of (take size bytes) ∷ elements of size n (drop size bytes)

-- The header, if it can be read and has the magic number.
unfoldable pub read_header : Fstream → Option OmniHeader × Fstream
read_header f =
    let (bytes, g) = read_over (replicate header_bytes 0) 0 f in
    let header = header_of bytes in
    (if is_good g.state && strncmp_eq 8 header.magic magic then some header else none, g)

-- `need_format` for a file that opens, and the stream afterwards.
unfoldable pub needs_format : Fstream → Bool × Fstream
needs_format f =
    let (found, g) = read_header f in
    elim found [
      | none ↦ (true, g)
      | some header ↦
          let (bytes, h) =
            read_over (meta_image new_meta_entry) header.file_state_storage_offset g in
          let root = meta_of bytes in
          (not (is_good h.state) || not (root.valid == 0) || not (root.type == 1), h)
    ]

-- The loop that indexes the active users, from index `i` on.
unfoldable pub index_users : List UserInfo → ℕ → SimpleHashMap ℕ → SimpleHashMap ℕ
index_users [] i m = m
index_users (u ∷ us) i m =
    index_users us (suc i)
      (if u.is_active == 0 then m else (HashMap.insert m (c_str u.username) i).1)

-- `seekg(0, end); tellg()`: -1 on a stream that has failed.
abbrev pub tell_end : Fstream → ℕ × Fstream
tell_end f = let g = seekg f.extent f in (if is_good g.state then g.position else sub_u64 0 1, g)

-- `num_blocks` as a `uint64_t`, before it is stored in 32 bits.
unfoldable pub blocks_of_header : OmniHeader → ℕ → Fstream → ℕ × Fstream
blocks_of_header header meta_count f =
    let user_table_size = u64 (header.max_users * user_bytes) in
    let metadata_size = u64 (meta_count * meta_bytes) in
    let candidate =
      sub_u64 (sub_u64 (sub_u64 header.total_size header.header_size) user_table_size)
        metadata_size in
    let (file_end, g) = tell_end f in
    let rest = sub_u64 file_end (u64 (header.file_state_storage_offset + metadata_size)) in
    let pick : ℕ × Fstream =
      (if ltb candidate header.block_size then (rest, g) else (candidate, f)) in
    let num_blocks = pick.0 / header.block_size in
    (if num_blocks == 0 then 1 else num_blocks, pick.1)

abbrev pub next_or_two : ℕ → ℕ
next_or_two n = if n == 0 then 2 else n

-- `fs_init` from the second read of the header on. A block size of 0 is a division by zero.
unfoldable pub mount : Host → Fstream → Outcome FsInstance
mount host f =
    let (found, f0) = read_header f in
    elim found [
      | none ↦ err error_invalid_config
      | some header ↦
          let metadata_size = sub_u64 header.change_log_offset header.file_state_storage_offset in
          let meta_count = u32 (metadata_size / meta_bytes) in
          let (users_read, f1) =
            read_over (flatten (map user_image (replicate header.max_users no_user)))
              header.user_table_offset f0 in
          let users = elements user_of user_bytes header.max_users users_read in
          let (meta_read, f2) =
            read_over (flatten (map meta_image (replicate meta_count new_meta_entry)))
              header.file_state_storage_offset f1 in
          let (num_blocks, f3) = blocks_of_header header meta_count f2 in
          let (bits, f4) =
            read_over (replicate (bitmap_size num_blocks) 0) header.change_log_offset f3 in
          let inst : FsInstance = record {
            header = header;
            file = f4;
            users = users;
            user_index = index_users users 0 (HashMap.new 101 host.hash);
            meta_entries = elements meta_of meta_bytes meta_count meta_read;
            free_bitmap = bits;
            encoding_map = take 256 (drop 64 header.reserved);
            private_key = take 64 header.reserved;
            path_index = HashMap.new 1009 host.hash;
            sessions = HashMap.new 409 host.hash;
            max_files = meta_count;
            num_blocks = u32 num_blocks;
            blocks_offset = u32 (header.change_log_offset + bitmap_size num_blocks);
            bitmap_offset = header.change_log_offset;
            metadata_offset = header.file_state_storage_offset;
            next_meta_index = next_or_two (from_le (take 8 (drop 320 header.reserved)));
          } in
          if not (metadata_size % meta_bytes == 0)
          then err error_invalid_config
          else if header.block_size == 0
          then faults
          else ok (rebuild_path_index inst)
    ]

-- `fs_init` on the file that lies under the path, if it opens.
unfoldable pub fs_init : Host → ℕ → Option Bytes → Option Fstream → Outcome FsInstance
fs_init host fuel config file =
    let formatted : Outcome FsInstance = elim (fs_format host fuel config) [
      | ok f ↦ if host.opens then mount host (reopened host f) else err error_io_error
      | err e ↦ err e
      | hangs ↦ hangs
      | faults ↦ faults
    ] in
    elim file [
      | none ↦ formatted
      | some f ↦
          let (need_format, g) = needs_format f in if need_format then formatted else mount host g
    ]

-- What `fs_shutdown` leaves on the device.
unfoldable pub fs_shutdown : FsInstance → Fstream
fs_shutdown inst =
    let a = persist_header inst in
    let b = persist_user_table a.1 in
    let c = persist_meta_entries b.1 in let d = persist_bitmap c.1 in d.1.file
