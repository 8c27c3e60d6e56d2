-- ===== src/Examples/Instances.antt =====
-- A small container, freshly mounted, for the examples.
use omni_file_system.Prelude.{ℕ, [], ◌∷◌, replicate, get_or, ◌++◌, refl, false}
use omni_file_system.Prelude.Bytes.{Bytes, codes}
use omni_file_system.HashMap.{new}
use omni_file_system.Stream.{Fstream, IoState}
use omni_file_system.Stream.Laws.{IsSound}
use omni_file_system.Types.{OmniHeader, UserInfo, admin, normal, no_user, MetaEntry, new_meta_entry}
use omni_file_system.Instance.{FsInstance, SessionInfo}

-- Keys hash to their first byte.
abbrev pub first_byte : Bytes → ℕ
first_byte s = get_or s 0 0

-- Passwords hash to a number from their first byte.
abbrev pub weak_hash : Bytes → ℕ
weak_hash s = get_or s 0 0

-- A new file on a device that refuses nothing.
abbrev pub blank : Fstream
blank = record {
  byte = λ _. 0;
  extent = 100000;
  position = 0;
  state = IoState.good;
  faults = λ _. false;
  clock = 0;
}

pub blank-IsSound : IsSound blank
blank-IsSound = record { is_good_state = refl; reliable = λ n. refl }

abbrev pub small_header : OmniHeader
small_header = record {
  magic = codes "OMNIFS01";
  format_version = 65536;
  total_size = 100000;
  header_size = 512;
  block_size = 128;
  student_id = replicate 32 0;
  submission_date = replicate 16 0;
  config_hash = replicate 64 0;
  config_timestamp = 0;
  user_table_offset = 512;
  max_users = 3;
  file_state_storage_offset = 896;
  change_log_offset = 1184;
  reserved = replicate 340 0;
}

-- The root directory in block 1, and three free entries.
abbrev pub root_entry : MetaEntry
root_entry = record new_meta_entry {
  valid = 0;
  type = 1;
  name = codes "root" ++ replicate 8 0;
  start_index = 1;
}

abbrev pub fresh : FsInstance
fresh = record {
  header = small_header;
  file = blank;
  users = no_user ∷ no_user ∷ no_user ∷ [];
  user_index = new 3 first_byte;
  meta_entries = root_entry ∷ new_meta_entry ∷ new_meta_entry ∷ new_meta_entry ∷ [];
  free_bitmap = 1 ∷ 0 ∷ [];
  encoding_map = replicate 256 0;
  private_key = replicate 64 0;
  path_index = new 3 first_byte;
  sessions = new 3 first_byte;
  max_files = 4;
  num_blocks = 16;
  blocks_offset = 1186;
  bitmap_offset = 1184;
  metadata_offset = 896;
  next_meta_index = 2;
}

abbrev pub root_user : UserInfo
root_user = record no_user {
  username = codes "root" ++ replicate 28 0;
  role = admin;
  is_active = 1;
}

abbrev pub root_session : SessionInfo
root_session = record {
  session_id = codes "s1" ++ replicate 62 0;
  user = root_user;
  login_time = 1;
  last_activity = 1;
  operations_count = 0;
}

abbrev pub guest_session : SessionInfo
guest_session = record root_session { user = record root_user { role = normal } }
