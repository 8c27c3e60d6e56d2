-- ===== src/Types/Reports.antt =====
-- The structs of source/include/ofs_types.hpp that are handed to a caller: `FileEntry`, `FileMetadata`
-- and `FSStats`.
use omni_file_system.Prelude.{ℕ, Option, replicate}
use omni_file_system.Prelude.Bytes.{Bytes}

pub record FileEntry : Type 0 where
  pub name : Bytes
  pub type : ℕ
  pub size : ℕ
  pub permissions : ℕ
  pub created_time : ℕ
  pub modified_time : ℕ
  pub owner : Bytes
  pub inode : ℕ
  pub reserved : Bytes

-- The constructor `FileEntry()`.
abbrev pub new_file_entry : FileEntry
new_file_entry = record {
  name = replicate 256 0;
  type = 0;
  size = 0;
  permissions = 0;
  created_time = 0;
  modified_time = 0;
  owner = replicate 32 0;
  inode = 0;
  reserved = replicate 95 0;
}

pub record FileMetadata : Type 0 where
  pub path : Bytes
  pub entry : FileEntry
  pub blocks_used : ℕ
  pub actual_size : ℕ
  pub reserved : Bytes

-- `fragmentation` is a `double`: `none` stands for 0.0 and `some (u, n)` for `100.0 * (1.0 - u / n)`.
pub record FsStats : Type 0 where
  pub total_size : ℕ
  pub used_space : ℕ
  pub free_space : ℕ
  pub total_files : ℕ
  pub total_directories : ℕ
  pub total_users : ℕ
  pub active_sessions : ℕ
  pub fragmentation : Option (ℕ × ℕ)
  pub reserved : Bytes
