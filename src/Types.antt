-- ===== src/Types.antt =====
-- source/include/ofs_types.hpp and source/core/meta_entry.hpp: the enumerations, and the structs that lie in the
-- container file byte for byte (`#pragma pack(1)`). A `char` array is the list of its bytes; integer
-- fields are numbers below their width.
pub mod Fields
pub mod Images
pub mod Reports
use omni_file_system.Prelude.{
  ◌==◌, Bool, true, false, ℕ, zero, suc, [], replicate, ltb, length, if◌then◌else◌, take, ◌++◌, ◌-◌,
}
use omni_file_system.Prelude.Bytes.{Bytes, codes, strncpy, c_str}
use omni_file_system.Prelude.Int.{ℤ, pos, negsuc}

-- A `uint32_t` enumeration: bytes of the file may give a number that no enumerator names.
pub data UserRole : Type 0 where
  normal admin : UserRole
  unnamed : ℕ → UserRole

abbrev pub role_number : UserRole → ℕ
role_number normal = 0
role_number admin = 1
role_number (unnamed n) = n

unfoldable pub role_of : ℕ → UserRole
role_of n = if n == 0 then normal else if n == 1 then admin else unnamed n

-- `role == UserRole::ADMIN`
abbrev pub is_admin : UserRole → Bool
is_admin admin = true
is_admin _ = false

pub data OfsErrorCodes : Type 0 where
  success : OfsErrorCodes
  error_not_found : OfsErrorCodes
  error_permission_denied : OfsErrorCodes
  error_io_error : OfsErrorCodes
  error_invalid_path : OfsErrorCodes
  error_file_exists : OfsErrorCodes
  error_no_space : OfsErrorCodes
  error_invalid_config : OfsErrorCodes
  error_not_implemented : OfsErrorCodes
  error_invalid_session : OfsErrorCodes
  error_directory_not_empty : OfsErrorCodes
  error_invalid_operation : OfsErrorCodes

-- `static_cast<int>`, `ofs_err` and `ofs_success`.
unfoldable pub ofs_err : OfsErrorCodes → ℤ
ofs_err success = pos 0
ofs_err error_not_found = negsuc 0
ofs_err error_permission_denied = negsuc 1
ofs_err error_io_error = negsuc 2
ofs_err error_invalid_path = negsuc 3
ofs_err error_file_exists = negsuc 4
ofs_err error_no_space = negsuc 5
ofs_err error_invalid_config = negsuc 6
ofs_err error_not_implemented = negsuc 7
ofs_err error_invalid_session = negsuc 8
ofs_err error_directory_not_empty = negsuc 9
ofs_err error_invalid_operation = negsuc 10

pub record MetaEntry : Type 0 where
  -- 0 marks an entry in use, 1 a free one.
  pub valid : ℕ
  -- 0 is a file, 1 a directory.
  pub type : ℕ
  pub parent : ℕ
  pub name : Bytes
  pub start_index : ℕ
  pub total_size : ℕ
  pub owner_id : ℕ
  pub permissions : ℕ
  pub created_time : ℕ
  pub modified_time : ℕ
  pub reserved : Bytes

-- The constructor `MetaEntry()`; 0644 is 420.
abbrev pub new_meta_entry : MetaEntry
new_meta_entry = record {
  valid = 1;
  type = 0;
  parent = 0;
  name = replicate 12 0;
  start_index = 0;
  total_size = 0;
  owner_id = 0;
  permissions = 420;
  created_time = 0;
  modified_time = 0;
  reserved = replicate 18 0;
}

-- The name is cut to 11 bytes.
unfoldable pub set_name : Bytes → MetaEntry → MetaEntry
set_name n e = record e { name = strncpy 11 n }

unfoldable pub get_name : MetaEntry → Bytes
get_name e = c_str e.name

pub record UserInfo : Type 0 where
  pub username : Bytes
  pub password_hash : Bytes
  pub role : UserRole
  pub created_time : ℕ
  pub last_login : ℕ
  pub is_active : ℕ
  pub reserved : Bytes

-- The constructor `UserInfo()`.
abbrev pub no_user : UserInfo
no_user = record {
  username = replicate 32 0;
  password_hash = replicate 64 0;
  role = normal;
  created_time = 0;
  last_login = 0;
  is_active = 0;
  reserved = replicate 11 0;
}

-- The constructor `UserInfo(user, hash, r, created)`.
unfoldable pub new_user_info : Bytes → Bytes → UserRole → ℕ → UserInfo
new_user_info user hash r created =
    let copy_len = (if ltb (length hash) 64 then length hash else 64) in
    record {
      username = strncpy 31 user;
      password_hash = take copy_len hash ++ replicate (64 - copy_len) 0;
      role = r;
      created_time = created;
      last_login = 0;
      is_active = 1;
      reserved = replicate 11 0;
    }

-- `reserved` holds the private key (64 bytes), the encoding map (256), the next metadata index (8)
-- and 12 more.
pub record OmniHeader : Type 0 where
  pub magic : Bytes
  pub format_version : ℕ
  pub total_size : ℕ
  pub header_size : ℕ
  pub block_size : ℕ
  pub student_id : Bytes
  pub submission_date : Bytes
  pub config_hash : Bytes
  pub config_timestamp : ℕ
  pub user_table_offset : ℕ
  pub max_users : ℕ
  pub file_state_storage_offset : ℕ
  pub change_log_offset : ℕ
  pub reserved : Bytes
