-- ===== src/Types/Images.antt =====
-- The structs as they lie in memory and in the container file, and reading them back.
use omni_file_system.Prelude.{
  map, ◌*◌, ℕ, ◌^◌, ◌<◌, ◌≡◌, ◌++◌, arith, length, take, drop, take-append_left, drop-append_left,
  length-append,
}
use mathlib.Core.List.{List, flatten, ◌∷◌, []}
use omni_file_system.Prelude.Bytes.{Bytes}
use omni_file_system.Prelude.Preds.{All}
use omni_file_system.Prelude.Words.{to_le, length-to_le}
use omni_file_system.Types.{MetaEntry, UserInfo, role_number, role_of, OmniHeader}
use omni_file_system.Types.Fields.{field_le, field_le-append, drop-to_le}

-- `MetaEntry`: 72 bytes.
unfoldable pub meta_image : MetaEntry → Bytes
meta_image e =
    to_le 1 e.valid
    ++ (to_le 1 e.type
        ++ (to_le 4 e.parent
            ++ (e.name
                ++ (to_le 4 e.start_index
                    ++ (to_le 8 e.total_size
                        ++ (to_le 4 e.owner_id
                            ++ (to_le 4 e.permissions
                                ++ (to_le 8 e.created_time
                                    ++ (to_le 8 e.modified_time ++ e.reserved)))))))))

unfoldable pub meta_of : Bytes → MetaEntry
meta_of b0 =
    let b1 = drop 1 b0 in
    let b2 = drop 1 b1 in
    let b3 = drop 4 b2 in
    let b4 = drop 12 b3 in
    let b5 = drop 4 b4 in
    let b6 = drop 8 b5 in
    let b7 = drop 4 b6 in
    let b8 = drop 4 b7 in
    let b9 = drop 8 b8 in
    record {
      valid = field_le 1 b0;
      type = field_le 1 b1;
      parent = field_le 4 b2;
      name = take 12 b3;
      start_index = field_le 4 b4;
      total_size = field_le 8 b5;
      owner_id = field_le 4 b6;
      permissions = field_le 4 b7;
      created_time = field_le 8 b8;
      modified_time = field_le 8 b9;
      reserved = drop 8 b9;
    }

-- Every field fits its width.
pub record IsMeta (e : MetaEntry) : Type 0 where
  pub valid : e.valid < 2 ^ 8
  pub type : e.type < 2 ^ 8
  pub parent : e.parent < 2 ^ 32
  pub name : length e.name ≡ 12
  pub start_index : e.start_index < 2 ^ 32
  pub total_size : e.total_size < 2 ^ 64
  pub owner_id : e.owner_id < 2 ^ 32
  pub permissions : e.permissions < 2 ^ 32
  pub created_time : e.created_time < 2 ^ 64
  pub modified_time : e.modified_time < 2 ^ 64
  pub reserved : length e.reserved ≡ 18

ruleset sizes = (length-append, length-to_le)

-- The arrays of an entry have their sizes.
abbrev pub HasArrays : MetaEntry → Type 0
HasArrays e = (length e.name ≡ 12) × (length e.reserved ≡ 18)

pub length-meta_image : (e : MetaEntry) → HasArrays e → length (meta_image e) ≡ 72
unfolding meta_image
length-meta_image e (name, reserved) = simp sizes (omega (arith, name, reserved))

-- The size of the whole table.
pub length-meta_images :
    (es : List MetaEntry) → All HasArrays es → length (flatten (map meta_image es)) ≡ length es * 72
unfolding flatten
length-meta_images [] h = omega arith
length-meta_images (e ∷ es) (here, rest) =
    let more = flatten (map meta_image es) in
    omega (
      arith,
      length-meta_images es rest,
      length-append (meta_image e) more,
      length-meta_image e here,
    )

-- A field that fits its width is read back from the front of the bytes.
abbrev ReadsBack : ℕ → ℕ → Type 0
ReadsBack n v = (rest : Bytes) → field_le n (to_le n v ++ rest) ≡ v

reads_back : (n v : ℕ) → v < 256 ^ n → ReadsBack n v
reads_back n v h = λ rest. field_le-append n v rest h

module _ (n : ℕ) (xs : Bytes) (h : length xs ≡ n) where
  take-array : (rest : Bytes) → take n (xs ++ rest) ≡ xs
  take-array rest = take-append_left n xs rest h

  drop-array : (rest : Bytes) → drop n (xs ++ rest) ≡ rest
  drop-array rest = drop-append_left n xs rest h

-- For a metadata entry whose fields fit their widths, reading the fields at their offsets from
-- the 72 bytes that are written gives the entry back.
pub meta_of-meta_image : (e : MetaEntry) → IsMeta e → meta_of (meta_image e) ≡ e
unfolding meta_of meta_image
meta_of-meta_image e h =
    simp (drop-to_le, drop-array 12 e.name h.name, take-array 12 e.name h.name)
      (simp (
        reads_back 1 e.valid h.valid,
        reads_back 1 e.type h.type,
        reads_back 4 e.parent h.parent,
        reads_back 4 e.start_index h.start_index,
        reads_back 8 e.total_size h.total_size,
        reads_back 4 e.owner_id h.owner_id,
        reads_back 4 e.permissions h.permissions,
        reads_back 8 e.created_time h.created_time,
        reads_back 8 e.modified_time h.modified_time,
      ))

-- `UserInfo`: 128 bytes.
unfoldable pub user_image : UserInfo → Bytes
user_image u =
    u.username
    ++ (u.password_hash
        ++ (to_le 4 (role_number u.role)
            ++ (to_le 8 u.created_time
                ++ (to_le 8 u.last_login ++ (to_le 1 u.is_active ++ u.reserved)))))

unfoldable pub user_of : Bytes → UserInfo
user_of b0 =
    let b1 = drop 32 b0 in
    let b2 = drop 64 b1 in
    let b3 = drop 4 b2 in
    let b4 = drop 8 b3 in
    let b5 = drop 8 b4 in
    record {
      username = take 32 b0;
      password_hash = take 64 b1;
      role = role_of (field_le 4 b2);
      created_time = field_le 8 b3;
      last_login = field_le 8 b4;
      is_active = field_le 1 b5;
      reserved = drop 1 b5;
    }

-- Every field fits its width, and a named role is written by its name.
pub record IsUser (u : UserInfo) : Type 0 where
  pub username : length u.username ≡ 32
  pub password_hash : length u.password_hash ≡ 64
  pub role : role_number u.role < 2 ^ 32
  pub named : role_of (role_number u.role) ≡ u.role
  pub created_time : u.created_time < 2 ^ 64
  pub last_login : u.last_login < 2 ^ 64
  pub is_active : u.is_active < 2 ^ 8
  pub reserved : length u.reserved ≡ 11

pub length-user_image : (u : UserInfo) → IsUser u → length (user_image u) ≡ 128
unfolding user_image
length-user_image u h = simp sizes (omega (arith, h.username, h.password_hash, h.reserved))

-- For a user record whose fields fit their widths, reading the fields at their offsets from the
-- 128 bytes that are written gives the record back.
pub user_of-user_image : (u : UserInfo) → IsUser u → user_of (user_image u) ≡ u
unfolding user_of user_image
user_of-user_image u h =
    simp
      (
        drop-to_le,
        drop-array 32 u.username h.username,
        take-array 32 u.username h.username,
        drop-array 64 u.password_hash h.password_hash,
        take-array 64 u.password_hash h.password_hash,
      )
      (simp
        (
          reads_back 4 (role_number u.role) h.role,
          reads_back 8 u.created_time h.created_time,
          reads_back 8 u.last_login h.last_login,
          reads_back 1 u.is_active h.is_active,
        )
        (rw (h.named)))

-- `OMNIHeader`: 512 bytes.
unfoldable pub header_image : OmniHeader → Bytes
header_image o =
    o.magic
    ++ (to_le 4 o.format_version
        ++ (to_le 8 o.total_size
            ++ (to_le 8 o.header_size
                ++ (to_le 8 o.block_size
                    ++ (o.student_id
                        ++ (o.submission_date
                            ++ (o.config_hash
                                ++ (to_le 8 o.config_timestamp
                                    ++ (to_le 4 o.user_table_offset
                                        ++ (to_le 4 o.max_users
                                            ++ (to_le 4 o.file_state_storage_offset
                                                ++ (to_le 4 o.change_log_offset
                                                    ++ o.reserved))))))))))))

unfoldable pub header_of : Bytes → OmniHeader
header_of b0 =
    let b1 = drop 8 b0 in
    let b2 = drop 4 b1 in
    let b3 = drop 8 b2 in
    let b4 = drop 8 b3 in
    let b5 = drop 8 b4 in
    let b6 = drop 32 b5 in
    let b7 = drop 16 b6 in
    let b8 = drop 64 b7 in
    let b9 = drop 8 b8 in
    let b10 = drop 4 b9 in
    let b11 = drop 4 b10 in
    let b12 = drop 4 b11 in
    record {
      magic = take 8 b0;
      format_version = field_le 4 b1;
      total_size = field_le 8 b2;
      header_size = field_le 8 b3;
      block_size = field_le 8 b4;
      student_id = take 32 b5;
      submission_date = take 16 b6;
      config_hash = take 64 b7;
      config_timestamp = field_le 8 b8;
      user_table_offset = field_le 4 b9;
      max_users = field_le 4 b10;
      file_state_storage_offset = field_le 4 b11;
      change_log_offset = field_le 4 b12;
      reserved = drop 4 b12;
    }

pub record IsHeader (o : OmniHeader) : Type 0 where
  pub magic : length o.magic ≡ 8
  pub format_version : o.format_version < 2 ^ 32
  pub total_size : o.total_size < 2 ^ 64
  pub header_size : o.header_size < 2 ^ 64
  pub block_size : o.block_size < 2 ^ 64
  pub student_id : length o.student_id ≡ 32
  pub submission_date : length o.submission_date ≡ 16
  pub config_hash : length o.config_hash ≡ 64
  pub config_timestamp : o.config_timestamp < 2 ^ 64
  pub user_table_offset : o.user_table_offset < 2 ^ 32
  pub max_users : o.max_users < 2 ^ 32
  pub file_state_storage_offset : o.file_state_storage_offset < 2 ^ 32
  pub change_log_offset : o.change_log_offset < 2 ^ 32
  pub reserved : length o.reserved ≡ 340

pub length-header_image : (o : OmniHeader) → IsHeader o → length (header_image o) ≡ 512
unfolding header_image
length-header_image o h =
    simp sizes (omega (arith, h.magic, h.student_id, h.submission_date, h.config_hash, h.reserved))

-- For a header whose fields fit their widths, reading the fields at their offsets from the 512
-- bytes that are written gives the header back.
pub header_of-header_image : (o : OmniHeader) → IsHeader o → header_of (header_image o) ≡ o
unfolding header_of header_image
header_of-header_image o h =
    simp
      (
        drop-to_le,
        drop-array 8 o.magic h.magic,
        take-array 8 o.magic h.magic,
        drop-array 32 o.student_id h.student_id,
        take-array 32 o.student_id h.student_id,
        drop-array 16 o.submission_date h.submission_date,
        take-array 16 o.submission_date h.submission_date,
        drop-array 64 o.config_hash h.config_hash,
        take-array 64 o.config_hash h.config_hash,
      )
      (simp (
        reads_back 4 o.format_version h.format_version,
        reads_back 8 o.total_size h.total_size,
        reads_back 8 o.header_size h.header_size,
        reads_back 8 o.block_size h.block_size,
        reads_back 8 o.config_timestamp h.config_timestamp,
        reads_back 4 o.user_table_offset h.user_table_offset,
        reads_back 4 o.max_users h.max_users,
        reads_back 4 o.file_state_storage_offset h.file_state_storage_offset,
        reads_back 4 o.change_log_offset h.change_log_offset,
      ))
