-- ===== src/Server/Texts.antt =====
-- The texts that `handleRequest` of source/server/server.cpp writes into the data of a response, and
-- `get_error_message` of source/core/ofs_core.cpp.
use omni_file_system.Prelude.{
  ℕ, zero, suc, ◌+◌, ◌/◌, ◌%◌, ◌==◌, ◌||◌, List, [], ◌∷◌, ◌++◌, if◌then◌else◌,
}
use omni_file_system.Prelude.Bytes.{Bytes, codes, c_str}
use omni_file_system.Types.{
  UserInfo, is_admin, OfsErrorCodes, success, error_not_found, error_permission_denied,
  error_io_error, error_invalid_path, error_file_exists, error_no_space, error_invalid_config,
  error_not_implemented, error_invalid_session, error_directory_not_empty, error_invalid_operation,
}
use omni_file_system.Types.Reports.{FileEntry, FileMetadata}
use omni_file_system.Instance.{SessionInfo}
use omni_file_system.Server.{backslash, quote, newline}

unfoldable pub get_error_message : OfsErrorCodes → Bytes
get_error_message success = codes "Success"
get_error_message error_not_found = codes "Not found"
get_error_message error_permission_denied = codes "Permission denied"
get_error_message error_io_error = codes "I/O error"
get_error_message error_invalid_path = codes "Invalid path"
get_error_message error_file_exists = codes "File already exists"
get_error_message error_no_space = codes "No space left"
get_error_message error_invalid_config = codes "Invalid configuration"
get_error_message error_not_implemented = codes "Not implemented"
get_error_message error_invalid_session = codes "Invalid session"
get_error_message error_directory_not_empty = codes "Directory not empty"
get_error_message error_invalid_operation = codes "Invalid operation"

-- `oss << n` for an unsigned integer of 64 bits at most, which has 20 digits at most.
unfoldable pub digits : ℕ → ℕ → Bytes → Bytes
digits zero v acc = acc
digits (suc fuel) v acc =
    let rest = digits fuel (v / 10) ((b'0' + v % 10) ∷ acc) in
    if v / 10 == 0 then (b'0' + v % 10) ∷ acc else rest

abbrev pub decimal : ℕ → Bytes
decimal v = digits 20 v []

-- `oss << label << value << "\n"`
abbrev pub text_line : Bytes → Bytes → Bytes
text_line label value = label ++ (value ++ (newline ∷ []))

-- The loop over the bytes of a name in `dir_list`.
unfoldable pub quoted_name : Bytes → Bytes
quoted_name [] = []
quoted_name (c ∷ s) =
    let rest = quoted_name s in
    if c == quote || c == backslash then backslash ∷ c ∷ rest else c ∷ rest

-- One entry of `dir_list`; the line ends with a backslash and an `n`.
unfoldable pub entry_line : FileEntry → Bytes
entry_line e =
    quoted_name (c_str e.name)
    ++ ((if e.type == 1 then codes "/" else [])
        ++ (codes "  \t"
            ++ (decimal e.size
                ++ (codes " bytes \towner:"
                    ++ (c_str e.owner
                        ++ (codes " \tperm:" ++ (decimal e.permissions ++ codes "\\n")))))))

unfoldable pub entry_lines : List FileEntry → Bytes
entry_lines [] = []
entry_lines (e ∷ es) = entry_line e ++ entry_lines es

unfoldable pub user_lines : List UserInfo → Bytes
user_lines [] = []
user_lines (u ∷ us) =
    c_str u.username
    ++ ((if is_admin u.role then codes " (admin)\n" else codes "\n") ++ user_lines us)

-- `fmt_time` is `localtime_r` and `strftime`, with "0" for the time 0.
unfoldable pub metadata_text : (ℕ → Bytes) → FileMetadata → Bytes
metadata_text fmt_time meta =
    text_line (codes "Path: ") (c_str meta.path)
    ++ (text_line (codes "Name: ") (c_str meta.entry.name)
        ++ (text_line (codes "Type: ")
              (if meta.entry.type == 1 then codes "directory" else codes "file")
            ++ (text_line (codes "Size: ") (decimal meta.entry.size ++ codes " bytes")
                ++ (text_line (codes "Owner: ") (c_str meta.entry.owner)
                    ++ (text_line (codes "Permissions: ") (decimal meta.entry.permissions)
                        ++ (text_line (codes "Created: ") (fmt_time meta.entry.created_time)
                            ++ (text_line (codes "Modified: ") (fmt_time meta.entry.modified_time)
                                ++ text_line (codes "Blocks used: ")
                                    (decimal meta.blocks_used))))))))

unfoldable pub session_text : (ℕ → Bytes) → SessionInfo → Bytes
session_text fmt_time info =
    text_line (codes "Session ID: ") (c_str info.session_id)
    ++ (text_line (codes "User: ") (c_str info.user.username)
        ++ (text_line (codes "Role: ")
              (if is_admin info.user.role then codes "admin" else codes "normal")
            ++ (text_line (codes "Login time: ") (fmt_time info.login_time)
                ++ (text_line (codes "Last activity: ") (fmt_time info.last_activity)
                    ++ text_line (codes "Operations: ") (decimal info.operations_count)))))
