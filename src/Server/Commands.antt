-- ===== src/Server/Commands.antt =====
-- `handleRequest` of source/server/server.cpp: the command of a request, the calls on the file system,
-- and the response.
--
-- The clock, `std::hash`, the random session id, `localtime_r` with `strftime`, and `std::stoul` are
-- arguments: `stoul` is `none` where it throws.
use omni_file_system.Prelude.{
  ℕ, ◌==◌, ◌&&◌, Option, none, some, List, [], ◌∷◌, leb, length, get_or, if◌then◌else◌,
}
use omni_file_system.Prelude.Bytes.{Bytes, codes, c_str, eq_bytes}
use omni_file_system.Prelude.Words.{u32}
use omni_file_system.Types.{
  UserRole, normal, admin, OfsErrorCodes, success, error_not_implemented, error_invalid_session,
  error_invalid_operation,
}
use omni_file_system.Instance.{
  FsInstance, SessionInfo, Outcome, ok, err, hangs, faults, Op, ◌>>=◌, pure, fail, require,
}
use omni_file_system.Users.{
  user_login, user_logout, user_create, user_delete, user_list, get_session_info,
}
use omni_file_system.Directories.{dir_create, dir_delete, dir_exists, set_permissions}
use omni_file_system.Metadata.{dir_list, get_metadata}
use omni_file_system.Files.{file_create, file_read, file_edit, file_delete}
use omni_file_system.Files.Truncate.{file_truncate}
use omni_file_system.Files.Rename.{file_rename}
use omni_file_system.Server.{OfsRequest, OfsResponse, make_response_json}
use omni_file_system.Server.Texts.{
  get_error_message, entry_lines, user_lines, metadata_text, session_text,
}

-- The sessions of the connected clients: `client_sessions`, by descriptor.
abbrev pub Sessions : Type 0
Sessions = List (ℕ × SessionInfo)

unfoldable pub session_of : ℕ → Sessions → Option SessionInfo
session_of fd [] = none
session_of fd ((k, s) ∷ rest) = let more = session_of fd rest in if k == fd then some s else more

unfoldable pub forget : ℕ → Sessions → Sessions
forget fd [] = []
forget fd ((k, s) ∷ rest) = let more = forget fd rest in if k == fd then more else (k, s) ∷ more

-- `client_sessions[fd] = session`
abbrev pub remember : ℕ → SessionInfo → Sessions → Sessions
remember fd s sessions = (fd, s) ∷ forget fd sessions

pub record ServerState : Type 0 where
  pub inst : FsInstance
  pub client_sessions : Sessions

pub record Surroundings : Type 0 where
  pub hash : Bytes → ℕ
  pub session_id : Bytes
  pub now : ℕ
  pub fuel : ℕ
  pub fmt_time : ℕ → Bytes
  pub stoul : Bytes → Option ℕ

pub data Command : Type 0 where
  login logout create_user delete_user list_users : Command
  create_dir delete_dir dir_exists_command dir_list_command : Command
  create_file read_file edit_file truncate_file rename_file delete_file : Command
  get_metadata_command set_permissions_command set_owner get_session_info_command : Command
  unknown_command : Command

-- The conditions of the chain of `else if`, with the number of arguments.
unfoldable pub command_of : Bytes → ℕ → Command
command_of op argc =
    if eq_bytes op (codes "login") && leb 2 argc
    then login
    else if eq_bytes op (codes "logout")
    then logout
    else if eq_bytes op (codes "create_user") && leb 3 argc
    then create_user
    else if eq_bytes op (codes "delete_user") && leb 1 argc
    then delete_user
    else if eq_bytes op (codes "list_users")
    then list_users
    else if eq_bytes op (codes "create_dir") && leb 1 argc
    then create_dir
    else if eq_bytes op (codes "delete_dir") && leb 1 argc
    then delete_dir
    else if eq_bytes op (codes "dir_exists") && leb 1 argc
    then dir_exists_command
    else if eq_bytes op (codes "dir_list") && leb 1 argc
    then dir_list_command
    else if eq_bytes op (codes "create_file") && leb 2 argc
    then create_file
    else if eq_bytes op (codes "read_file") && leb 1 argc
    then read_file
    else if eq_bytes op (codes "edit_file") && leb 3 argc
    then edit_file
    else if eq_bytes op (codes "truncate_file") && leb 2 argc
    then truncate_file
    else if eq_bytes op (codes "rename_file") && leb 2 argc
    then rename_file
    else if eq_bytes op (codes "delete_file") && leb 1 argc
    then delete_file
    else if eq_bytes op (codes "get_metadata") && leb 1 argc
    then get_metadata_command
    else if eq_bytes op (codes "set_permissions") && leb 2 argc
    then set_permissions_command
    else if eq_bytes op (codes "set_owner")
    then set_owner
    else if eq_bytes op (codes "get_session_info")
    then get_session_info_command
    else unknown_command

-- `args[i]` and `args[i].c_str()`, behind a guard on the number of arguments.
abbrev pub arg : List Bytes → ℕ → Bytes
arg args i = get_or args i []

abbrev pub text_arg : List Bytes → ℕ → Option Bytes
text_arg args i = some (c_str (get_or args i []))

-- A call without data.
abbrev pub without_data : Op (Unit {0}) → Op Bytes
without_data call = call >>= λ _. pure []

abbrev pub role_arg : Bytes → UserRole
role_arg a = if eq_bytes a (codes "admin") then admin else normal

-- The commands on the metadata of an entry and on the session.
unfoldable pub perform_query : Surroundings → Option SessionInfo → List Bytes → Command → Op Bytes
perform_query env session args get_metadata_command = do
  meta ← get_metadata env.fuel session (text_arg args 0)
  pure (metadata_text env.fmt_time meta)
perform_query env session args set_permissions_command = do
  perms ← require (env.stoul (arg args 1)) error_invalid_operation
  without_data (set_permissions env.now session (text_arg args 0) (u32 perms))
perform_query env session args set_owner = fail error_not_implemented
perform_query env session args get_session_info_command = do
  s ← require session error_invalid_session
  info ← get_session_info (some s)
  pure (session_text env.fmt_time info)
perform_query env session args _ = fail error_invalid_operation

-- The data of a command whose answer is the result of its call.
unfoldable pub perform : Surroundings → Option SessionInfo → List Bytes → Command → Op Bytes
perform env session args create_user = without_data (
    user_create env.hash env.now session (text_arg args 0) (text_arg args 1)
      (role_arg (arg args 2)))
perform env session args delete_user = do
  s ← require session error_invalid_session
  without_data (user_delete (some s) (text_arg args 0))
perform env session args list_users = do users ← user_list session; pure (user_lines users)
perform env session args create_dir =
    without_data (dir_create env.fuel env.now session (text_arg args 0))
perform env session args delete_dir = without_data (dir_delete env.fuel session (text_arg args 0))
perform env session args dir_list_command = do
  entries ← dir_list env.fuel session (text_arg args 0)
  pure (entry_lines entries)
perform env session args create_file =
    without_data (file_create env.fuel env.now session (text_arg args 0) (arg args 1))
perform env session args read_file = file_read session (text_arg args 0)
perform env session args edit_file = do
  idx ← require (env.stoul (arg args 2)) error_invalid_operation
  without_data (file_edit env.now session (text_arg args 0) (some (arg args 1)) (u32 idx))
perform env session args truncate_file = do
  sz ← require (env.stoul (arg args 1)) error_invalid_operation
  without_data (file_truncate env.now session (text_arg args 0) sz)
perform env session args rename_file =
    without_data (file_rename env.fuel env.now session (text_arg args 0) (text_arg args 1))
perform env session args delete_file = without_data (file_delete env.fuel session (text_arg args 0))
perform env session args command = perform_query env session args command

-- `r`, `msg` and `data`.
pub record Reply : Type 0 where
  pub r : OfsErrorCodes
  pub msg : Bytes
  pub content : Bytes

abbrev pub reply_with : OfsErrorCodes → Bytes → Reply
reply_with r content = record { r = r; msg = get_error_message r; content = content }

abbrev pub reply_of : Outcome Bytes → Outcome Reply
reply_of (ok content) = ok (reply_with success content)
reply_of (err e) = ok (reply_with e [])
reply_of hangs = hangs
reply_of faults = faults

-- `dir_exists` always succeeds; its message is that of the call.
abbrev pub exists_reply : Outcome (Unit {0}) → Outcome Reply
exists_reply (ok u) =
    ok (record { r = success; msg = get_error_message success; content = codes "true" })
exists_reply (err e) =
    ok (record { r = success; msg = get_error_message e; content = codes "false" })
exists_reply hangs = hangs
exists_reply faults = faults

-- A session that `user_login` returns replaces that of the client.
abbrev pub after_login : ℕ → Outcome SessionInfo → Sessions → Outcome Reply × Sessions
after_login fd (ok s) sessions = (ok (reply_with success []), remember fd s sessions)
after_login fd (err e) sessions = (ok (reply_with e []), sessions)
after_login fd hangs sessions = (hangs, sessions)
after_login fd faults sessions = (faults, sessions)

abbrev pub with_inst :
    {A : Type 0} → (Outcome A → Outcome Reply) → Op A → ServerState → Outcome Reply × ServerState
with_inst f op st = let (r, inst) = op st.inst in (f r, record st { inst = inst })

unfoldable pub run_command :
    Surroundings
    → ℕ
    → Option SessionInfo
    → List Bytes
    → Command
    → ServerState
    → Outcome Reply × ServerState
run_command env fd session args login st =
    let (r, inst) =
      user_login env.hash env.session_id env.now (text_arg args 0) (text_arg args 1) st.inst in
    let (reply, sessions) = after_login fd r st.client_sessions in
    (reply, record { inst = inst; client_sessions = sessions })
run_command env fd none args logout st = (ok (reply_with error_invalid_session []), st)
run_command env fd (some s) args logout st =
    let (r, inst) = without_data (user_logout (some s)) st.inst in
    (reply_of r, record { inst = inst; client_sessions = forget fd st.client_sessions })
run_command env fd session args dir_exists_command st =
    with_inst exists_reply (dir_exists session (text_arg args 0)) st
run_command env fd session args unknown_command st = (
  ok (record {
    r = error_invalid_operation;
    msg = codes "Unknown command or wrong arguments";
    content = [];
  }),
  st,
)
run_command env fd session args command st =
    with_inst reply_of (perform env session args command) st

-- `recv` has returned nothing: the client is gone.
abbrev pub disconnected : ℕ → ServerState → ServerState
disconnected fd st = record st { client_sessions = forget fd st.client_sessions }

abbrev pub status_of : OfsErrorCodes → Bytes
status_of success = codes "success"
status_of _ = codes "error"

-- `make_response_json` with the fields of the reply.
abbrev pub respond : OfsRequest → Outcome Reply → Outcome OfsResponse
respond req (ok reply) = ok (record {
  client_fd = req.client_fd;
  json = make_response_json (status_of reply.r) req.cmd reply.msg reply.content;
})
respond req (err e) = err e
respond req hangs = hangs
respond req faults = faults

unfoldable pub handle_request :
    Surroundings → OfsRequest → ServerState → Outcome OfsResponse × ServerState
handle_request env req st =
    let session = session_of req.client_fd st.client_sessions in
    let (reply, st') =
      run_command env req.client_fd session req.args (command_of req.cmd (length req.args)) st in
    (respond req reply, st')
