-- ===== src/Server/Answers.antt =====
-- Each response of `handleRequest` of source/server/server.cpp, as a client reads it.
use omni_file_system.Prelude.{
  ℕ, ◌≡◌, ◌∙◌, ap, refl, Option, none, some, List, length, if◌then◌else◌,
}
use omni_file_system.Prelude.Bytes.{Bytes}
use omni_file_system.Types.{
  OfsErrorCodes, success, error_not_found, error_permission_denied, error_io_error,
  error_invalid_path, error_file_exists, error_no_space, error_invalid_config,
  error_not_implemented, error_invalid_session, error_directory_not_empty, error_invalid_operation,
}
use omni_file_system.Instance.{SessionInfo, Outcome, ok, err, hangs, faults}
use omni_file_system.Users.{user_logout, user_login}
use omni_file_system.Directories.{dir_exists}
use omni_file_system.Server.{OfsRequest, OfsResponse, make_response_json}
use omni_file_system.Server.Texts.{get_error_message}
use omni_file_system.Server.Commands.{
  Surroundings, ServerState, Sessions, Reply, Command, login, logout, create_user, delete_user,
  list_users, create_dir, delete_dir, dir_exists_command, dir_list_command, create_file, read_file,
  edit_file, truncate_file, rename_file, delete_file, get_metadata_command, set_permissions_command,
  set_owner, get_session_info_command, unknown_command, command_of, session_of, perform,
  run_command, handle_request, reply_of, exists_reply, after_login, status_of, respond,
  without_data, text_arg,
}
use omni_file_system.Server.Replies.{
  Answer, IsPlain, has_special, is_writable, read_response, read_response-make_response_json,
}

get_error_message-IsPlain : (e : OfsErrorCodes) → IsPlain (get_error_message e)
unfolding get_error_message has_special
get_error_message-IsPlain success = refl
get_error_message-IsPlain error_not_found = refl
get_error_message-IsPlain error_permission_denied = refl
get_error_message-IsPlain error_io_error = refl
get_error_message-IsPlain error_invalid_path = refl
get_error_message-IsPlain error_file_exists = refl
get_error_message-IsPlain error_no_space = refl
get_error_message-IsPlain error_invalid_config = refl
get_error_message-IsPlain error_not_implemented = refl
get_error_message-IsPlain error_invalid_session = refl
get_error_message-IsPlain error_directory_not_empty = refl
get_error_message-IsPlain error_invalid_operation = refl

status_of-IsPlain : (e : OfsErrorCodes) → IsPlain (status_of e)
unfolding has_special
status_of-IsPlain success = refl
status_of-IsPlain _ = refl

abbrev pub IsPlainReply : Outcome Reply → Type 0
IsPlainReply (ok reply) = IsPlain reply.msg
IsPlainReply _ = Unit

reply_of-IsPlainReply : (o : Outcome Bytes) → IsPlainReply (reply_of o)
reply_of-IsPlainReply (ok content) = get_error_message-IsPlain success
reply_of-IsPlainReply (err e) = get_error_message-IsPlain e
reply_of-IsPlainReply hangs = tt
reply_of-IsPlainReply faults = tt

exists_reply-IsPlainReply : (o : Outcome (Unit {0})) → IsPlainReply (exists_reply o)
exists_reply-IsPlainReply (ok u) = get_error_message-IsPlain success
exists_reply-IsPlainReply (err e) = get_error_message-IsPlain e
exists_reply-IsPlainReply hangs = tt
exists_reply-IsPlainReply faults = tt

after_login-IsPlainReply :
    (fd : ℕ) (o : Outcome SessionInfo) (sessions : Sessions)
    → IsPlainReply (after_login fd o sessions).0
after_login-IsPlainReply fd (ok s) sessions = get_error_message-IsPlain success
after_login-IsPlainReply fd (err e) sessions = get_error_message-IsPlain e
after_login-IsPlainReply fd hangs sessions = tt
after_login-IsPlainReply fd faults sessions = tt

module _ (env : Surroundings) (fd : ℕ) (args : List Bytes) (st : ServerState) where
  performed :
      (session : Option SessionInfo) (c : Command)
      → IsPlainReply (reply_of (perform env session args c st.inst).0)
  performed session c = reply_of-IsPlainReply (perform env session args c st.inst).0

  run_command-IsPlainReply :
      (session : Option SessionInfo) (c : Command)
      → IsPlainReply (run_command env fd session args c st).0
  unfolding run_command has_special
  run_command-IsPlainReply session login =
      after_login-IsPlainReply fd
        (user_login env.hash env.session_id env.now (text_arg args 0) (text_arg args 1) st.inst).0
        st.client_sessions
  run_command-IsPlainReply none logout = get_error_message-IsPlain error_invalid_session
  run_command-IsPlainReply (some s) logout =
      reply_of-IsPlainReply (without_data (user_logout (some s)) st.inst).0
  run_command-IsPlainReply session dir_exists_command =
      exists_reply-IsPlainReply (dir_exists session (text_arg args 0) st.inst).0
  run_command-IsPlainReply session unknown_command = refl
  run_command-IsPlainReply session create_user = performed session create_user
  run_command-IsPlainReply session delete_user = performed session delete_user
  run_command-IsPlainReply session list_users = performed session list_users
  run_command-IsPlainReply session create_dir = performed session create_dir
  run_command-IsPlainReply session delete_dir = performed session delete_dir
  run_command-IsPlainReply session dir_list_command = performed session dir_list_command
  run_command-IsPlainReply session create_file = performed session create_file
  run_command-IsPlainReply session read_file = performed session read_file
  run_command-IsPlainReply session edit_file = performed session edit_file
  run_command-IsPlainReply session truncate_file = performed session truncate_file
  run_command-IsPlainReply session rename_file = performed session rename_file
  run_command-IsPlainReply session delete_file = performed session delete_file
  run_command-IsPlainReply session get_metadata_command = performed session get_metadata_command
  run_command-IsPlainReply session set_permissions_command =
      performed session set_permissions_command
  run_command-IsPlainReply session set_owner = performed session set_owner
  run_command-IsPlainReply session get_session_info_command =
      performed session get_session_info_command

-- What a client reads: the fields of the reply.
abbrev pub answer_of : OfsRequest → Reply → Answer
answer_of req reply = record {
  status = status_of reply.r;
  operation = req.cmd;
  error_message = reply.msg;
  content = reply.content;
}

read_respond :
    (req : OfsRequest) (o : Outcome Reply) (resp : OfsResponse)
    → IsPlain req.cmd
    → IsPlainReply o
    → respond req o ≡ ok resp
    → (reply : Reply) × (o ≡ ok reply)
      × (resp.client_fd ≡ req.client_fd)
      × (read_response resp.json
          ≡ (if is_writable reply.content then some (answer_of req reply) else none))
read_respond req (ok reply) resp h k e =
    let back =
      read_response-make_response_json (status_of reply.r) req.cmd reply.msg reply.content
        (status_of-IsPlain reply.r) h k in
    let sent : OfsResponse = record {
      client_fd = req.client_fd;
      json = make_response_json (status_of reply.r) req.cmd reply.msg reply.content;
    } in
    let same : resp ≡ sent = cc in
    (reply, refl, ap (λ x. x.client_fd) same, ap (λ x. read_response x.json) same ∙ back)
read_respond req (err c) resp h k e = cc
read_respond req hangs resp h k e = cc
read_respond req faults resp h k e = cc

-- When a request whose command has no quote, backslash or control byte gets a response, its
-- command has run to a reply, the response goes to the client of the request, and a JSON reader
-- over bytes, which refuses control bytes inside a string, reads from it the status, the
-- command, the message and the data of the reply, byte for byte, if the data has no control byte
-- but newlines, and refuses the response otherwise.
pub handle_request_answered :
    (env : Surroundings) (req : OfsRequest) (st : ServerState) (resp : OfsResponse)
    → IsPlain req.cmd
    → (handle_request env req st).0 ≡ ok resp
    → let session = session_of req.client_fd st.client_sessions in
      let command = command_of req.cmd (length req.args) in
      (reply : Reply) × ((run_command env req.client_fd session req.args command st).0 ≡ ok reply)
      × (resp.client_fd ≡ req.client_fd)
      × (read_response resp.json
          ≡ (if is_writable reply.content then some (answer_of req reply) else none))
unfolding handle_request
handle_request_answered env req st resp h e =
    let session = session_of req.client_fd st.client_sessions in
    let command = command_of req.cmd (length req.args) in
    read_respond req (run_command env req.client_fd session req.args command st).0 resp h
      (run_command-IsPlainReply env req.client_fd req.args st session command) e
