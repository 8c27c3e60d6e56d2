-- ===== src/Server/Access.antt =====
-- Clients without a session.
use omni_file_system.Prelude.{
  [], ◌≡◌, refl, Bool, true, false, none, inl, inr, length, Option-cases,
}
use omni_file_system.Prelude.Bytes.{Bytes, codes}
use omni_file_system.Instance.{Outcome, ok}
use omni_file_system.Users.{user_create, user_delete, user_list, get_session_info}
use omni_file_system.Directories.{dir_create, dir_delete, dir_exists, set_permissions}
use omni_file_system.Metadata.{dir_list, get_metadata}
use omni_file_system.Files.{file_create, file_read, file_edit, file_delete}
use omni_file_system.Files.Truncate.{file_truncate}
use omni_file_system.Files.Rename.{file_rename}
use omni_file_system.Server.{OfsRequest, OfsResponse, make_response_json}
use omni_file_system.Server.Commands.{
  Surroundings, ServerState, Command, login, logout, create_user, delete_user, list_users,
  create_dir, delete_dir, dir_exists_command, dir_list_command, create_file, read_file, edit_file,
  truncate_file, rename_file, delete_file, get_metadata_command, set_permissions_command, set_owner,
  get_session_info_command, unknown_command, command_of, session_of, perform, perform_query,
  run_command, handle_request, arg, respond,
}

abbrev pub is_login : Command → Bool
is_login login = true
is_login _ = false

-- Status and data without a session.
abbrev pub denied_status : Command → Bytes
denied_status dir_exists_command = codes "success"
denied_status _ = codes "error"

abbrev pub denied_data : Command → Bytes
denied_data dir_exists_command = codes "false"
denied_data _ = []

-- The answer to a client without a session, on an unchanged server.
abbrev pub IsDenied :
    OfsRequest → Command → ServerState → Outcome OfsResponse × ServerState → Type 0
IsDenied req c st (r, st') =
    (st' ≡ st)
    × ((msg : Bytes) × (r
          ≡ ok (record {
            client_fd = req.client_fd;
            json = make_response_json (denied_status c) req.cmd msg (denied_data c);
          })))

module _ (env : Surroundings) (req : OfsRequest) (st : ServerState) where
  run_command-IsDenied :
      (c : Command)
      → is_login c ≡ false
      → let (reply, st') = run_command env req.client_fd none req.args c st in
        IsDenied req c st (respond req reply, st')
  unfolding run_command perform perform_query user_create user_delete user_list get_session_info
      dir_create dir_delete dir_exists set_permissions dir_list get_metadata file_create file_read
      file_edit file_delete file_truncate file_rename
  run_command-IsDenied login e = cc
  run_command-IsDenied logout e = (refl, (_, refl))
  run_command-IsDenied create_user e = (refl, (_, refl))
  run_command-IsDenied delete_user e = (refl, (_, refl))
  run_command-IsDenied list_users e = (refl, (_, refl))
  run_command-IsDenied create_dir e = (refl, (_, refl))
  run_command-IsDenied delete_dir e = (refl, (_, refl))
  run_command-IsDenied dir_exists_command e = (refl, (_, refl))
  run_command-IsDenied dir_list_command e = (refl, (_, refl))
  run_command-IsDenied create_file e = (refl, (_, refl))
  run_command-IsDenied read_file e = (refl, (_, refl))
  run_command-IsDenied edit_file e = elim (Option-cases (env.stoul (arg req.args 2))) [
    | inl throws ↦ rw throws (refl, (_, refl))
    | inr (n, given) ↦ rw given (refl, (_, refl))
  ]
  run_command-IsDenied truncate_file e = elim (Option-cases (env.stoul (arg req.args 1))) [
    | inl throws ↦ rw throws (refl, (_, refl))
    | inr (n, given) ↦ rw given (refl, (_, refl))
  ]
  run_command-IsDenied rename_file e = (refl, (_, refl))
  run_command-IsDenied delete_file e = (refl, (_, refl))
  run_command-IsDenied get_metadata_command e = (refl, (_, refl))
  run_command-IsDenied set_permissions_command e =
      elim (Option-cases (env.stoul (arg req.args 1))) [
        | inl throws ↦ rw throws (refl, (_, refl))
        | inr (n, given) ↦ rw given (refl, (_, refl))
      ]
  run_command-IsDenied set_owner e = (refl, (_, refl))
  run_command-IsDenied get_session_info_command e = (refl, (_, refl))
  run_command-IsDenied unknown_command e = (refl, (_, refl))

-- A request other than a login with two arguments, from a client without a session, leaves the
-- whole server as it was, file system and sessions, and is answered: by status error and no
-- data, or, for `dir_exists` with an argument, by status success and the data `false`.
pub handle_request-IsDenied :
    (env : Surroundings) (req : OfsRequest) (st : ServerState)
    → session_of req.client_fd st.client_sessions ≡ none
    → is_login (command_of req.cmd (length req.args)) ≡ false
    → IsDenied req (command_of req.cmd (length req.args)) st (handle_request env req st)
unfolding handle_request
handle_request-IsDenied env req st absent other =
    rw absent (run_command-IsDenied env req st (command_of req.cmd (length req.args)) other)
