-- ===== src/Server/Privilege.antt =====
-- Clients whose user is not an administrator.
use omni_file_system.Prelude.{◌≡◌, refl, Bool, true, false, some, [], length}
use omni_file_system.Prelude.Bytes.{Bytes, codes, c_str}
use omni_file_system.Types.{UserRole, normal, is_admin, error_permission_denied}
use omni_file_system.Instance.{SessionInfo, Outcome, ok, err}
use omni_file_system.Users.Access.{management_denied}
use omni_file_system.Users.{user_create, user_delete, user_list}
use omni_file_system.Server.{OfsRequest, OfsResponse, make_response_json}
use omni_file_system.Server.Texts.{get_error_message}
use omni_file_system.Server.Commands.{
  Surroundings, ServerState, Command, login, logout, create_user, delete_user, list_users,
  create_dir, delete_dir, dir_exists_command, dir_list_command, create_file, read_file, edit_file,
  truncate_file, rename_file, delete_file, get_metadata_command, set_permissions_command, set_owner,
  get_session_info_command, unknown_command, command_of, session_of, perform, run_command,
  handle_request, respond, arg, role_arg,
}

-- The commands on accounts.
abbrev pub manages : Command → Bool
manages create_user = true
manages delete_user = true
manages list_users = true
manages _ = false

-- The answer on an unchanged server.
abbrev pub IsRefused : OfsRequest → ServerState → Outcome OfsResponse × ServerState → Type 0
IsRefused req st (r, st') =
    (st' ≡ st)
    × (r
        ≡ ok (record {
          client_fd = req.client_fd;
          json = make_response_json (codes "error") req.cmd (codes "Permission denied") [];
        }))

module _ (env : Surroundings) (req : OfsRequest) (st : ServerState) (s : SessionInfo)
    (other : is_admin s.user.role ≡ false) where
  abbrev first_text : Bytes
  first_text = c_str (arg req.args 0)

  abbrev second_text : Bytes
  second_text = c_str (arg req.args 1)

  denied :
      (role : UserRole)
      → (user_create env.hash env.now (some s) (some first_text) (some second_text) role st.inst
          ≡ (err error_permission_denied, st.inst))
        × (user_delete (some s) (some first_text) st.inst ≡ (err error_permission_denied, st.inst))
        × (user_list (some s) st.inst ≡ (err error_permission_denied, st.inst))
  denied role = management_denied env.hash env.now s first_text second_text role st.inst other

  run_command-IsRefused :
      (c : Command)
      → manages c ≡ true
      → let (reply, st') = run_command env req.client_fd (some s) req.args c st in
        IsRefused req st (respond req reply, st')
  unfolding run_command perform get_error_message
  run_command-IsRefused create_user e = rw (denied (role_arg (arg req.args 2))).0 (refl, refl)
  run_command-IsRefused delete_user e = rw (denied normal).1 (refl, refl)
  run_command-IsRefused list_users e = rw (denied normal).2 (refl, refl)
  run_command-IsRefused login e = cc
  run_command-IsRefused logout e = cc
  run_command-IsRefused create_dir e = cc
  run_command-IsRefused delete_dir e = cc
  run_command-IsRefused dir_exists_command e = cc
  run_command-IsRefused dir_list_command e = cc
  run_command-IsRefused create_file e = cc
  run_command-IsRefused read_file e = cc
  run_command-IsRefused edit_file e = cc
  run_command-IsRefused truncate_file e = cc
  run_command-IsRefused rename_file e = cc
  run_command-IsRefused delete_file e = cc
  run_command-IsRefused get_metadata_command e = cc
  run_command-IsRefused set_permissions_command e = cc
  run_command-IsRefused set_owner e = cc
  run_command-IsRefused get_session_info_command e = cc
  run_command-IsRefused unknown_command e = cc

-- A request to create, delete or list users, with its arguments, from a client whose session's
-- user is not an administrator, leaves the whole server as it was and is answered by status
-- error, the message `Permission denied` and no data.
pub handle_request-IsRefused :
    (env : Surroundings) (req : OfsRequest) (st : ServerState) (s : SessionInfo)
    → session_of req.client_fd st.client_sessions ≡ some s
    → is_admin s.user.role ≡ false
    → manages (command_of req.cmd (length req.args)) ≡ true
    → IsRefused req st (handle_request env req st)
unfolding handle_request
handle_request-IsRefused env req st s found other account =
    rw found
      (run_command-IsRefused env req st s other (command_of req.cmd (length req.args)) account)
