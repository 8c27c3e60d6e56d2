-- ===== src/Users/Access.antt =====
-- Who may manage accounts.
use omni_file_system.Prelude.{ℕ, ◌≡◌, false, some}
use omni_file_system.Prelude.Bytes.{Bytes}
use omni_file_system.Types.{UserRole, is_admin, error_permission_denied}
use omni_file_system.Instance.{FsInstance, SessionInfo, err}
use omni_file_system.Users.{user_create, user_delete, user_list}

-- A session whose user is not an administrator can neither create, delete nor list users: each
-- call, with its pointers not null, is answered by `error_permission_denied`, and the instance
-- stays as it was.
pub management_denied :
    (hash : Bytes → ℕ) (now : ℕ) (s : SessionInfo) (username password : Bytes) (role : UserRole)
    (inst : FsInstance)
    → is_admin s.user.role ≡ false
    → (user_create hash now (some s) (some username) (some password) role inst
        ≡ (err error_permission_denied, inst))
      × (user_delete (some s) (some username) inst ≡ (err error_permission_denied, inst))
      × (user_list (some s) inst ≡ (err error_permission_denied, inst))
unfolding user_create user_delete user_list
management_denied hash now s username password role inst h = (rw h, rw h, rw h)
