-- ===== src/Users.antt =====
-- Accounts and sessions of source/core/ofs_core.cpp: `placeholder_hash`, `user_login`, `user_logout`,
-- `user_create`, `user_delete`, `user_list`, `get_session_info`.
--
-- The clock (`now`), `std::hash<std::string>` (`hash`) and the random session id are arguments.
pub mod Access
pub mod Slots
pub mod Accounts
pub mod Passwords
pub mod LongNames
pub mod History
pub mod Credentials
use omni_file_system.Prelude.{
  ℕ, zero, suc, ◌+◌, ◌-◌, ◌/◌, ◌%◌, ◌<◌, ◌==◌, Bool, true, false, not, ◌&&◌, Option, none, some,
  List, [], ◌∷◌, ◌++◌, get_elem?, set, length, take, replicate, ltb, if◌then◌else◌,
}
use omni_file_system.Prelude.Bytes.{Bytes, c_str, eq_bytes, strncpy}
use omni_file_system.HashMap
use omni_file_system.Types.{
  UserInfo, UserRole, OfsErrorCodes, new_user_info, is_admin, error_invalid_operation,
  error_not_found, error_permission_denied, error_file_exists, error_no_space,
  error_invalid_session,
}
use omni_file_system.Instance.{
  FsInstance, SessionInfo, ok, faults, Op, ◌>>=◌, ◌>>◌, pure, fail, gets, modify, check, require,
  call,
}
use omni_file_system.Instance.Persist.{persist_user_table}

-- `strncmp(a, b, n) == 0`
unfoldable pub strncmp_eq : ℕ → Bytes → Bytes → Bool
strncmp_eq n a b = eq_bytes (c_str (take n a)) (c_str (take n b))

abbrev pub hex_digit : ℕ → ℕ
hex_digit d = if ltb d 10 then b'0' + d else b'a' + (d - 10)

-- The digits of `v` in base 16 before `acc`; a 64-bit number has 16 at most.
unfoldable pub hex_digits : ℕ → ℕ → Bytes → Bytes
hex_digits zero v acc = acc
hex_digits (suc fuel) v acc =
    let rest = hex_digits fuel (v / 16) (hex_digit (v % 16) ∷ acc) in
    if v / 16 == 0 then hex_digit (v % 16) ∷ acc else rest

-- The hash in hexadecimal, filled up with zeros at the right end.
unfoldable pub placeholder_hash : (Bytes → ℕ) → Bytes → Bytes
placeholder_hash hash s =
    let out = hex_digits 16 (hash s) [] in
    if ltb (length out) 64
    then out ++ replicate (64 - length out) b'0'
    else if ltb 64 (length out)
    then take 64 out
    else out

-- The scan of `user_login` for an active user of that name, from index `i` on.
unfoldable pub find_active : Bytes → List UserInfo → ℕ → Option ℕ
find_active username [] i = none
find_active username (u ∷ us) i =
    if not (u.is_active == 0) && strncmp_eq 32 u.username username
    then some i
    else find_active username us (suc i)

-- The index of the user: the hash map first, then the scan.
unfoldable pub user_slot : FsInstance → Bytes → Option ℕ
user_slot inst username = elim (HashMap.find inst.user_index username) [
  | some i ↦ some i
  | none ↦ find_active username inst.users 0
]

-- `idx == SIZE_MAX || idx >= users.size()`, and the user there.
abbrev pub user_at : FsInstance → Option ℕ → Option (ℕ × UserInfo)
user_at inst none = none
user_at inst (some i) = elim (get_elem? inst.users i) [ none ↦ none | some u ↦ some (i, u) ]

abbrev pub new_session : Bytes → UserInfo → ℕ → SessionInfo
new_session id user login = record {
  session_id = strncpy 63 id;
  user = user;
  login_time = login;
  last_activity = login;
  operations_count = 0;
}

unfoldable pub user_login : (Bytes → ℕ) → Bytes → ℕ → Option Bytes → Option Bytes → Op SessionInfo
user_login hash session_id now username_p password_p = do
  username ← require username_p error_invalid_operation
  password ← require password_p error_invalid_operation
  (idx, user) ← (λ inst. require (user_at inst (user_slot inst username)) error_not_found inst)
  check (not (user.is_active == 0)) error_not_found
  check (strncmp_eq 64 user.password_hash (placeholder_hash hash password)) error_permission_denied
  let logged = record user { last_login = now }
  modify (λ inst. record inst { users = set inst.users idx logged })
  _ ← call persist_user_table
  let s = new_session session_id logged now
  modify (λ inst. record inst { sessions = (HashMap.insert inst.sessions session_id s).1 })
  pure s

unfoldable pub user_logout : Option SessionInfo → Op (Unit {0})
user_logout session = do
  s ← require session error_invalid_session
  modify (λ inst. record inst { sessions = (HashMap.erase inst.sessions (c_str s.session_id)).1 })

-- The first user that is not active, from index `i` on.
unfoldable pub free_slot : List UserInfo → ℕ → Option ℕ
free_slot [] i = none
free_slot (u ∷ us) i = if u.is_active == 0 then some i else free_slot us (suc i)

unfoldable pub user_create :
    (Bytes → ℕ) → ℕ → Option SessionInfo → Option Bytes → Option Bytes → UserRole → Op (Unit {0})
user_create hash now admin_session username_p password_p role = do
  sess ← require admin_session error_invalid_operation
  username ← require username_p error_invalid_operation
  password ← require password_p error_invalid_operation
  check (is_admin sess.user.role) error_permission_denied
  taken ← gets (λ inst. HashMap.contains inst.user_index username)
  check (not taken) error_file_exists
  free_idx ← (λ inst. require (free_slot inst.users 0) error_no_space inst)
  let new_user = new_user_info username (placeholder_hash hash password) role now
  modify (λ inst. record inst { users = set inst.users free_idx new_user })
  modify (λ inst. record inst {
    user_index = (HashMap.insert inst.user_index (c_str new_user.username) free_idx).1;
  })
  _ ← call persist_user_table
  pure tt

-- `users[idx].is_active = 0`
abbrev pub deactivate : List UserInfo → ℕ → List UserInfo
deactivate [] i = []
deactivate (u ∷ us) zero = record u { is_active = 0 } ∷ us
deactivate (u ∷ us) (suc i) = u ∷ deactivate us i

-- `UserInfo& user = users[i]; user.is_active = 0;`, where the slot is out of range too.
abbrev pub switch_off : ℕ → Op (Unit {0})
switch_off i inst = elim (get_elem? inst.users i) [
  | none ↦ (faults, inst)
  | some u ↦ (ok tt, record inst { users = deactivate inst.users i })
]

unfoldable pub user_delete : Option SessionInfo → Option Bytes → Op (Unit {0})
user_delete admin_session username_p = do
  sess ← require admin_session error_invalid_operation
  username ← require username_p error_invalid_operation
  check (is_admin sess.user.role) error_permission_denied
  idx ← (λ inst. require (HashMap.find inst.user_index username) error_not_found inst)
  switch_off idx
  _ ← call persist_user_table
  modify (λ inst. record inst { user_index = (HashMap.erase inst.user_index username).1 })

unfoldable pub active_users : List UserInfo → List UserInfo
active_users [] = []
active_users (u ∷ us) =
    let rest = active_users us in if not (u.is_active == 0) then u ∷ rest else rest

-- `*count` is the length of the result.
unfoldable pub user_list : Option SessionInfo → Op (List UserInfo)
user_list admin_session = do
  sess ← require admin_session error_invalid_operation
  check (is_admin sess.user.role) error_permission_denied
  gets (λ inst. active_users inst.users)

unfoldable pub get_session_info : Option SessionInfo → Op SessionInfo
get_session_info session = require session error_invalid_session
