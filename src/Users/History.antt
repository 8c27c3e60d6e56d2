-- ===== src/Users/History.antt =====
-- Histories of account requests.
use omni_file_system.Prelude.{ℕ, List, [], ◌∷◌, Option, none, some, Bool-cases, inl, inr}
use omni_file_system.Prelude.Bytes.{Bytes}
use omni_file_system.Prelude.Preds.{All}
use omni_file_system.Types.{UserRole, is_admin}
use omni_file_system.Instance.{FsInstance, SessionInfo}
use omni_file_system.Users.{user_create, user_delete, user_login, user_logout, user_list}
use omni_file_system.Users.Accounts.{
  IsConsistent, IsShortName, user_create-IsConsistent, user_delete-IsConsistent,
  user_login-IsConsistent,
}

-- One request, with what the clock and the random source give it.
pub data Request : Type 0 where
  login : Bytes → ℕ → Option Bytes → Option Bytes → Request
  logout : Option SessionInfo → Request
  create : ℕ → Option SessionInfo → Bytes → Option Bytes → UserRole → Request
  delete : Option SessionInfo → Option Bytes → Request
  listing : Option SessionInfo → Request

unfoldable pub serve : (Bytes → ℕ) → Request → FsInstance → FsInstance
serve hash (login id now username password) inst = (user_login hash id now username password inst).1
serve hash (logout s) inst = (user_logout s inst).1
serve hash (create now s username password role) inst =
    (user_create hash now s (some username) password role inst).1
serve hash (delete s username) inst = (user_delete s username inst).1
serve hash (listing s) inst = (user_list s inst).1

unfoldable pub run : (Bytes → ℕ) → List Request → FsInstance → FsInstance
run hash [] inst = inst
run hash (r ∷ rs) inst = run hash rs (serve hash r inst)

-- A new user's name fits the table.
abbrev pub Fits : Request → Type 0
Fits (create now s username password role) = IsShortName username
Fits _ = Unit

logout-IsConsistent :
    (s : Option SessionInfo) (inst : FsInstance)
    → IsConsistent inst
    → IsConsistent (user_logout s inst).1
unfolding user_logout
logout-IsConsistent none inst v = v
logout-IsConsistent (some s) inst v = v

listing-IsConsistent :
    (s : Option SessionInfo) (inst : FsInstance)
    → IsConsistent inst
    → IsConsistent (user_list s inst).1
unfolding user_list
listing-IsConsistent none inst v = v
listing-IsConsistent (some s) inst v = elim (Bool-cases (is_admin s.user.role)) [
  | inl admin ↦ rw admin v
  | inr other ↦ rw other v
]

serve-IsConsistent :
    (hash : Bytes → ℕ) (r : Request) (inst : FsInstance)
    → Fits r
    → IsConsistent inst
    → IsConsistent (serve hash r inst)
unfolding serve
serve-IsConsistent hash (login id now username password) inst h v =
    user_login-IsConsistent hash id now username password inst v
serve-IsConsistent hash (logout s) inst h v = logout-IsConsistent s inst v
serve-IsConsistent hash (create now s username password role) inst h v =
    user_create-IsConsistent hash now s username password role inst v h
serve-IsConsistent hash (delete s username) inst h v = user_delete-IsConsistent s username inst v
serve-IsConsistent hash (listing s) inst h v = listing-IsConsistent s inst v

-- After any list of account requests, granted or refused, the index sends exactly the names of
-- the active users to their slots, if it did so before and every name that a `create` request
-- asks for has at most 31 bytes and no NUL.
pub run-IsConsistent :
    (hash : Bytes → ℕ) (rs : List Request) (inst : FsInstance)
    → All Fits rs
    → IsConsistent inst
    → IsConsistent (run hash rs inst)
unfolding run
run-IsConsistent hash [] inst h v = v
run-IsConsistent hash (r ∷ rs) inst h v =
    run-IsConsistent hash rs (serve hash r inst) h.1 (serve-IsConsistent hash r inst h.0 v)
