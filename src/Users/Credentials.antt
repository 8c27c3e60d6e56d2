-- ===== src/Users/Credentials.antt =====
-- Which passwords open an account, from its creation to its deletion.
use omni_file_system.Prelude.{
  ℕ, zero, suc, ◌-◌, ◌≤◌, ◌≡◌, ◌≢◌, refl, ap, true, false, Bool-cases, inl, inr, none, some, List,
  [], ◌∷◌, arith, length, get_elem?, set, take, take_all, ◌==◌, get_elem?-set_self, if◌then◌else◌,
}
use mathlib.Core.List.{append-nil}
use omni_file_system.Prelude.Bytes.{Bytes, c_str, IsText, eq_bytes, eq_bytes_iff, eq_bytes_refl}
use omni_file_system.Prelude.Text.{c_str_text}
use omni_file_system.Prelude.Preds.{All}
use omni_file_system.HashMap
use omni_file_system.HashMap.{SimpleHashMap}
use omni_file_system.HashMap.View.{insert-refines, erase-refines}
use omni_file_system.Types.{
  UserInfo, UserRole, new_user_info, is_admin, error_permission_denied, error_not_found,
}
use omni_file_system.Instance.{FsInstance, SessionInfo, Outcome, ok, err}
use omni_file_system.Instance.Persist.{persist_user_table}
use omni_file_system.Users.{
  user_create, user_delete, user_login, free_slot, deactivate, placeholder_hash, user_slot, user_at,
  strncmp_eq, new_session, find_active,
}
use omni_file_system.Users.Passwords.{placeholder_hash_shape}
use omni_file_system.Users.Slots.{free_slot-some, get_elem?-length}
use omni_file_system.Users.Accounts.{
  IsConsistent, user_delete-IsConsistent, IsShortName, c_str-new_user_info,
}

take_text : (n : ℕ) (s : Bytes) → IsText s → length s ≤ n → c_str (take n s) ≡ s
take_text n s text short = rw (take_all n s short) (c_str_text s text)

-- What the table keeps of a new user.
new_user_info-kept :
    (name hash : Bytes) (role : UserRole) (now : ℕ)
    → length hash ≡ 64
    → ((new_user_info name hash role now).password_hash ≡ hash)
      × ((new_user_info name hash role now).is_active ≡ 1)
unfolding new_user_info
new_user_info-kept name hash role now h =
    rw h (rw (append-nil, take_all 64 hash (omega arith)) refl, refl)

slot_found :
    (inst : FsInstance) (name : Bytes) (k : ℕ)
    → HashMap.find inst.user_index name ≡ some k
    → user_slot inst name ≡ some k
unfolding user_slot
slot_found inst name k found = ground (arith, found)

user_at_lem :
    (inst : FsInstance) (k : ℕ) (u : UserInfo)
    → get_elem? inst.users k ≡ some u
    → user_at inst (some k) ≡ some (k, u)
user_at_lem inst k u here = ground arith

module _ (hash : Bytes → ℕ) (now later : ℕ) (s : SessionInfo) (name secret guess id : Bytes)
    (role : UserRole) (inst : FsInstance) (v : IsConsistent inst)
    (admin : is_admin s.user.role ≡ true) (absent : HashMap.contains inst.user_index name ≡ false)
    (k : ℕ) (free : free_slot inst.users 0 ≡ some k) (short : IsShortName name) where
  abbrev account : UserInfo
  account = new_user_info name (placeholder_hash hash secret) role now

  abbrev created : Outcome (Unit {0}) × FsInstance
  created = user_create hash now (some s) (some name) (some secret) role inst

  create_succeeds :
      (created.0 ≡ ok tt)
      × (created.1.users ≡ set inst.users k account)
      × (created.1.user_index ≡ (HashMap.insert inst.user_index name k).1)
  unfolding user_create persist_user_table
  create_succeeds =
      let named = c_str-new_user_info name (placeholder_hash hash secret) role now short in
      rw (admin, absent, free, named) (refl, refl, refl)

  slot_of_account : user_at created.1 (user_slot created.1 name) ≡ some (k, account)
  slot_of_account =
      let c = create_succeeds in
      let r = insert-refines inst.user_index name k v.index_valid in
      let (le, old, at, off) = free_slot-some inst.users 0 k free in
      let z : k - 0 ≡ k = omega arith in
      let inside = get_elem?-length inst.users k old (rw z at at) in
      let found : HashMap.find created.1.user_index name ≡ some k =
        rw (c.2, r.3 name, eq_bytes_refl name) in
      let here : get_elem? created.1.users k ≡ some account =
        rw (c.1) (get_elem?-set_self inst.users k account inside) in
      rw (slot_found created.1 name k found) (user_at_lem created.1 k account here)

  -- On an instance whose name index and user table agree, an administrator's `user_create` of an
  -- unused name of at most 31 bytes without NUL, with a slot free, succeeds; then a login under
  -- that name succeeds exactly with a password of the same stored hash, as a session of the new
  -- user with its role, and is denied with any other.
  pub user_login-user_create :
      (created.0 ≡ ok tt)
      × ((user_login hash id later (some name) (some guess) created.1).0 ≡ (
          if eq_bytes (placeholder_hash hash secret) (placeholder_hash hash guess)
          then ok (new_session id (record account { last_login = later }) later)
          else err error_permission_denied))
  unfolding user_login strncmp_eq persist_user_table
  user_login-user_create =
      let a = placeholder_hash_shape hash secret in
      let b = placeholder_hash_shape hash guess in
      let kept = new_user_info-kept name (placeholder_hash hash secret) role now a.0 in
      let ta = take_text 64 (placeholder_hash hash secret) a.1 (omega arith) in
      let tb = take_text 64 (placeholder_hash hash guess) b.1 (omega arith) in
      (
        create_succeeds.0,
        rw (slot_of_account, kept.1, kept.0, ta, tb)
            (elim (Bool-cases
              (eq_bytes (placeholder_hash hash secret) (placeholder_hash hash guess))) [
                | inl same ↦ rw same
                | inr other ↦ rw other
              ]),
      )

-- No active user has the name.
find_active-none :
    (us : List UserInfo) (i : ℕ) (name : Bytes)
    → IsShortName name
    → All (λ u. length u.username ≡ 32) us
    → ((j : ℕ) (u : UserInfo) → get_elem? us j ≡ some u → u.is_active ≢ 0 → c_str u.username ≢ name)
    → find_active name us i ≡ none
unfolding find_active strncmp_eq
find_active-none [] i name short wide others = refl
find_active-none (u ∷ us) i name short wide others =
    let rest =
      find_active-none us (suc i) name short wide.1 (λ j w at on. others (suc j) w at on) in
    let here = others 0 u refl in
    let a : take 32 u.username ≡ u.username = take_all 32 u.username (omega (arith, wide.0)) in
    let b = take_text 32 name short.0 (omega arith) in
    elim (Bool-cases (u.is_active == 0)) [
      | inl off ↦ rw off rest
      | inr on ↦ elim (Bool-cases (eq_bytes (c_str u.username) name)) [
        | inl same ↦
            absurd
              (here (λ z. absurd (ground arith)) ((eq_bytes_iff (c_str u.username) name).0 same))
        | inr other ↦ rw (on, a, b, other) rest
      ]
    ]

All-deactivate :
    (us : List UserInfo) (k : ℕ)
    → All (λ u. length u.username ≡ 32) us
    → All (λ u. length u.username ≡ 32) (deactivate us k)
All-deactivate [] k h = tt
All-deactivate (u ∷ us) zero h = h
All-deactivate (u ∷ us) (suc k) h = (h.0, All-deactivate us k h.1)

slot_missing :
    (inst : FsInstance) (name : Bytes)
    → HashMap.find inst.user_index name ≡ none
    → find_active name inst.users 0 ≡ none
    → user_slot inst name ≡ none
unfolding user_slot
slot_missing inst name missing unseen = ground (arith, missing, unseen)

module _ (hash : Bytes → ℕ) (later : ℕ) (s : SessionInfo) (name guess id : Bytes)
    (inst : FsInstance) (v : IsConsistent inst) (admin : is_admin s.user.role ≡ true) (k : ℕ)
    (found : HashMap.find inst.user_index name ≡ some k) (short : IsShortName name)
    (wide : All (λ u. length u.username ≡ 32) inst.users) where
  abbrev deleted : Outcome (Unit {0}) × FsInstance
  deleted = user_delete (some s) (some name) inst

  delete_succeeds :
      (deleted.0 ≡ ok tt)
      × (deleted.1.users ≡ deactivate inst.users k)
      × (deleted.1.user_index ≡ (HashMap.erase inst.user_index name).1)
  unfolding user_delete persist_user_table
  delete_succeeds =
      let (u, at, on, named) = v.listed name k found in rw (admin, found, at) (refl, refl, refl)

  name_gone : user_slot deleted.1 name ≡ none
  name_gone =
      let d = delete_succeeds in
      let r = erase-refines inst.user_index name v.index_valid in
      let w : IsConsistent deleted.1 = user_delete-IsConsistent (some s) (some name) inst v in
      let missing : HashMap.find deleted.1.user_index name ≡ none =
        rw (d.2, r.3 name, eq_bytes_refl name) in
      let all : All (λ u. length u.username ≡ 32) deleted.1.users =
        rw (d.1) (All-deactivate inst.users k wide) in
      slot_missing deleted.1 name missing (
        find_active-none deleted.1.users 0 name short all (λ j u at on named.
          let there = w.indexed j u at on in
          cc (missing, there, ap (HashMap.find deleted.1.user_index) named)))

  -- On an instance whose name index and user table agree and whose name fields are 32 bytes, an
  -- administrator's `user_delete` of an indexed name of at most 31 bytes without NUL succeeds;
  -- afterwards a login under that name is answered by `error_not_found` whatever the password,
  -- and the index of every other name is as it was.
  pub user_login-user_delete :
      (deleted.0 ≡ ok tt)
      × ((user_login hash id later (some name) (some guess) deleted.1).0 ≡ err error_not_found)
      × ((j : Bytes)
          → HashMap.find deleted.1.user_index j
            ≡ (if eq_bytes name j then none else HashMap.find inst.user_index j))
  unfolding user_login
  user_login-user_delete =
      let d = delete_succeeds in
      let r = erase-refines inst.user_index name v.index_valid in
      (d.0, rw name_gone, λ j. rw (d.2) (r.3 j))
