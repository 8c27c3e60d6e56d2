-- ===== src/Users/Accounts.antt =====
-- The user table and its index: they name the same active users after every operation.
use omni_file_system.Prelude.{
  ℕ, ◌-◌, ◌≤◌, ◌≡◌, ◌≢◌, refl, sym, ap, ◌∙◌, false, Bool-cases, inl, inr, Option, Option-cases,
  none, some, List, arith, length, get_elem?, set, take_all, ◌==◌, ==_iff, get_elem?-set_self,
  get_elem?-set_ne,
}
use omni_file_system.Prelude.Bytes.{Bytes, c_str, IsText, eq_bytes, eq_bytes_iff, eq_bytes_refl}
use omni_file_system.Prelude.Text.{c_str-strncpy}
use omni_file_system.HashMap
use omni_file_system.HashMap.{SimpleHashMap}
use omni_file_system.HashMap.View.{IsValid, insert-refines, erase-refines, contains-find}
use omni_file_system.Types.{UserInfo, UserRole, new_user_info, is_admin}
use omni_file_system.Instance.{FsInstance, SessionInfo}
use omni_file_system.Instance.Persist.{persist_user_table}
use omni_file_system.Users.{
  user_create, user_delete, user_login, free_slot, deactivate, placeholder_hash, user_slot, user_at,
  strncmp_eq,
}
use omni_file_system.Users.Slots.{
  free_slot-some, get_elem?-length, get_elem?-deactivate_self, get_elem?-deactivate_ne,
}

-- The index sends exactly the names of the active users to their slots.
pub record AreIndexed (users : List UserInfo) (index : SimpleHashMap ℕ) : Type 0 where
  pub index_valid : IsValid index
  pub listed :
      (name : Bytes) (i : ℕ)
      → HashMap.find index name ≡ some i
      → (u : UserInfo) × (get_elem? users i ≡ some u)
        × (u.is_active ≢ 0)
        × (c_str u.username ≡ name)
  pub indexed :
      (i : ℕ) (u : UserInfo)
      → get_elem? users i ≡ some u
      → u.is_active ≢ 0
      → HashMap.find index (c_str u.username) ≡ some i

other_name :
    (index : SimpleHashMap ℕ) (name j : Bytes) (i : ℕ)
    → HashMap.find index name ≡ none
    → HashMap.find index j ≡ some i
    → eq_bytes name j ≡ false
other_name index name j i absent found = elim (Bool-cases (eq_bytes name j)) [
  | inr ne ↦ ne
  | inl same ↦ cc (absent, found, ap (HashMap.find index) ((eq_bytes_iff name j).0 same))
]

module _ {users : List UserInfo} {index : SimpleHashMap ℕ} (v : AreIndexed users index) where
  -- A new active user in a slot that was not active, under a name that was not there.
  pub AreIndexed-added :
      (k : ℕ) (name : Bytes) (u old : UserInfo)
      → get_elem? users k ≡ some old
      → old.is_active ≡ 0
      → u.is_active ≢ 0
      → c_str u.username ≡ name
      → HashMap.find index name ≡ none
      → AreIndexed (set users k u) (HashMap.insert index name k).1
  AreIndexed-added k name u old at off on named absent =
      let r = insert-refines index name k v.index_valid in
      let inside = get_elem?-length users k old at in
      let here = get_elem?-set_self users k u inside in
      record {
        index_valid = r.0;
        listed = λ j i e. elim (Bool-cases (eq_bytes name j)) [
          | inl same ↦
              let k_is : k ≡ i = ground (arith, r.3 j) in
              (u, rw (← k_is) here, on, named ∙ (eq_bytes_iff name j).0 same)
          | inr other ↦
              let was : HashMap.find index j ≡ some i = ground (arith, r.3 j) in
              let (w, w_at, w_on, w_named) = v.listed j i was in
              let apart : k ≢ i = λ e. w_on (ground (arith, at, w_at, ap (get_elem? users) e)) in
              (w, get_elem?-set_ne users u apart ∙ w_at, w_on, w_named)
        ];
        indexed = λ i w e w_on. elim (Bool-cases (k == i)) [
          | inl same ↦
              let ki = (==_iff k i).0 same in
              let e' : get_elem? (set users k u) k ≡ some w =
                ap (get_elem? (set users k u)) ki ∙ e in
              let wu : w ≡ u = ground arith in
              let nm : c_str w.username ≡ name = rw wu named in
              rw (nm, r.3 name, eq_bytes_refl name, ki)
          | inr other ↦
              let apart : k ≢ i = λ e. absurd (ground arith) in
              let was = sym (get_elem?-set_ne users u apart) ∙ e in
              let found = v.indexed i w was w_on in
              let ne = other_name index name (c_str w.username) i absent found in
              rw (r.3 (c_str w.username), ne) found
        ];
      }

  -- The user at slot `k`, whose name is `name`, is switched off and leaves the index.
  AreIndexed-removed :
      (k : ℕ) (name : Bytes)
      → HashMap.find index name ≡ some k
      → AreIndexed (deactivate users k) (HashMap.erase index name).1
  AreIndexed-removed k name found =
      let r = erase-refines index name v.index_valid in
      let (u, at, on, named) = v.listed name k found in
      record {
        index_valid = r.0;
        listed = λ j i e.
            let ne : eq_bytes name j ≡ false = ground (arith, r.3 j) in
            let was : HashMap.find index j ≡ some i = ground (arith, r.3 j) in
            let (w, w_at, w_on, w_named) = v.listed j i was in
            let apart : k ≢ i = λ ki.
              let wu : w ≡ u = ground (arith, at, w_at, ap (get_elem? users) ki) in
              let nj : name ≡ j =
                sym named ∙ ap (λ (t : UserInfo). c_str t.username) (sym wu) ∙ w_named in
              cc (ne, (eq_bytes_iff name j).1 nj) in
            (w, get_elem?-deactivate_ne users k i apart ∙ w_at, w_on, w_named);
        indexed = λ i w e w_on.
            let here = get_elem?-deactivate_self users k u at in
            let apart : k ≢ i =
              λ ki. w_on (ground (arith, here, e, ap (get_elem? (deactivate users k)) ki)) in
            let was = sym (get_elem?-deactivate_ne users k i apart) ∙ e in
            let iw = v.indexed i w was w_on in
            elim (Bool-cases (eq_bytes name (c_str w.username))) [
              | inl same ↦
                  let nj = (eq_bytes_iff name (c_str w.username)).0 same in
                  absurd (apart (ground (arith, found, iw, ap (HashMap.find index) nj)))
              | inr ne ↦ rw (r.3 (c_str w.username), ne) iw
            ];
      }

  -- An active user is replaced by one of the same name that is active too.
  AreIndexed-replaced :
      (k : ℕ) (old u : UserInfo)
      → get_elem? users k ≡ some old
      → old.is_active ≢ 0
      → u.is_active ≢ 0
      → u.username ≡ old.username
      → AreIndexed (set users k u) index
  AreIndexed-replaced k old u at off on same_name =
      let inside = get_elem?-length users k old at in
      let here = get_elem?-set_self users k u inside in
      record {
        index_valid = v.index_valid;
        listed = λ j i e.
            let (w, w_at, w_on, w_named) = v.listed j i e in
            elim (Bool-cases (k == i)) [
              | inl same ↦
                  let ki = (==_iff k i).0 same in
                  let wo : w ≡ old = ground (arith, at, w_at, ap (get_elem? users) ki) in
                  let nm : c_str u.username ≡ j =
                    ap c_str (same_name ∙ ap (λ (t : UserInfo). t.username) (sym wo)) ∙ w_named in
                  (u, rw (← ki) here, on, nm)
              | inr other ↦
                  let apart : k ≢ i = λ e. absurd (ground arith) in
                  (w, get_elem?-set_ne users u apart ∙ w_at, w_on, w_named)
            ];
        indexed = λ i w e w_on. elim (Bool-cases (k == i)) [
          | inl same ↦
              let ki = (==_iff k i).0 same in
              let e' : get_elem? (set users k u) k ≡ some w =
                ap (get_elem? (set users k u)) ki ∙ e in
              let wu : w ≡ u = ground arith in rw (wu, same_name, ← ki) (v.indexed k old at off)
          | inr other ↦
              let apart : k ≢ i = λ e. absurd (ground arith) in
              v.indexed i w (sym (get_elem?-set_ne users u apart) ∙ e) w_on
        ];
      }

-- The table and the index of an instance.
abbrev pub IsConsistent : FsInstance → Type 0
IsConsistent inst = AreIndexed inst.users inst.user_index

-- `user_create` changes the table and the index together, or neither of them.
user_create-cases :
    (P : List UserInfo → SimpleHashMap ℕ → Type 0) (hash : Bytes → ℕ) (now : ℕ)
    (s : Option SessionInfo) (username password : Option Bytes) (role : UserRole)
    (inst : FsInstance)
    → P inst.users inst.user_index
    → ((name secret : Bytes) (k : ℕ)
        → username ≡ some name
        → HashMap.contains inst.user_index name ≡ false
        → free_slot inst.users 0 ≡ some k
        → let u = new_user_info name (placeholder_hash hash secret) role now in
          P (set inst.users k u) (HashMap.insert inst.user_index (c_str u.username) k).1)
    → let r = user_create hash now s username password role inst in P r.1.users r.1.user_index
unfolding user_create persist_user_table
user_create-cases P hash now none username password role inst stays changes = stays
user_create-cases P hash now (some s) none password role inst stays changes = stays
user_create-cases P hash now (some s) (some name) none role inst stays changes = stays
user_create-cases P hash now (some s) (some name) (some secret) role inst stays changes =
    elim (Bool-cases (is_admin s.user.role)) [
      | inr no_admin ↦ rw no_admin stays
      | inl admin ↦ elim (Bool-cases (HashMap.contains inst.user_index name)) [
        | inl taken ↦ rw (admin, taken) stays
        | inr new ↦ elim (Option-cases (free_slot inst.users 0)) [
          | inl full ↦ rw (admin, new, full) stays
          | inr (k, free) ↦ rw (admin, new, free) (changes name secret k refl new free)
        ]
      ]
    ]

user_delete-cases :
    (P : List UserInfo → SimpleHashMap ℕ → Type 0) (s : Option SessionInfo)
    (username : Option Bytes) (inst : FsInstance)
    → P inst.users inst.user_index
    → ((name : Bytes) (k : ℕ)
        → HashMap.find inst.user_index name ≡ some k
        → P (deactivate inst.users k) (HashMap.erase inst.user_index name).1)
    → let r = user_delete s username inst in P r.1.users r.1.user_index
unfolding user_delete persist_user_table
user_delete-cases P none username inst stays changes = stays
user_delete-cases P (some s) none inst stays changes = stays
user_delete-cases P (some s) (some name) inst stays changes =
    elim (Bool-cases (is_admin s.user.role)) [
      | inr no_admin ↦ rw no_admin stays
      | inl admin ↦ elim (Option-cases (HashMap.find inst.user_index name)) [
        | inl missing ↦ rw (admin, missing) stays
        | inr (k, found) ↦ elim (Option-cases (get_elem? inst.users k)) [
          | inl beyond ↦ rw (admin, found, beyond) stays
          | inr (u, at) ↦ rw (admin, found, at) (changes name k found)
        ]
      ]
    ]

-- A name that fits the 31 bytes of the table, without NUL.
abbrev pub IsShortName : Bytes → Type 0
IsShortName name = IsText name × (length name ≤ 31)

pub c_str-new_user_info :
    (name hash : Bytes) (role : UserRole) (now : ℕ)
    → IsShortName name
    → c_str (new_user_info name hash role now).username ≡ name
unfolding new_user_info
c_str-new_user_info name hash role now (text, short) =
    c_str-strncpy 31 name text ∙ take_all 31 name short

absent_lem :
    (index : SimpleHashMap ℕ) (name : Bytes)
    → HashMap.contains index name ≡ false
    → HashMap.find index name ≡ none
absent_lem index name h = ground (arith, contains-find index name)

is_active-new_user_info :
    (name hash : Bytes) (role : UserRole) (now : ℕ)
    → (new_user_info name hash role now).is_active ≢ 0
unfolding new_user_info
is_active-new_user_info name hash role now = omega arith

-- Whatever the session, its rights and the outcome, creating a user whose name fits the table keeps
-- the index and the table of users in step.
pub user_create-IsConsistent :
    (hash : Bytes → ℕ) (now : ℕ) (s : Option SessionInfo) (name : Bytes) (password : Option Bytes)
    (role : UserRole) (inst : FsInstance)
    → IsConsistent inst
    → IsShortName name
    → IsConsistent (user_create hash now s (some name) password role inst).1
user_create-IsConsistent hash now s name password role inst v short =
    user_create-cases AreIndexed hash now s (some name) password role inst v
      (λ n secret k e new free.
        let (le, old, at, off) = free_slot-some inst.users 0 k free in
        let z : k - 0 ≡ k = omega arith in
        let kept = placeholder_hash hash secret in
        let u = new_user_info n kept role now in
        let same : n ≡ name = ground arith in
        let named : c_str u.username ≡ n = c_str-new_user_info n kept role now (rw same short) in
        AreIndexed-added v k (c_str u.username) u old (rw (← z) at) off
          (is_active-new_user_info n kept role now) refl
          (rw named (absent_lem inst.user_index n new)))

-- So does deleting a user, whatever the name.
pub user_delete-IsConsistent :
    (s : Option SessionInfo) (username : Option Bytes) (inst : FsInstance)
    → IsConsistent inst
    → IsConsistent (user_delete s username inst).1
user_delete-IsConsistent s username inst v =
    user_delete-cases AreIndexed s username inst v
      (λ name k found. AreIndexed-removed v k name found)

user_at-some :
    (inst : FsInstance) (o : Option ℕ) (k : ℕ) (u : UserInfo)
    → user_at inst o ≡ some (k, u)
    → get_elem? inst.users k ≡ some u
user_at-some inst none k u e = cc
user_at-some inst (some i) k u e = ground arith

user_login-cases :
    (P : List UserInfo → SimpleHashMap ℕ → Type 0) (hash : Bytes → ℕ) (id : Bytes) (now : ℕ)
    (username password : Option Bytes) (inst : FsInstance)
    → P inst.users inst.user_index
    → ((k : ℕ) (u : UserInfo)
        → get_elem? inst.users k ≡ some u
        → u.is_active ≢ 0
        → P (set inst.users k (record u { last_login = now })) inst.user_index)
    → let r = user_login hash id now username password inst in P r.1.users r.1.user_index
unfolding user_login persist_user_table
user_login-cases P hash id now none password inst stays changes = stays
user_login-cases P hash id now (some name) none inst stays changes = stays
user_login-cases P hash id now (some name) (some secret) inst stays changes =
    elim (Option-cases (user_at inst (user_slot inst name))) [
      | inl missing ↦ rw missing stays
      | inr ((k, u), found) ↦ elim (Bool-cases (u.is_active == 0)) [
        | inl off ↦ rw (found, off) stays
        | inr on ↦
            elim (Bool-cases (strncmp_eq 64 u.password_hash (placeholder_hash hash secret))) [
              | inr wrong ↦ rw (found, on, wrong) stays
              | inl right ↦
                  rw (found, on, right)
                    (changes k u (user_at-some inst (user_slot inst name) k u found)
                      (λ z. absurd (ground arith)))
            ]
      ]
    ]

-- So does every login, successful or not.
pub user_login-IsConsistent :
    (hash : Bytes → ℕ) (id : Bytes) (now : ℕ) (username password : Option Bytes) (inst : FsInstance)
    → IsConsistent inst
    → IsConsistent (user_login hash id now username password inst).1
user_login-IsConsistent hash id now username password inst v =
    user_login-cases AreIndexed hash id now username password inst v
      (λ k u at on. AreIndexed-replaced v k u (record u { last_login = now }) at on on refl)
