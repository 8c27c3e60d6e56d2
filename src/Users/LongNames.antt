-- ===== src/Users/LongNames.antt =====
-- User names that do not fit the 31 bytes of the table.
use omni_file_system.Prelude.{
  ℕ, ◌<◌, ◌≡◌, refl, ap, true, false, Bool-cases, inl, inr, none, some, arith, length, take,
  length-take,
}
use omni_file_system.Prelude.Bytes.{Bytes, c_str, IsText, eq_bytes, eq_bytes_iff}
use omni_file_system.Prelude.Text.{c_str-strncpy}
use omni_file_system.HashMap
use omni_file_system.HashMap.View.{IsValid, insert-refines, contains-find}
use omni_file_system.Types.{UserRole, new_user_info, is_admin, error_not_found}
use omni_file_system.Instance.{FsInstance, SessionInfo, Outcome, ok, err}
use omni_file_system.Instance.Persist.{persist_user_table}
use omni_file_system.Users.{user_create, user_delete, free_slot, placeholder_hash}

cut_name :
    (name hash : Bytes) (role : UserRole) (now : ℕ)
    → IsText name
    → c_str (new_user_info name hash role now).username ≡ take 31 name
unfolding new_user_info
cut_name name hash role now text = c_str-strncpy 31 name text

cut_differs : (name : Bytes) → 31 < length name → eq_bytes (take 31 name) name ≡ false
cut_differs name long = elim (Bool-cases (eq_bytes (take 31 name) name)) [
  | inr ne ↦ ne
  | inl same ↦
      let e = ap length ((eq_bytes_iff (take 31 name) name).0 same) in
      absurd (omega (arith, e, length-take 31 name))
]

module _ (hash : Bytes → ℕ) (now : ℕ) (s : SessionInfo) (name secret : Bytes) (role : UserRole)
    (inst : FsInstance) (v : IsValid inst.user_index) (admin : is_admin s.user.role ≡ true)
    (absent : HashMap.contains inst.user_index name ≡ false) (k : ℕ)
    (free : free_slot inst.users 0 ≡ some k) (text : IsText name) (long : 31 < length name) where
  abbrev created : Outcome (Unit {0}) × FsInstance
  created = user_create hash now (some s) (some name) (some secret) role inst

  abbrev cut : Bytes
  cut = take 31 name

  index_after :
      (created.0 ≡ ok tt) × (created.1.user_index ≡ (HashMap.insert inst.user_index cut k).1)
  unfolding user_create persist_user_table
  index_after =
      let named = cut_name name (placeholder_hash hash secret) role now text in
      rw (admin, absent, free, named) (refl, refl)

  still_absent : HashMap.find created.1.user_index name ≡ none
  still_absent =
      let r = insert-refines inst.user_index cut k v in
      rw (index_after.1, r.3 name, cut_differs name long)
        (ground (arith, contains-find inst.user_index name))

  -- With a well-formed name index, an administrator's `user_create` of an unused name of more
  -- than 31 bytes without NUL, with a slot free, succeeds, but afterwards `user_delete` of that
  -- name answers `error_not_found`, and the index still does not contain the name.
  pub long_name_lost :
      (created.0 ≡ ok tt)
      × ((user_delete (some s) (some name) created.1).0 ≡ err error_not_found)
      × (HashMap.contains created.1.user_index name ≡ false)
  unfolding user_delete
  long_name_lost = (
    index_after.0,
    rw (admin, still_absent),
    ground (arith, contains-find created.1.user_index name, still_absent),
  )
