-- ===== src/Examples/Accounts.antt =====
-- Accounts on the small container.
use omni_file_system.Prelude.{
  ℕ, zero, suc, ◌≡◌, ◌≢◌, refl, arith, [], ◌∷◌, none, some, get_elem?, false, if◌then◌else◌, length,
}
use omni_file_system.Prelude.Bytes.{Bytes, codes, eq_bytes, c_str, strncpy}
use omni_file_system.Prelude.Preds.{All}
use omni_file_system.HashMap
use omni_file_system.HashMap.{new, SimpleHashMap}
use omni_file_system.HashMap.View.{new-refines}
use omni_file_system.Types.{
  UserInfo, normal, error_permission_denied, error_not_found, new_user_info,
}
use omni_file_system.Instance.{FsInstance, ok, err}
use omni_file_system.Instance.Persist.{persist_user_table}
use omni_file_system.Users.{
  user_create, user_delete, user_login, free_slot, placeholder_hash, new_session,
}
use omni_file_system.Users.Accounts.{IsConsistent, user_create-IsConsistent}
use omni_file_system.Users.History.{run, run-IsConsistent, create, login, delete}
use omni_file_system.Users.Credentials.{user_login-user_create, user_login-user_delete}
use omni_file_system.Users.LongNames.{long_name_lost}
use omni_file_system.Users.Passwords.{placeholder_hash_collision}
use omni_file_system.Examples.Instances.{fresh, root_session, weak_hash, first_byte}

three_free : (i : ℕ) (u : UserInfo) → get_elem? fresh.users i ≡ some u → u.is_active ≡ 0
three_free zero u e = ground arith
three_free (suc zero) u e = ground arith
three_free (suc (suc zero)) u e = ground arith
three_free (suc (suc (suc i))) u e = cc

pub fresh-IsConsistent : IsConsistent fresh
fresh-IsConsistent =
    let n = new-refines {V = ℕ} 3 first_byte (omega arith) in
    record {
      index_valid = n.0;
      listed = λ name i e. absurd (cc (e, n.2 name));
      indexed = λ i u e on. absurd (on (three_free i u e));
    }

run-IsConsistent_example : IsConsistent (
    run weak_hash
      (create 5 (some root_session) (codes "alice") (some (codes "pw")) normal
        ∷ login (codes "s2") 6 (some (codes "alice")) (some (codes "pw"))
        ∷ delete (some root_session) (some (codes "alice"))
        ∷ [])
      fresh)
run-IsConsistent_example =
    run-IsConsistent weak_hash
      (create 5 (some root_session) (codes "alice") (some (codes "pw")) normal
        ∷ login (codes "s2") 6 (some (codes "alice")) (some (codes "pw"))
        ∷ delete (some root_session) (some (codes "alice"))
        ∷ [])
      fresh ((tt, omega arith), (tt, (tt, tt))) fresh-IsConsistent

nobody : HashMap.contains fresh.user_index (codes "alice") ≡ false
unfolding HashMap.contains HashMap.lookup new
nobody = refl

first_is_free : free_slot fresh.users 0 ≡ some 0
unfolding free_slot
first_is_free = refl

abbrev with_alice : FsInstance
with_alice =
    (user_create weak_hash 5 (some root_session) (some (codes "alice")) (some (codes "pw")) normal
      fresh).1

user_login-user_create_example :
    ((user_create weak_hash 5
        (some root_session)
        (some (codes "alice"))
        (some (codes "pw"))
        normal
        fresh).0
      ≡ ok tt)
    × ((user_login weak_hash
          (codes "s2")
          6
          (some (codes "alice"))
          (some (codes "guess"))
          with_alice).0
        ≡ (if eq_bytes
              (placeholder_hash weak_hash (codes "pw"))
              (placeholder_hash weak_hash (codes "guess"))
            then ok (
                new_session
                  (codes "s2")
                  (record (new_user_info
                    (codes "alice")
                    (placeholder_hash weak_hash (codes "pw"))
                    normal
                    5) { last_login = 6 })
                  6)
            else err error_permission_denied))
user_login-user_create_example =
    user_login-user_create weak_hash 5 6 root_session (codes "alice") (codes "pw") (codes "guess")
      (codes "s2") normal fresh fresh-IsConsistent refl nobody 0 first_is_free (tt, omega arith)

with_alice-IsConsistent : IsConsistent with_alice
with_alice-IsConsistent =
    user_create-IsConsistent weak_hash 5 (some root_session) (codes "alice") (some (codes "pw"))
      normal fresh fresh-IsConsistent (tt, omega arith)

alice_found : HashMap.find with_alice.user_index (codes "alice") ≡ some 0
unfolding HashMap.find HashMap.insert HashMap.overwrite HashMap.contains HashMap.lookup new
    user_create free_slot eq_bytes new_user_info strncpy c_str persist_user_table
alice_found = refl

wide : All (λ u. length u.username ≡ 32) with_alice.users
unfolding HashMap.contains HashMap.lookup new user_create free_slot new_user_info strncpy c_str
    persist_user_table
wide = (refl, (refl, (refl, tt)))

user_login-user_delete_example :
    ((user_delete (some root_session) (some (codes "alice")) with_alice).0 ≡ ok tt)
    × ((user_login weak_hash
          (codes "s2")
          7
          (some (codes "alice"))
          (some (codes "pw"))
          (user_delete (some root_session) (some (codes "alice")) with_alice).1).0
        ≡ err error_not_found)
    × ((j : Bytes)
        → HashMap.find
            (user_delete (some root_session) (some (codes "alice")) with_alice).1.user_index
            j
          ≡ (if eq_bytes (codes "alice") j then none else HashMap.find with_alice.user_index j))
user_login-user_delete_example =
    user_login-user_delete weak_hash 7 root_session (codes "alice") (codes "pw") (codes "s2")
      with_alice with_alice-IsConsistent refl 0 alice_found (tt, omega arith) wide

abbrev long_name : Bytes
long_name = codes "a_user_name_of_more_than_31_bytes"

long_nobody : HashMap.contains fresh.user_index long_name ≡ false
unfolding HashMap.contains HashMap.lookup new
long_nobody = refl

long_name_lost_example :
    ((user_create weak_hash 5
        (some root_session)
        (some long_name)
        (some (codes "pw"))
        normal
        fresh).0
      ≡ ok tt)
    × ((user_delete
          (some root_session)
          (some long_name)
          (user_create weak_hash 5
            (some root_session)
            (some long_name)
            (some (codes "pw"))
            normal
            fresh).1).0
        ≡ err error_not_found)
    × (HashMap.contains
          (user_create weak_hash 5
            (some root_session)
            (some long_name)
            (some (codes "pw"))
            normal
            fresh).1.user_index
          long_name
        ≡ false)
long_name_lost_example =
    long_name_lost weak_hash 5 root_session long_name (codes "pw") normal fresh
      fresh-IsConsistent.index_valid refl long_nobody 0 first_is_free tt (omega arith)

-- Any hash that sends one password to 16 times what another has.
abbrev length_hash : Bytes → ℕ
length_hash s = length s

placeholder_hash_collision_example :
    (length_hash (codes "a") ≢ length_hash (codes "aaaaaaaaaaaaaaaa"))
    × (placeholder_hash length_hash (codes "a")
        ≡ placeholder_hash length_hash (codes "aaaaaaaaaaaaaaaa"))
placeholder_hash_collision_example =
    placeholder_hash_collision length_hash (codes "a") (codes "aaaaaaaaaaaaaaaa") (omega arith) refl
      (omega arith)
