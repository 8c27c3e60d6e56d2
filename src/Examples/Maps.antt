-- ===== src/Examples/Maps.antt =====
-- `SimpleHashMap` on a few keys of user names.
use omni_file_system.HashMap.View.{IsValid, insert-refines, new-refines, erase-refines}
use omni_file_system.HashMap.{
  SimpleHashMap, new, erase, insert, find, contains, overwrite, drop_key, lookup,
}
use omni_file_system.Prelude.Bytes.{Bytes, codes, eq_bytes}
use omni_file_system.Prelude.{ℕ, arith, get_or, ◌≡◌, none, not, ◌+◌, if◌then◌else◌, some, refl}

-- Keys hash to their first byte.
abbrev first_byte : Bytes → ℕ
first_byte s = get_or s 0 0

abbrev start : SimpleHashMap ℕ
start = new 3 first_byte

start-IsValid : IsValid start
start-IsValid = (new-refines 3 first_byte (omega arith)).0

abbrev one_user : SimpleHashMap ℕ
one_user = (insert start (codes "admin") 7).1

insert-refines_example :
    IsValid one_user
    × ((insert start (codes "admin") 7).0 ≡ not (contains start (codes "admin")))
    × (one_user.size ≡ start.size + (if contains start (codes "admin") then 0 else 1))
    × ((j : Bytes)
        → find one_user j ≡ (if eq_bytes (codes "admin") j then some 7 else find start j))
insert-refines_example = insert-refines start (codes "admin") 7 start-IsValid

one_user-IsValid : IsValid one_user
one_user-IsValid = (insert-refines start (codes "admin") 7 start-IsValid).0

erase-refines_example :
    IsValid (erase one_user (codes "admin")).1
    × ((erase one_user (codes "admin")).0 ≡ contains one_user (codes "admin"))
    × ((erase one_user (codes "admin")).1.size
          + (if contains one_user (codes "admin") then 1 else 0)
        ≡ one_user.size)
    × ((j : Bytes)
        → find (erase one_user (codes "admin")).1 j
          ≡ (if eq_bytes (codes "admin") j then none else find one_user j))
erase-refines_example = erase-refines one_user (codes "admin") one_user-IsValid

-- Two keys in one bucket, one of them overwritten and the other erased.
collision :
    find
      (erase (insert (insert one_user (codes "alice") 8).1 (codes "admin") 9).1 (codes "alice")).1
      (codes "admin")
    ≡ some 9
unfolding new insert erase find overwrite drop_key lookup eq_bytes
collision = refl
