-- ===== src/Directories/Guards.antt =====
-- What `dir_delete`, `dir_exists` and `file_exists` refuse.
use omni_file_system.Prelude.{
  ℕ, suc, ◌≡◌, refl, Bool-cases, Option-cases, true, false, inl, inr, Option, none, some, List, [],
  ◌∷◌, arith, ◌==◌,
}
use omni_file_system.Prelude.Bytes.{Bytes, eq_bytes}
use omni_file_system.HashMap
use omni_file_system.Stream.Laws.{SameFile}
use omni_file_system.Types.{MetaEntry, error_directory_not_empty}
use omni_file_system.Instance.{FsInstance, SessionInfo, ok, err, entry?}
use omni_file_system.Directory.Block.{Lists}
use omni_file_system.Directory.Listing.{IsMounted, Placed, dir_block_read-Lists}
use omni_file_system.Paths.{slash}
use omni_file_system.Files.{file_exists, lookup_path, entry_in_range}
use omni_file_system.Directories.{dir_delete, dir_exists}

module _ (fuel : ℕ) (s : SessionInfo) (path : Bytes) (index : ℕ) (inst : FsInstance)
    (m : IsMounted inst) (dir : MetaEntry) (p : Placed inst dir.start_index) (child : ℕ)
    (cs : List ℕ) where
  -- On a working device with blocks of 8 bytes at least, for a path that is neither empty nor
  -- `/` and is indexed to a directory of one block in the address range that lists at least one
  -- child: `dir_delete` answers `error_directory_not_empty`, and of the instance only the
  -- position and state of the stream may differ afterwards.
  pub dir_delete-Lists :
      eq_bytes path [] ≡ false
      → eq_bytes path (slash ∷ []) ≡ false
      → HashMap.find inst.path_index path ≡ some index
      → entry? inst.meta_entries index ≡ some dir
      → dir.type ≡ 1
      → Lists p m.room inst.file (child ∷ cs)
      → let r = dir_delete (suc (suc fuel)) (some s) (some path) inst in
        (r.0 ≡ err error_directory_not_empty)
        × SameFile inst.file r.1.file
        × (r.1 ≡ record inst { file = r.1.file })
  unfolding dir_delete lookup_path
  dir_delete-Lists nonempty other found here directory l =
      let (e, same, keep) =
        dir_block_read-Lists fuel inst m dir dir.start_index p refl (child ∷ cs) l in
      let is_directory : (dir.type == 1) ≡ true = ground (arith, directory) in
      rw (nonempty, other, found, here, is_directory, e) (refl, same, keep)

-- On one instance, when `file_exists` of a path succeeds, `dir_exists` of the same path, with
-- the same session, does not.
pub file_exists-dir_exists :
    (session : Option SessionInfo) (path_c : Option Bytes) (inst : FsInstance)
    → (file_exists session path_c inst).0 ≡ ok tt
    → ¬ ((dir_exists session path_c inst).0 ≡ ok tt)
unfolding file_exists dir_exists lookup_path entry_in_range
file_exists-dir_exists none path_c inst f d = ground arith
file_exists-dir_exists (some s) none inst f d = ground arith
file_exists-dir_exists (some s) (some path) inst f d =
    elim (Option-cases (HashMap.find inst.path_index path)) [
      | inl missing ↦ let fails = (rw missing at f) in ground arith
      | inr (i, found) ↦ elim (Option-cases (entry? inst.meta_entries i)) [
        | inl outside ↦ let fails = (rw (found, outside) at f) in ground arith
        | inr (entry, there) ↦
            let is_file = (rw (found, there) at f) in
            let is_directory = (rw (found, there) at d) in
            elim (Bool-cases (entry.type == 0)) [
              | inr other ↦
                  let no = (rw other at is_file) in
                  elim (Bool-cases (entry.valid == 0)) [
                    | inl used ↦ let fails = (rw used at no) in ground arith
                    | inr unused ↦ let fails = (rw unused at no) in ground arith
                  ]
              | inl file ↦
                  let no : (entry.type == 1) ≡ false = ground arith in
                  let k = (rw no at is_directory) in ground arith
            ]
      ]
    ]
