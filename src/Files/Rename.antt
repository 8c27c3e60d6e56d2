-- ===== src/Files/Rename.antt =====
-- `file_rename` of source/core/ofs_core.cpp.
use omni_file_system.Prelude.{
  ℕ, ◌==◌, Bool, true, false, not, ◌&&◌, ◌||◌, Option, none, some, [], ◌∷◌, length, leb, ltb,
  if◌then◌else◌,
}
use omni_file_system.Prelude.Bytes.{Bytes}
use omni_file_system.HashMap
use omni_file_system.Types.{
  set_name, get_name, error_invalid_operation, error_not_found, error_invalid_path,
  error_file_exists, error_io_error,
}
use omni_file_system.Instance.{
  SessionInfo, Op, ◌>>=◌, ◌>>◌, pure, fail, gets, modify, check, require, call, modify_entry,
}
use omni_file_system.Instance.Persist.{persist_meta_entries, persist_header}
use omni_file_system.Directory.{dir_add_child, dir_remove_child}
use omni_file_system.Paths.{slash, rebuild_path_index}
use omni_file_system.Files.{lookup_path, entry_in_range}

-- The bytes before and behind the last slash, `none` without a slash: `find_last_of('/')`.
unfoldable pub cut_last_slash : Bytes → Option (Bytes × Bytes)
cut_last_slash [] = none
cut_last_slash (c ∷ s) = elim (cut_last_slash s) [
  | some (before, behind) ↦ some (c ∷ before, behind)
  | none ↦ if c == slash then some ([], s) else none
]

abbrev pub or_root : Bytes → Bytes
or_root [] = slash ∷ []
or_root (c ∷ s) = c ∷ s

abbrev pub is_empty : Bytes → Bool
is_empty [] = true
is_empty (c ∷ s) = false

-- The moves between the two directories: out of the old one, then into the new one under the new
-- name. Where the second fails, the entry goes back to its old parent, the name stays the new one.
unfoldable pub move_entry : ℕ → ℕ → ℕ → ℕ → ℕ → Bytes → Op (Unit {0})
move_entry fuel now idx old_parent new_parent new_basename = do
  unlisted ← dir_remove_child fuel old_parent idx
  check unlisted error_io_error
  modify_entry idx
      (λ e. record (set_name new_basename e) { parent = new_parent; modified_time = now })
  listed ← dir_add_child fuel new_parent idx
  if listed then pure tt else (do
    modify_entry idx (λ e. record (set_name (get_name e) e) { parent = old_parent })
    _ ← dir_add_child fuel old_parent idx
    fail error_io_error)

unfoldable pub file_rename :
    ℕ → ℕ → Option SessionInfo → Option Bytes → Option Bytes → Op (Unit {0})
file_rename fuel now session old_path_c new_path_c = do
  s ← require session error_invalid_operation
  old_path ← require old_path_c error_invalid_operation
  new_path ← require new_path_c error_invalid_operation
  check (not (is_empty old_path || is_empty new_path)) error_invalid_path
  old_idx ← lookup_path old_path
  entry ← entry_in_range old_idx
  check (entry.valid == 0) error_not_found
  taken ← gets (λ inst. HashMap.contains inst.path_index new_path)
  check (not taken) error_file_exists
  (before, new_basename) ← require (cut_last_slash new_path) error_invalid_path
  check (not (is_empty new_basename || ltb 11 (length new_basename))) error_invalid_operation
  new_parent_idx ← lookup_path (or_root before)
  new_parent ← entry_in_range new_parent_idx
  check (new_parent.valid == 0 && new_parent.type == 1) error_invalid_operation
  known ← gets (λ inst. not (entry.parent == 0) && leb entry.parent (length inst.meta_entries))
  check known error_invalid_operation
  move_entry fuel now old_idx entry.parent new_parent_idx new_basename
  _ ← call persist_meta_entries
  _ ← call persist_header
  modify rebuild_path_index
