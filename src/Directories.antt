-- ===== src/Directories.antt =====
-- Directories of source/core/ofs_core.cpp by their paths: `dir_create`, `dir_delete`, `dir_exists`, and
-- `set_permissions` of files and directories.
pub mod Guards
use omni_file_system.Prelude.{
  ℕ, zero, suc, ◌+◌, ◌==◌, Bool, true, false, not, ◌&&◌, ◌||◌, Option, none, some, List, [], ◌∷◌,
  length, leb, if◌then◌else◌,
}
use omni_file_system.Prelude.Bytes.{Bytes, eq_bytes}
use omni_file_system.HashMap
use omni_file_system.Types.{
  MetaEntry, set_name, error_invalid_operation, error_not_found, error_invalid_path,
  error_file_exists, error_no_space, error_io_error, error_directory_not_empty,
}
use omni_file_system.Instance.{
  FsInstance, SessionInfo, Op, ok, ◌>>=◌, ◌>>◌, pure, fail, gets, modify, check, require, call,
  entry_at, modify_entry,
}
use omni_file_system.Instance.Persist.{persist_meta_entries, persist_header}
use omni_file_system.Directory.{
  find_free_meta_index, dir_block_read, dir_add_child, dir_remove_child,
}
use omni_file_system.Paths.{slash, split_path_tokens, parent_and_name, rebuild_path_index}
use omni_file_system.Files.{is_absolute, lookup_path, owner_of, released, give_back}

-- The entry of a new directory; 493 is `0755`.
abbrev pub as_new_directory : ℕ → Bytes → ℕ → ℕ → MetaEntry → MetaEntry
as_new_directory parent basename owner now e = record (set_name basename e) {
  valid = 0;
  type = 1;
  parent = parent;
  start_index = 0;
  total_size = 0;
  permissions = 493;
  owner_id = owner;
  created_time = now;
  modified_time = now;
}

unfoldable pub dir_create : ℕ → ℕ → Option SessionInfo → Option Bytes → Op (Unit {0})
dir_create fuel now session path_c = do
  s ← require session error_invalid_operation
  path ← require path_c error_invalid_operation
  check (is_absolute path) error_invalid_path
  (parent_path, basename) ← require (parent_and_name (split_path_tokens path)) error_invalid_path
  parent_idx ← lookup_path parent_path
  parent ← entry_at parent_idx
  check (parent.type == 1 && parent.valid == 0) error_invalid_operation
  taken ← gets (λ inst. HashMap.contains inst.path_index path)
  check (not taken) error_file_exists
  meta_index ← gets find_free_meta_index
  check (not (meta_index == 0)) error_no_space
  owner ← gets (λ inst. owner_of inst s)
  modify_entry meta_index (as_new_directory parent_idx basename owner now)
  listed ← dir_add_child fuel parent_idx meta_index
  if listed
      then (do
        modify (λ inst. record inst {
          next_meta_index =
              if leb inst.next_meta_index meta_index then meta_index + 1 else inst.next_meta_index;
        })
        saved ← call persist_meta_entries
        check saved error_io_error
        saved' ← call persist_header
        check saved' error_io_error
        modify rebuild_path_index)
      else (do modify_entry meta_index released; fail error_io_error)

abbrev pub is_nil : List ℕ → Bool
is_nil [] = true
is_nil (c ∷ cs) = false

-- The first block of a directory, if it has one, for `free_blocks`.
abbrev pub own_blocks : MetaEntry → List ℕ
own_blocks dir = if dir.start_index == 0 then [] else dir.start_index ∷ []

-- The end of `dir_delete`, once the directory is known to be empty.
unfoldable pub remove_directory : ℕ → ℕ → MetaEntry → Op (Unit {0})
remove_directory fuel dir_idx dir = do
  known ← gets (λ inst. not (dir.parent == 0) && leb dir.parent (length inst.meta_entries))
  check known error_invalid_operation
  unlisted ← dir_remove_child fuel dir.parent dir_idx
  check unlisted error_io_error
  modify_entry dir_idx released
  modify (give_back (own_blocks dir))
  modify_entry dir_idx (λ e. record e { start_index = 0 })
  _ ← call persist_meta_entries
  modify rebuild_path_index

unfoldable pub dir_delete : ℕ → Option SessionInfo → Option Bytes → Op (Unit {0})
dir_delete fuel session path_c = do
  s ← require session error_invalid_operation
  path ← require path_c error_invalid_operation
  check (not (eq_bytes path [] || eq_bytes path (slash ∷ []))) error_invalid_operation
  dir_idx ← lookup_path path
  dir ← entry_at dir_idx
  check (dir.type == 1) error_invalid_operation
  read_back ← dir_block_read fuel dir
  children ← require read_back error_io_error
  check (is_nil children) error_directory_not_empty
  remove_directory fuel dir_idx dir

unfoldable pub dir_exists : Option SessionInfo → Option Bytes → Op (Unit {0})
dir_exists session path_c = do
  s ← require session error_invalid_operation
  path ← require path_c error_invalid_operation
  idx ← lookup_path path
  meta ← entry_at idx
  check (meta.type == 1 && meta.valid == 0) error_not_found

unfoldable pub set_permissions : ℕ → Option SessionInfo → Option Bytes → ℕ → Op (Unit {0})
set_permissions now session path_c permissions = do
  s ← require session error_invalid_operation
  path ← require path_c error_invalid_operation
  meta_idx ← lookup_path path
  me ← entry_at meta_idx
  check (me.valid == 0) error_not_found
  modify_entry meta_idx (λ e. record e { permissions = permissions; modified_time = now })
  _ ← call persist_meta_entries
  pure tt
