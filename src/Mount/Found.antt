-- ===== src/Mount/Found.antt =====
-- Users and paths after `fs_shutdown` and `fs_init`: which of them are found again.
use omni_file_system.Prelude.{
  ℕ, ◌<◌, ◌≡◌, refl, false, Option, none, some, List, ◌∷◌, ◌++◌, arith, length,
}
use omni_file_system.Prelude.Bytes.{Bytes}
use omni_file_system.Prelude.Preds.{All, has}
use omni_file_system.HashMap
use omni_file_system.HashMap.View.{new-refines}
use omni_file_system.Stream.{Fstream}
use omni_file_system.Types.{MetaEntry, get_name}
use omni_file_system.Instance.{FsInstance, ok}
use omni_file_system.Instance.Frame.{KeepsRegion}
use omni_file_system.Users.Accounts.{IsConsistent}
use omni_file_system.Paths.{slash, rebuild_path_index}
use omni_file_system.Paths.Index.{LastUpTo, find-rebuild_path_index}
use omni_file_system.Paths.LongNames.{long_path-LastUpTo}
use omni_file_system.Mount.{fs_init, Host, reopened, fs_shutdown}
use omni_file_system.Mount.Saved.{IsSaved}
use omni_file_system.Mount.Lookups.{LastUpTo-unique, find-index_users}
use omni_file_system.Mount.Restart.{restarted, fs_init-fs_shutdown}

-- The path index sends each path to the last entry in use that has it, as the entries' names say.
abbrev pub IsUpToDate : FsInstance → Type 0
IsUpToDate inst =
    (p : Bytes)
    → LastUpTo inst.meta_entries (length inst.meta_entries) p (HashMap.find inst.path_index p)

pub restarted-IsUpToDate :
    (host : Host) (inst : FsInstance) (f : Fstream) → IsUpToDate (restarted host inst f)
unfolding restarted rebuild_path_index
restarted-IsUpToDate host inst f p =
    let valid = (new-refines {V = ℕ} 1009 host.hash (omega arith)).0 in
    unfold rebuild_path_index in
    find-rebuild_path_index (record inst { path_index = HashMap.new 1009 host.hash }) p valid

module _ (host : Host) (inst : FsInstance) (s : IsSaved inst) (root : MetaEntry)
    (es : List MetaEntry) (first : inst.meta_entries ≡ root ∷ es) (used : root.valid ≡ 0)
    (directory : root.type ≡ 1) where
  -- For an instance on a working device whose header fits its tables (magic number, offsets in
  -- their order, one user slot per `max_users`, fields of the right width, a bitmap byte for
  -- every eight blocks, as many blocks as `fs_init` counts, the maps as the header holds them),
  -- whose first entry is a directory in use, whose index of users agrees with the table, and
  -- whose path index sends each path to the last entry in use with that full path, and a path
  -- that no entry in use has to nothing: when the container that `fs_shutdown` leaves is opened
  -- again on a device that refuses nothing, `fs_init` returns an instance with the same users,
  -- entries, bitmap, encoding map and next index, in which every name and every path is found
  -- where it was, or not found as before, and the bytes of the block region are unchanged.
  pub find-fs_init :
      (fuel : ℕ) (config : Option Bytes)
      → ((n : ℕ) → host.refuses n ≡ false)
      → IsConsistent inst
      → IsUpToDate inst
      → let file = reopened host (fs_shutdown inst) in
        (back : FsInstance) × (fs_init host fuel config (some file) ≡ ok back)
        × (back.users ≡ inst.users)
        × (back.meta_entries ≡ inst.meta_entries)
        × (back.free_bitmap ≡ inst.free_bitmap)
        × (back.encoding_map ≡ inst.encoding_map)
        × (back.next_meta_index ≡ inst.next_meta_index)
        × ((name : Bytes) → HashMap.find back.user_index name ≡ HashMap.find inst.user_index name)
        × ((p : Bytes) → HashMap.find back.path_index p ≡ HashMap.find inst.path_index p)
        × KeepsRegion inst.blocks_offset inst.file back.file
  unfolding restarted rebuild_path_index
  find-fs_init fuel config reliable consistent current =
      let (f, run, kept) =
        fs_init-fs_shutdown host inst s root es first used directory fuel config reliable in
      let back = restarted host inst f in
      (
        back,
        run,
        refl,
        refl,
        refl,
        refl,
        refl,
        find-index_users inst.users inst.user_index consistent host.hash,
        λ p.
            LastUpTo-unique inst.meta_entries (length inst.meta_entries) p
              (HashMap.find back.path_index p) (HashMap.find inst.path_index p)
              (restarted-IsUpToDate host inst f p) (current p),
        kept,
      )

  -- For an instance on a working device whose header fits its tables (magic number, offsets in
  -- their order, one user slot per `max_users`, fields of the right width, a bitmap byte for
  -- every eight blocks, as many blocks as `fs_init` counts, the maps as the header holds them),
  -- whose first entry is a directory in use, and whose names have at most 11 bytes: when the
  -- container that `fs_shutdown` leaves is opened again on a device that refuses nothing,
  -- `fs_init` returns an instance whose path index finds nothing under a path that holds more
  -- than 11 bytes in a row without a slash, whatever the index found before.
  pub long_path_not_found :
      (fuel : ℕ) (config : Option Bytes) (before name after : Bytes)
      → ((n : ℕ) → host.refuses n ≡ false)
      → All (λ e. length (get_name e) < 12) inst.meta_entries
      → has name slash ≡ false
      → 11 < length name
      → let file = reopened host (fs_shutdown inst) in
        (back : FsInstance) × (fs_init host fuel config (some file) ≡ ok back)
        × (HashMap.find back.path_index (before ++ (name ++ after)) ≡ none)
  unfolding restarted rebuild_path_index
  long_path_not_found fuel config before name after reliable short plain long =
      let (f, run, kept) =
        fs_init-fs_shutdown host inst s root es first used directory fuel config reliable in
      let back = restarted host inst f in
      let p = before ++ (name ++ after) in
      (
        back,
        run,
        LastUpTo-unique inst.meta_entries (length inst.meta_entries) p
            (HashMap.find back.path_index p) none (restarted-IsUpToDate host inst f p)
            (long_path-LastUpTo inst.meta_entries before name after (length inst.meta_entries) short
              plain long),
      )
