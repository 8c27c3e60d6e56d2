-- ===== src/Files/Creation.antt =====
-- `file_create` as a whole: the steps that it takes, and what `file_read` returns afterwards.
use omni_file_system.Prelude.{
  ℕ, ◌+◌, ◌≡◌, refl, ◌∙◌, Bool, true, false, some, List, length, ◌==◌, leb, if◌then◌else◌,
}
use omni_file_system.Prelude.Bytes.{Bytes}
use omni_file_system.HashMap
use omni_file_system.Types.{MetaEntry}
use omni_file_system.Instance.{
  FsInstance, SessionInfo, Outcome, ok, entry?, set_entry, modify_entry,
}
use omni_file_system.Instance.Persist.{persist_bitmap, persist_meta_entries, persist_header}
use omni_file_system.Directory.{find_free_meta_index, dir_add_child}
use omni_file_system.Paths.{split_path_tokens, parent_and_name}
use omni_file_system.Files.{
  create_blocks, file_create, as_new_file, owner_of, is_absolute, first_or_zero,
}

-- The number of the next entry that `persist_header` saves.
abbrev pub next_after : ℕ → ℕ → ℕ
next_after next meta_index = if leb next meta_index then meta_index + 1 else next

module _ (fuel now : ℕ) (s : SessionInfo) (path parent_path basename content : Bytes) (parent : ℕ)
    (free : MetaEntry) (inst : FsInstance) where
  abbrev pub meta_index : ℕ
  meta_index = find_free_meta_index inst

  abbrev pub new_file : MetaEntry
  new_file = as_new_file parent basename (length content) (owner_of inst s) now free

  -- The entry before its content is stored.
  abbrev pub entered : FsInstance
  entered = record inst { meta_entries = set_entry inst.meta_entries meta_index new_file }

  abbrev pub stored : Outcome (List ℕ) × FsInstance
  stored = create_blocks meta_index content entered

  abbrev pub linked : List ℕ → MetaEntry
  linked blocks = record new_file { start_index = first_or_zero blocks }

  -- The instance that the tables are written from.
  abbrev pub settled : List ℕ → FsInstance
  settled blocks = record stored.1 {
    meta_entries = set_entry stored.1.meta_entries meta_index (linked blocks);
    next_meta_index = next_after stored.1.next_meta_index meta_index;
  }

  abbrev pub listed : List ℕ → Outcome Bool × FsInstance
  listed blocks =
      dir_add_child fuel parent meta_index
        (persist_header (persist_bitmap (persist_meta_entries (settled blocks)).1).1).1

  -- The steps of `file_create` where each of them succeeds.
  pub file_create-runs :
      is_absolute path ≡ true
      → parent_and_name (split_path_tokens path) ≡ some (parent_path, basename)
      → HashMap.find inst.path_index parent_path ≡ some parent
      → HashMap.contains inst.path_index path ≡ false
      → (meta_index == 0) ≡ false
      → entry? inst.meta_entries meta_index ≡ some free
      → (blocks : List ℕ) → stored.0 ≡ ok blocks
      → entry? stored.1.meta_entries meta_index ≡ some new_file
      → (persist_meta_entries (settled blocks)).0 ≡ true
      → (persist_bitmap (persist_meta_entries (settled blocks)).1).0 ≡ true
      → (persist_header (persist_bitmap (persist_meta_entries (settled blocks)).1).1).0 ≡ true
      → (done : Bool) → (listed blocks).0 ≡ ok done
      → file_create fuel now (some s) (some path) content inst ≡ (
        ok tt,
        record (listed blocks).1 {
          path_index = (HashMap.insert (listed blocks).1.path_index path meta_index).1;
        },
      )
  unfolding file_create
  file_create-runs absolute cut found absent pos here blocks e there e1 e2 e3 done e4 =
      rw (absolute, cut, found, absent, pos, here, modify_entry, e, there, e1, e2, e3, e4) refl

  -- The same, with the states in between named.
  pub file_create-ends :
      is_absolute path ≡ true
      → parent_and_name (split_path_tokens path) ≡ some (parent_path, basename)
      → HashMap.find inst.path_index parent_path ≡ some parent
      → HashMap.contains inst.path_index path ≡ false
      → (meta_index == 0) ≡ false
      → entry? inst.meta_entries meta_index ≡ some free
      → (blocks : List ℕ) → stored.0 ≡ ok blocks
      → entry? stored.1.meta_entries meta_index ≡ some new_file
      → (before after : FsInstance) → settled blocks ≡ before
      → (persist_meta_entries before).0 ≡ true
      → (persist_bitmap (persist_meta_entries before).1).0 ≡ true
      → (persist_header (persist_bitmap (persist_meta_entries before).1).1).0 ≡ true
      → (persist_header (persist_bitmap (persist_meta_entries before).1).1).1 ≡ after
      → (done : Bool) → (dir_add_child fuel parent meta_index after).0 ≡ ok done
      → let last = (dir_add_child fuel parent meta_index after).1 in
        file_create fuel now (some s) (some path) content inst
        ≡ (ok tt, record last { path_index = (HashMap.insert last.path_index path meta_index).1 })
  file_create-ends absolute cut found absent pos here blocks e there before after same e1 e2 e3
        wrote done e4 =
      let run =
        file_create-runs absolute cut found absent pos here blocks e there (rw same e1) (rw same e2)
          (rw same e3) done (rw (same, wrote) e4) in
      run ∙ rw (same, wrote) refl
