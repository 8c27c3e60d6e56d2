-- ===== src/Examples/Restarts.antt =====
-- The small container over a restart.
use omni_file_system.HashMap
use omni_file_system.HashMap.View.{new-refines}
use omni_file_system.Users.Accounts.{IsConsistent, AreIndexed-added}
use omni_file_system.Paths.{rebuild_path_index}
use omni_file_system.Paths.Index.{find-rebuild_path_index}
use omni_file_system.Mount.Found.{IsUpToDate, find-fs_init, long_path_not_found}
use omni_file_system.Prelude.Preds.{has}
use omni_file_system.Prelude.{ℕ, ◌≡◌, refl, false, some, none, ◌∷◌, [], replicate, arith}
use omni_file_system.Prelude.Bytes.{Bytes, codes, eq_bytes, c_str}
use omni_file_system.Types.{new_meta_entry, no_user, role_of, get_name}
use omni_file_system.Types.Images.{IsUser, IsMeta}
use omni_file_system.Stream.{Fstream}
use omni_file_system.Config.{
  default_config, load, load_lines, load_line, load_entry, lines_of, cut_equals, trim_front,
  trim_back, unquoted, first_byte?, last_byte?,
}
use omni_file_system.Instance.{FsInstance, ok}
use omni_file_system.Instance.Frame.{KeepsRegion}
use omni_file_system.Mount.{Host, reopened, fs_shutdown, fs_init}
use omni_file_system.Mount.Saved.{IsSaved}
use omni_file_system.Mount.Restart.{restarted, fs_init-fs_shutdown}
use omni_file_system.Examples.Images.{small_header-IsHeader, root_user-IsUser}
use omni_file_system.Examples.Accounts.{fresh-IsConsistent}
use omni_file_system.Examples.Instances.{
  fresh, blank, blank-IsSound, root_entry, root_user, first_byte,
}

abbrev host : Host
host = record {
  creates = false;
  opens = false;
  refuses = λ n. false;
  now = 5;
  hash = first_byte;
  stoull = λ s. none;
  stoul = λ s. none;
}

-- The small container with as many blocks as `fs_init` counts.
abbrev mounted : FsInstance
mounted = record fresh { num_blocks = 772; free_bitmap = 1 ∷ replicate 96 0; blocks_offset = 1281 }

no_user-IsUser : IsUser no_user
unfolding role_of
no_user-IsUser = record {
  username = refl;
  password_hash = refl;
  role = omega arith;
  named = refl;
  created_time = omega arith;
  last_login = omega arith;
  is_active = omega arith;
  reserved = refl;
}

new_meta_entry-IsMeta : IsMeta new_meta_entry
new_meta_entry-IsMeta = record {
  valid = omega arith;
  type = omega arith;
  parent = omega arith;
  name = refl;
  start_index = omega arith;
  total_size = omega arith;
  owner_id = omega arith;
  permissions = omega arith;
  created_time = omega arith;
  modified_time = omega arith;
  reserved = refl;
}

root_entry-IsMeta : IsMeta root_entry
root_entry-IsMeta = record {
  valid = omega arith;
  type = omega arith;
  parent = omega arith;
  name = refl;
  start_index = omega arith;
  total_size = omega arith;
  owner_id = omega arith;
  permissions = omega arith;
  created_time = omega arith;
  modified_time = omega arith;
  reserved = refl;
}

mounted-IsSaved : IsSaved mounted
mounted-IsSaved =
    let m = new_meta_entry-IsMeta in
    let u = no_user-IsUser in
    record {
      sound = blank-IsSound;
      header = small_header-IsHeader;
      magic = refl;
      users = (u, (u, (u, tt)));
      entries = (root_entry-IsMeta, (m, (m, (m, tt))));
      some_users = omega arith;
      some_entries = omega arith;
      some_bits = omega arith;
      max_users = refl;
      max_files = refl;
      metadata_offset = refl;
      bitmap_offset = refl;
      users_after = omega arith;
      entries_after = omega arith;
      bitmap_after = refl;
      bits = refl;
      blocks_offset = refl;
      narrow = omega arith;
      block_size = omega arith;
      fits = omega arith;
      num_blocks = refl;
      some_blocks = omega arith;
      counted = omega arith;
      encoding_map = refl;
      private_key = refl;
      some_index = omega arith;
      next_meta_index = omega arith;
    }

-- The container with one user, root, and an index of paths as its entries have them.
abbrev in_use : FsInstance
in_use = record mounted {
  users = root_user ∷ no_user ∷ no_user ∷ [];
  user_index = (HashMap.insert fresh.user_index (codes "root") 0).1;
  path_index = (rebuild_path_index fresh).path_index;
}

root_absent : HashMap.find fresh.user_index (codes "root") ≡ none
unfolding HashMap.find HashMap.lookup HashMap.new
root_absent = refl

in_use-IsConsistent : IsConsistent in_use
in_use-IsConsistent =
    AreIndexed-added fresh-IsConsistent 0 (codes "root") root_user no_user refl refl
      (λ e. absurd (omega arith)) (unfold c_str in refl) root_absent

in_use-IsUpToDate : IsUpToDate in_use
in_use-IsUpToDate p =
    find-rebuild_path_index fresh p (new-refines {V = ℕ} 3 first_byte (omega arith)).0

in_use-IsSaved : IsSaved in_use
in_use-IsSaved =
    let u = no_user-IsUser in
    let s = mounted-IsSaved in
    record {
      sound = s.sound;
      header = s.header;
      magic = s.magic;
      users = (root_user-IsUser, (u, (u, tt)));
      entries = s.entries;
      some_users = s.some_users;
      some_entries = s.some_entries;
      some_bits = s.some_bits;
      max_users = s.max_users;
      max_files = s.max_files;
      metadata_offset = s.metadata_offset;
      bitmap_offset = s.bitmap_offset;
      users_after = s.users_after;
      entries_after = s.entries_after;
      bitmap_after = s.bitmap_after;
      bits = s.bits;
      blocks_offset = s.blocks_offset;
      narrow = s.narrow;
      block_size = s.block_size;
      fits = s.fits;
      num_blocks = s.num_blocks;
      some_blocks = s.some_blocks;
      counted = s.counted;
      encoding_map = s.encoding_map;
      private_key = s.private_key;
      some_index = s.some_index;
      next_meta_index = s.next_meta_index;
    }

find-fs_init_example :
    (back : FsInstance) × (fs_init host 0 none (some (reopened host (fs_shutdown in_use)))
      ≡ ok back)
    × (back.users ≡ in_use.users)
    × (back.meta_entries ≡ in_use.meta_entries)
    × (back.free_bitmap ≡ in_use.free_bitmap)
    × (back.encoding_map ≡ in_use.encoding_map)
    × (back.next_meta_index ≡ in_use.next_meta_index)
    × ((name : Bytes) → HashMap.find back.user_index name ≡ HashMap.find in_use.user_index name)
    × ((p : Bytes) → HashMap.find back.path_index p ≡ HashMap.find in_use.path_index p)
    × KeepsRegion 1281 blank back.file
find-fs_init_example =
    find-fs_init host in_use in_use-IsSaved root_entry
      (new_meta_entry ∷ new_meta_entry ∷ new_meta_entry ∷ []) refl refl refl 0 none (λ n. refl)
      in_use-IsConsistent in_use-IsUpToDate

long_path_not_found_example :
    (back : FsInstance) × (fs_init host 0 none (some (reopened host (fs_shutdown in_use)))
      ≡ ok back)
    × (HashMap.find back.path_index (codes "/document.txt") ≡ none)
unfolding get_name c_str has
long_path_not_found_example =
    long_path_not_found host in_use in_use-IsSaved root_entry
      (new_meta_entry ∷ new_meta_entry ∷ new_meta_entry ∷ []) refl refl refl 0 none (codes "/")
      (codes "document.txt") [] (λ n. refl)
      (omega arith, (omega arith, (omega arith, (omega arith, tt)))) refl (omega arith)

fs_init-fs_shutdown_example :
    (f : Fstream) × (fs_init host 0 none (some (reopened host (fs_shutdown mounted)))
      ≡ ok (restarted host mounted f))
    × KeepsRegion 1281 blank f
fs_init-fs_shutdown_example =
    fs_init-fs_shutdown host mounted mounted-IsSaved root_entry
      (new_meta_entry ∷ new_meta_entry ∷ new_meta_entry ∷ []) refl refl refl 0 none (λ n. refl)

-- Seven for every number.
load_example :
    load
      (λ s. some 7)
      (λ s. some 7)
      (some (codes "# size\n max_users = 7 \nadmin_username = \"root\"\nadmin_password=x=y\n"))
    ≡ some (record default_config {
      sizes = record default_config.sizes { max_users = 7 };
      admin_username = codes "root";
      admin_password = codes "x=y";
    })
unfolding load load_lines load_line load_entry lines_of cut_equals trim_front trim_back unquoted
    first_byte? last_byte? eq_bytes
load_example = refl
