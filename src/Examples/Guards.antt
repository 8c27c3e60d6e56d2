-- ===== src/Examples/Guards.antt =====
-- Directories on the small container.
use omni_file_system.Prelude.{◌≡◌, refl, arith, some, false, [], ◌∷◌, ◌==◌, if◌then◌else◌}
use omni_file_system.Prelude.Bytes.{codes, eq_bytes}
use omni_file_system.Prelude.Words.{to_le}
use omni_file_system.HashMap
use omni_file_system.Stream.{Fstream, read_at}
use omni_file_system.Stream.Laws.{SameFile}
use omni_file_system.Types.{error_directory_not_empty}
use omni_file_system.Instance.{FsInstance, ok, err}
use omni_file_system.Prelude.{take, true}
use omni_file_system.Prelude.Preds.{has}
use omni_file_system.Directory.{words_image, dir_add_child, dir_remove_child, dir_block_read}
use omni_file_system.Directory.Listing.{
  without, dir_block_read-dir_add_child, dir_block_read-dir_remove_child,
}
use omni_file_system.Directory.Block.{Lists}
use omni_file_system.Directory.Listing.{IsMounted}
use omni_file_system.Files.{file_exists, lookup_path, entry_in_range}
use omni_file_system.Directories.{dir_delete, dir_exists}
use omni_file_system.Directories.Guards.{dir_delete-Lists, file_exists-dir_exists}
use omni_file_system.Examples.Instances.{fresh, blank, root_entry, root_session}
use omni_file_system.Examples.Listings.{root-Placed}

-- Block 1 lists entry 3.
abbrev pub listing_file : Fstream
listing_file = record blank { byte = λ q. if q == 1190 then 3 else 0 }

-- The directory under the path /d.
abbrev pub with_child : FsInstance
with_child = record fresh {
  file = listing_file;
  path_index = (HashMap.insert fresh.path_index (codes "/d") 1).1;
}

with_child-IsMounted : IsMounted with_child
with_child-IsMounted = record {
  sound = record { is_good_state = refl; reliable = λ n. refl };
  room = omega arith;
}

child-Lists : Lists root-Placed with_child-IsMounted.room with_child.file (3 ∷ [])
unfolding to_le
child-Lists = record {
  indices = omega arith;
  fit = omega arith;
  inside = omega arith;
  image = unfold read_at words_image in refl;
}

dir_block_read-dir_add_child_example :
    let r = dir_add_child 2 1 2 with_child in
    (r.0 ≡ ok true) × ((dir_block_read 2 root_entry r.1).0 ≡ ok (some (take 31 (3 ∷ 2 ∷ []))))
dir_block_read-dir_add_child_example =
    dir_block_read-dir_add_child 0 with_child with_child-IsMounted root_entry 1 root-Placed refl
      (3 ∷ []) child-Lists 1 2 refl (omega arith)

dir_block_read-dir_remove_child_example :
    let r = dir_remove_child 2 1 3 with_child in
    (r.0 ≡ ok (has (3 ∷ []) 3))
    × ((dir_block_read 2 root_entry r.1).0 ≡ ok (some (without 3 (3 ∷ []))))
dir_block_read-dir_remove_child_example =
    dir_block_read-dir_remove_child 0 with_child with_child-IsMounted root_entry 1 root-Placed refl
      (3 ∷ []) child-Lists 1 3 refl

directory_indexed : HashMap.find with_child.path_index (codes "/d") ≡ some 1
unfolding HashMap.find HashMap.lookup HashMap.insert HashMap.overwrite HashMap.new eq_bytes
directory_indexed = refl

no_path : eq_bytes (codes "/d") [] ≡ false
unfolding eq_bytes
no_path = refl

no_root : eq_bytes (codes "/d") (codes "/") ≡ false
unfolding eq_bytes
no_root = refl

dir_delete-Lists_example :
    let r = dir_delete 2 (some root_session) (some (codes "/d")) with_child in
    (r.0 ≡ err error_directory_not_empty)
    × SameFile with_child.file r.1.file
    × (r.1 ≡ record with_child { file = r.1.file })
dir_delete-Lists_example =
    dir_delete-Lists 0 root_session (codes "/d") 1 with_child with_child-IsMounted root_entry
      root-Placed 3 [] no_path no_root directory_indexed refl refl child-Lists

-- The same entry as a file.
abbrev with_file_entry : FsInstance
with_file_entry = record with_child { meta_entries = record root_entry { type = 0 } ∷ [] }

there_is_a_file : (file_exists (some root_session) (some (codes "/d")) with_file_entry).0 ≡ ok tt
unfolding file_exists lookup_path HashMap.find HashMap.lookup HashMap.insert HashMap.overwrite
    HashMap.new eq_bytes entry_in_range
there_is_a_file = refl

file_exists-dir_exists_example :
    ¬ ((dir_exists (some root_session) (some (codes "/d")) with_file_entry).0 ≡ ok tt)
file_exists-dir_exists_example =
    file_exists-dir_exists (some root_session) (some (codes "/d")) with_file_entry there_is_a_file
