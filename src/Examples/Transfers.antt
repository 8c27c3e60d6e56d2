-- ===== src/Examples/Transfers.antt =====
-- Files on the small container.
use omni_file_system.Prelude.{
  refl, false, ℕ, zero, suc, ◌∷◌, [], ◌≡◌, ◌<◌, arith, some, true, get_or, replicate,
}
use omni_file_system.Prelude.Bytes.{Bytes, codes, eq_bytes}
use omni_file_system.Bitmap.{bitmap_get, bit_of, bitmap_set, with_bit, scan_free, allocate_blocks}
use omni_file_system.Bitmap.Allocation.{count_free}
use omni_file_system.Examples.Storage.{shifted, shifted-IsCode}
use omni_file_system.Instance.{FsInstance, ok}
use omni_file_system.Files.{create_blocks, read_content, blocks_for, file_read}
use omni_file_system.Files.Returns.{file_read-returns, returns}
use omni_file_system.Files.Transfer.{IsReady, file_entry, read_content-create_blocks}
use omni_file_system.HashMap
use omni_file_system.HashMap.View.{IsValid, insert-refines, new-refines}
use omni_file_system.Instance.Tables.{AreTables}
use omni_file_system.Directory.{find_free_meta_index}
use omni_file_system.Directory.Words.{IsIndex}
use omni_file_system.Paths.{split_path_tokens, parent_and_name, skip_slashes, cut_token, split_last}
use omni_file_system.Files.{file_create}
use omni_file_system.Files.Placing.{IsDirectory}
use omni_file_system.Files.RoundTrip.{file_read-file_create}
use omni_file_system.Examples.Images.{small_header-IsHeader}
use omni_file_system.Examples.Listings.{fresh-IsMounted, root-Placed, root-Lists}
use omni_file_system.Examples.Instances.{
  root_entry, guest_session, first_byte, fresh, blank-IsSound, root_session,
}

pub one_used_byte : (k : ℕ) → get_or fresh.free_bitmap k 0 < 256
one_used_byte zero = omega arith
one_used_byte (suc zero) = omega arith
one_used_byte (suc (suc k)) = omega arith

-- The small container with a substitution.
abbrev pub coded : FsInstance
coded = record fresh { encoding_map = shifted }

pub coded-IsReady : IsReady coded
coded-IsReady = record {
  sound = blank-IsSound;
  narrow = omega arith;
  region = record {
    room = omega arith;
    narrow = omega arith;
    counted = omega arith;
    fits = omega arith;
  };
  bits = record { byte = one_used_byte };
  marked = omega arith;
  code = shifted-IsCode;
}

-- Content for three blocks.
abbrev pub letter : Bytes
letter = replicate 300 65

read_content-create_blocks_example :
    let r = create_blocks 2 letter coded in
    (r.0 ≡ ok (2 ∷ 3 ∷ 4 ∷ []))
    × ((read_content (file_entry coded 2 letter coded-IsReady (2 ∷ 3 ∷ 4 ∷ [])) r.1).0
        ≡ ok (some letter))
unfolding allocate_blocks blocks_for scan_free read_content bitmap_get bit_of bitmap_set with_bit
read_content-create_blocks_example =
    read_content-create_blocks coded 2 letter coded-IsReady (omega arith) (omega arith)
      (omega arith) (unfold count_free bitmap_get bit_of blocks_for in omega arith)

file_read-returns_example :
    returns (file_read (some root_session) (some (codes "/a.txt")) fresh).0 ≡ true
file_read-returns_example =
    file_read-returns fresh (some root_session) (some (codes "/a.txt")) (omega arith)

-- The index knows the root.
abbrev pub rooted : FsInstance
rooted = record coded { path_index = (HashMap.insert coded.path_index (codes "/") 1).1 }

pub rooted-IsValid : IsValid rooted.path_index
rooted-IsValid =
    (insert-refines coded.path_index (codes "/") 1
      (new-refines {V = ℕ} 3 first_byte (omega arith)).0).0

pub rooted-IsReady : IsReady rooted
rooted-IsReady = record {
  sound = blank-IsSound;
  narrow = omega arith;
  region = coded-IsReady.region;
  bits = record { byte = one_used_byte };
  marked = omega arith;
  code = shifted-IsCode;
}

pub rooted-AreTables : AreTables rooted
rooted-AreTables = record {
  header = small_header-IsHeader;
  header_fits = omega arith;
  arrays = ((refl, refl), ((refl, refl), ((refl, refl), ((refl, refl), tt))));
  some_entries = omega arith;
  metadata_fits = omega arith;
  some_bits = omega arith;
  bitmap_fits = omega arith;
}

pub rooted-IsDirectory : IsDirectory rooted 1 root_entry []
unfolding bitmap_get bit_of
rooted-IsDirectory = record {
  here = refl;
  used = refl;
  room = fresh-IsMounted.room;
  placed = root-Placed;
  within = omega arith;
  taken = refl;
  lists = root-Lists;
}

pub first_path :
    parent_and_name (split_path_tokens (codes "/a.txt")) ≡ some (codes "/", codes "a.txt")
unfolding parent_and_name split_path_tokens skip_slashes cut_token split_last
first_path = refl

pub root_indexed : HashMap.find rooted.path_index (codes "/") ≡ some 1
unfolding HashMap.find HashMap.lookup HashMap.insert HashMap.overwrite HashMap.new eq_bytes
root_indexed = refl

pub file_absent : HashMap.contains rooted.path_index (codes "/a.txt") ≡ false
unfolding HashMap.contains HashMap.lookup HashMap.insert HashMap.overwrite HashMap.new eq_bytes
file_absent = refl

pub third_free : IsIndex (find_free_meta_index rooted)
unfolding find_free_meta_index
third_free = omega arith

file_read-file_create_example :
    let r = file_create 2 5 (some root_session) (some (codes "/a.txt")) letter rooted in
    (r.0 ≡ ok tt) × ((file_read (some guest_session) (some (codes "/a.txt")) r.1).0 ≡ ok letter)
file_read-file_create_example =
    file_read-file_create 0 5 root_session guest_session (codes "/a.txt") (codes "/")
      (codes "a.txt") letter 1 root_entry [] rooted rooted-IsReady rooted-AreTables rooted-IsValid
      rooted-IsDirectory refl first_path root_indexed file_absent third_free (omega arith)
      (omega arith) (omega arith) (unfold count_free bitmap_get bit_of blocks_for in omega arith)
