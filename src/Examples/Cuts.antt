-- ===== src/Examples/Cuts.antt =====
-- A file of three blocks on the small container, cut to two.
use omni_file_system.Prelude.{
  refl, ℕ, zero, suc, ◌∷◌, [], ◌≡◌, ◌<◌, arith, some, take, drop, get_or,
}
use omni_file_system.Prelude.Bytes.{codes, eq_bytes}
use omni_file_system.Prelude.Preds.{has}
use omni_file_system.Bitmap.{
  free_blocks, bitmap_get, bit_of, bitmap_set, with_bit, scan_free, allocate_blocks,
}
use omni_file_system.Bitmap.Allocation.{count_free}
use omni_file_system.HashMap
use omni_file_system.Types.{MetaEntry, new_meta_entry}
use omni_file_system.Instance.{FsInstance, ok}
use omni_file_system.Instance.Tables.{AreTables}
use omni_file_system.Files.{create_blocks, blocks_for, file_read}
use omni_file_system.Files.Truncate.{file_truncate}
use omni_file_system.Files.Transfer.{IsReady, Created, file_entry, create_blocks-Created}
use omni_file_system.Files.Truncation.{IsFile, file_read-file_truncate}
use omni_file_system.Examples.Storage.{shifted-IsCode}
use omni_file_system.Examples.Images.{small_header-IsHeader}
use omni_file_system.Examples.Transfers.{coded, coded-IsReady, letter}
use omni_file_system.Examples.Instances.{root_entry, guest_session, root_session}

letter_stored : Created coded 2 letter coded-IsReady (create_blocks 2 letter coded)
letter_stored =
    create_blocks-Created coded 2 letter coded-IsReady (omega arith) (omega arith)
      (unfold count_free bitmap_get bit_of blocks_for in omega arith)

abbrev letter_entry : MetaEntry
letter_entry = file_entry coded 2 letter coded-IsReady (2 ∷ 3 ∷ 4 ∷ [])

-- The container with the letter in blocks 2 to 4, indexed under `/l`.
abbrev lettered : FsInstance
lettered = record coded {
  file = (create_blocks 2 letter coded).1.file;
  free_bitmap = 15 ∷ 0 ∷ [];
  meta_entries = root_entry ∷ letter_entry ∷ new_meta_entry ∷ new_meta_entry ∷ [];
  path_index = (HashMap.insert coded.path_index (codes "/l") 2).1;
}

four_used_byte : (k : ℕ) → get_or lettered.free_bitmap k 0 < 256
four_used_byte zero = omega arith
four_used_byte (suc zero) = omega arith
four_used_byte (suc (suc k)) = omega arith

lettered-IsReady : IsReady lettered
lettered-IsReady = record {
  sound = letter_stored.stores.sound;
  narrow = omega arith;
  region = coded-IsReady.region;
  bits = record { byte = four_used_byte };
  marked = omega arith;
  code = shifted-IsCode;
}

lettered-AreTables : AreTables lettered
lettered-AreTables = record {
  header = small_header-IsHeader;
  header_fits = omega arith;
  arrays = ((refl, refl), ((refl, refl), ((refl, refl), ((refl, refl), tt))));
  some_entries = omega arith;
  metadata_fits = omega arith;
  some_bits = omega arith;
  bitmap_fits = omega arith;
}

letter-IsFile : IsFile lettered lettered-IsReady (codes "/l") 2 letter_entry (2 ∷ 3 ∷ 4 ∷ []) letter
unfolding HashMap.find HashMap.lookup HashMap.insert HashMap.overwrite HashMap.new eq_bytes
    allocate_blocks blocks_for scan_free bitmap_get bit_of bitmap_set with_bit has
letter-IsFile = record {
  found = refl;
  here = refl;
  used = refl;
  file = refl;
  starts = refl;
  holds = letter_stored.stores.holds;
  distinct = (refl, (refl, (refl, tt)));
  counted = omega arith;
}

file_read-file_truncate_example :
    let r = file_truncate 7 (some root_session) (some (codes "/l")) 130 lettered in
    (r.0 ≡ ok tt)
    × ((file_read (some guest_session) (some (codes "/l")) r.1).0 ≡ ok (take 130 letter))
    × (r.1.free_bitmap ≡ free_blocks 16 (drop (blocks_for 130 124) (2 ∷ 3 ∷ 4 ∷ [])) (15 ∷ 0 ∷ []))
file_read-file_truncate_example =
    file_read-file_truncate 7 root_session guest_session (codes "/l") 2 130 letter_entry letter
      lettered lettered-IsReady (2 ∷ 3 ∷ 4 ∷ []) lettered-AreTables letter-IsFile (omega arith)
      (omega arith) (omega arith) (omega arith) (unfold blocks_for in omega arith)
