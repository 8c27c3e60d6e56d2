-- ===== src/Examples/Wires.antt =====
-- Two clients of a server over the small container: one writes a file, the other reads it.
use omni_file_system.HashMap
use omni_file_system.Prelude.{none, ◌≡◌, refl, some, [], ◌∷◌, arith}
use omni_file_system.Prelude.Bytes.{codes, eq_bytes, c_str}
use omni_file_system.Bitmap.{bitmap_get, bit_of}
use omni_file_system.Bitmap.Allocation.{count_free}
use omni_file_system.Instance.{ok}
use omni_file_system.Files.{blocks_for}
use omni_file_system.Server.{OfsRequest, OfsResponse}
use omni_file_system.Server.Commands.{
  Surroundings, ServerState, handle_request, session_of, command_of,
}
use omni_file_system.Server.Replies.{is_writable, read_response}
use omni_file_system.Server.Listings.{list_request, dir_list_not_json}
use omni_file_system.Types.{MetaEntry}
use omni_file_system.Types.Fields.{field_le}
use omni_file_system.Prelude.Words.{from_le}
use omni_file_system.Stream.{seekg, read, read_at}
use omni_file_system.Directory.{dir_block_read, dir_loop, nonzero, words_of}
use omni_file_system.Files.{lookup_path}
use omni_file_system.Instance.{FsInstance}
use omni_file_system.Metadata.{dir_list, file_entry_of, listed_entries}
use omni_file_system.Examples.Guards.{with_child}
use omni_file_system.Server.Privilege.{IsRefused, handle_request-IsRefused}
use omni_file_system.Server.Storage.{create_request, read_request, read_file-create_file}
use omni_file_system.Examples.Transfers.{
  letter, rooted, rooted-IsValid, rooted-IsReady, rooted-AreTables, rooted-IsDirectory, first_path,
  root_indexed, file_absent, third_free,
}
use omni_file_system.Examples.Instances.{root_entry, root_session, guest_session, weak_hash}

abbrev surroundings : Surroundings
surroundings = record {
  hash = weak_hash;
  session_id = codes "s2";
  now = 9;
  fuel = 2;
  fmt_time = λ t. codes "0";
  stoul = λ s. some 7;
}

abbrev two_clients : ServerState
two_clients = record {
  inst = rooted;
  client_sessions = (4, root_session) ∷ (5, guest_session) ∷ [];
}

read_file-create_file_example :
    let created =
      handle_request surroundings (create_request 4 (codes "/a.txt") letter) two_clients in
    (resp : OfsResponse) × ((handle_request surroundings
        (read_request 5 (codes "/a.txt"))
        created.1).0
      ≡ ok resp)
    × (resp.client_fd ≡ 5)
    × (read_response resp.json
        ≡ some (record {
          status = codes "success";
          operation = codes "read_file";
          error_message = codes "Success";
          content = letter;
        }))
unfolding session_of is_writable
read_file-create_file_example =
    read_file-create_file surroundings 0 4 5 root_session guest_session (codes "/a.txt") (codes "/")
      (codes "a.txt") letter 1 root_entry [] two_clients refl refl refl tt rooted-IsReady
      rooted-AreTables rooted-IsValid rooted-IsDirectory refl first_path root_indexed file_absent
      third_free (omega arith) (omega arith) (omega arith)
      (unfold count_free bitmap_get bit_of blocks_for in omega arith)

abbrev delete_root : OfsRequest
delete_root = record { cmd = codes "delete_user"; args = codes "root" ∷ []; client_fd = 5 }

handle_request-IsRefused_example :
    IsRefused delete_root two_clients (handle_request surroundings delete_root two_clients)
unfolding command_of eq_bytes session_of
handle_request-IsRefused_example =
    handle_request-IsRefused surroundings delete_root two_clients guest_session refl refl refl

abbrev note_entry : MetaEntry
note_entry = record root_entry { type = 0; start_index = 0 }

-- The directory /d with one file.
abbrev listing : FsInstance
listing = record with_child { meta_entries = root_entry ∷ root_entry ∷ note_entry ∷ [] }

abbrev listing_server : ServerState
listing_server = record two_clients { inst = listing }

one_listed : dir_list 2 (some guest_session) (some (codes "/d")) listing ≡ (
  ok (file_entry_of listing.users 3 note_entry ∷ []),
  (dir_list 2 (some guest_session) (some (codes "/d")) listing).1,
)
unfolding dir_list listed_entries lookup_path HashMap.find HashMap.lookup HashMap.insert
    HashMap.overwrite HashMap.new eq_bytes dir_block_read dir_loop seekg read from_le read_at
    nonzero words_of field_le
one_listed = refl

dir_list_not_json_example :
    (resp : OfsResponse) × ((handle_request surroundings
        (list_request 5 (codes "/d"))
        listing_server).0
      ≡ ok resp)
    × (resp.client_fd ≡ 5)
    × (read_response resp.json ≡ none)
unfolding session_of c_str
dir_list_not_json_example =
    dir_list_not_json surroundings 5 (codes "/d") listing_server
      (file_entry_of listing.users 3 note_entry) []
      (dir_list 2 (some guest_session) (some (codes "/d")) listing).1 one_listed
