-- ===== src/Server/Storage.antt =====
-- A file by way of the server: `create_file` of one client and `read_file` of another.
use omni_file_system.Prelude.{
  ℕ, suc, ◌-◌, ◌*◌, ◌≤◌, ◌<◌, ◌≡◌, refl, true, false, some, none, if◌then◌else◌, List, [], ◌∷◌,
  length,
}
use omni_file_system.Prelude.Bytes.{Bytes, IsText, codes, eq_bytes}
use omni_file_system.Prelude.Text.{c_str_text}
use omni_file_system.HashMap
use omni_file_system.HashMap.View.{IsValid}
use omni_file_system.Bitmap.Allocation.{count_free}
use omni_file_system.Codec.RoundTrip.{AreBytes}
use omni_file_system.Types.{MetaEntry}
use omni_file_system.Instance.{SessionInfo, ok}
use omni_file_system.Instance.Tables.{AreTables}
use omni_file_system.Directory.{find_free_meta_index, block_size_of}
use omni_file_system.Directory.Words.{IsIndex}
use omni_file_system.Paths.{split_path_tokens, parent_and_name}
use omni_file_system.Files.{is_absolute, blocks_for}
use omni_file_system.Files.Transfer.{IsReady}
use omni_file_system.Files.Placing.{IsDirectory}
use omni_file_system.Files.RoundTrip.{file_read-file_create}
use omni_file_system.Server.{OfsRequest, OfsResponse, make_response_json}
use omni_file_system.Server.Texts.{get_error_message}
use omni_file_system.Server.Commands.{
  Surroundings, ServerState, command_of, session_of, perform, run_command, handle_request,
}
use omni_file_system.Server.Replies.{
  has_special, is_writable, read_response, read_response-make_response_json,
}

abbrev pub create_request : ℕ → Bytes → Bytes → OfsRequest
create_request fd path content = record {
  cmd = codes "create_file";
  args = path ∷ content ∷ [];
  client_fd = fd;
}

abbrev pub read_request : ℕ → Bytes → OfsRequest
read_request fd path = record { cmd = codes "read_file"; args = path ∷ []; client_fd = fd }

module _ (env : Surroundings) (fuel writer reader : ℕ) (s s' : SessionInfo)
    (path parent_path basename content : Bytes) (parent : ℕ) (dir : MetaEntry) (cs : List ℕ)
    (st : ServerState) where
  -- For a server over a ready instance (working device, blocks in the address range, a bit for
  -- every block, a substitution without collisions) whose tables lie below the block region and
  -- whose path index is well formed, two clients with sessions, 2 rounds of fuel at least, and
  -- an absolute path without NUL that is not indexed, whose parent path is indexed to an entry
  -- in use with one allocated block, of 8 bytes at least, that lists children, when a metadata
  -- entry with a 32-bit index is free and the content is not empty, consists of bytes and fits
  -- the free blocks: after `create_file` of the one client, `read_file` of the other is
  -- answered, and a JSON reader over bytes, which refuses control bytes inside a string, reads
  -- status success and exactly the content if the content has no control byte but newlines, and
  -- refuses the response otherwise.
  pub read_file-create_file :
      env.fuel ≡ suc (suc fuel)
      → session_of writer st.client_sessions ≡ some s
      → session_of reader st.client_sessions ≡ some s'
      → IsText path
      → IsReady st.inst
      → AreTables st.inst
      → IsValid st.inst.path_index
      → IsDirectory st.inst parent dir cs
      → is_absolute path ≡ true
      → parent_and_name (split_path_tokens path) ≡ some (parent_path, basename)
      → HashMap.find st.inst.path_index parent_path ≡ some parent
      → HashMap.contains st.inst.path_index path ≡ false
      → IsIndex (find_free_meta_index st.inst)
      → 0 < length content
      → AreBytes content
      → length content ≤ st.inst.num_blocks * (block_size_of st.inst - 4)
      → blocks_for (length content) (block_size_of st.inst - 4)
        ≤ count_free st.inst.num_blocks 0 st.inst.free_bitmap
      → let created = handle_request env (create_request writer path content) st in
        (resp : OfsResponse) × ((handle_request env (read_request reader path) created.1).0
          ≡ ok resp)
        × (resp.client_fd ≡ reader)
        × (read_response resp.json ≡ (
            if is_writable content
            then some (record {
              status = codes "success";
              operation = codes "read_file";
              error_message = codes "Success";
              content = content;
            })
            else none))
  unfolding handle_request run_command perform command_of eq_bytes get_error_message has_special
  read_file-create_file e found found' text ready tables valid d absolute cut indexed absent idx
        some_left bytes fits enough =
      let (done, back) =
        file_read-file_create fuel env.now s s' path parent_path basename content parent dir cs
          st.inst ready tables valid d absolute cut indexed absent idx some_left bytes fits
          enough in
      let plain = c_str_text path text in
      let answer =
        read_response-make_response_json (codes "success") (codes "read_file") (codes "Success")
          content refl refl refl in
      let sent : OfsResponse = record {
        client_fd = reader;
        json = make_response_json (codes "success") (codes "read_file") (codes "Success") content;
      } in
      (sent, rw (found, plain, e, done, found', back) refl, refl, answer)
