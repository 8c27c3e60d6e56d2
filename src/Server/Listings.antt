-- ===== src/Server/Listings.antt =====
-- What a client reads of the response to `dir_list` of source/server/server.cpp.
use mathlib.Core.List.{append_assoc}
use omni_file_system.Prelude.{
  ℕ, ◌≡◌, refl, ◌&&◌, ◌==◌, false, none, some, List, [], ◌∷◌, ◌++◌, arith, if◌then◌else◌,
}
use omni_file_system.Prelude.Bytes.{Bytes, codes, c_str, eq_bytes}
use omni_file_system.Types.Reports.{FileEntry}
use omni_file_system.Instance.{FsInstance, ok}
use omni_file_system.Metadata.{dir_list}
use omni_file_system.Server.{OfsRequest, OfsResponse, make_response_json}
use omni_file_system.Server.Texts.{get_error_message, quoted_name, entry_line, entry_lines}
use omni_file_system.Server.Commands.{
  Surroundings, ServerState, command_of, session_of, perform, run_command, handle_request,
}
use omni_file_system.Server.Replies.{
  has_special, is_writable, read_response, read_response-make_response_json,
}

is_writable-append : (s t : Bytes) → is_writable (s ++ t) ≡ (is_writable s && is_writable t)
unfolding is_writable
is_writable-append [] t = refl
is_writable-append (c ∷ s) t = ground (arith, is_writable-append s t)

no_text_behind : (s t : Bytes) → is_writable t ≡ false → is_writable (s ++ t) ≡ false
no_text_behind s t h = ground (arith, is_writable-append s t)

-- A tab follows the name of each entry.
is_writable-entry_lines :
    (e : FileEntry) (es : List FileEntry) → is_writable (entry_lines (e ∷ es)) ≡ false
unfolding entry_lines entry_line is_writable
is_writable-entry_lines e es = simp append_assoc (
    no_text_behind (quoted_name (c_str e.name)) _
      (no_text_behind (if e.type == 1 then codes "/" else []) _ refl))

abbrev pub list_request : ℕ → Bytes → OfsRequest
list_request fd path = record { cmd = codes "dir_list"; args = path ∷ []; client_fd = fd }

-- When `dir_list` of a path gives at least one entry under the session of a client: that
-- client's request `dir_list` of the path gets a response, and a JSON reader over bytes, which
-- refuses control bytes inside a string, refuses it.
pub dir_list_not_json :
    (env : Surroundings) (fd : ℕ) (path : Bytes) (st : ServerState) (e : FileEntry)
    (es : List FileEntry) (inst : FsInstance)
    → dir_list env.fuel (session_of fd st.client_sessions) (some (c_str path)) st.inst
      ≡ (ok (e ∷ es), inst)
    → (resp : OfsResponse) × ((handle_request env (list_request fd path) st).0 ≡ ok resp)
      × (resp.client_fd ≡ fd)
      × (read_response resp.json ≡ none)
unfolding handle_request run_command perform command_of eq_bytes get_error_message has_special
dir_list_not_json env fd path st e es inst listed =
    let text = entry_lines (e ∷ es) in
    let answer =
      read_response-make_response_json (codes "success") (codes "dir_list") (codes "Success") text
        refl refl refl in
    let sent : OfsResponse = record {
      client_fd = fd;
      json = make_response_json (codes "success") (codes "dir_list") (codes "Success") text;
    } in
    (sent, rw listed refl, refl, rw (is_writable-entry_lines e es) at answer)
