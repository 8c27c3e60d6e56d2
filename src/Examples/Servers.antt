-- ===== src/Examples/Servers.antt =====
-- The server at work on the small container.
use omni_file_system.Prelude.{
  ℕ, ◌≡◌, ◌*◌, ◌+◌, ◌↔◌, ◌≤◌, ◌<◌, refl, true, false, some, none, [], ◌∷◌, length, arith,
  if◌then◌else◌,
}
use omni_file_system.Prelude.Bytes.{codes, eq_bytes, c_str}
use omni_file_system.Prelude.Preds.{All, has}
use omni_file_system.Bitmap.{allocate_blocks}
use omni_file_system.Instance.{ok}
use omni_file_system.Users.{user_list, active_users}
use omni_file_system.Metadata.{get_stats, stats_of}
use omni_file_system.Metadata.Space.{get_stats-allocate_blocks}
use omni_file_system.Server.{OfsRequest, OfsResponse, make_response_json, received}
use omni_file_system.Server.Texts.{get_error_message, user_lines}
use omni_file_system.Server.Commands.{
  Surroundings, ServerState, handle_request, command_of, run_command, perform, session_of, Reply,
  list_users,
}
use omni_file_system.Server.Wire.{CommandLine, IsToken, received-write_lines}
use omni_file_system.Server.Replies.{has_special, is_writable, read_response}
use omni_file_system.Server.Answers.{handle_request_answered, answer_of}
use omni_file_system.Server.Access.{handle_request-IsDenied, IsDenied}
use omni_file_system.Server.Queue.{
  Pool, testing, popping, handling, ended, started, Run, rest, then_run, arrive, enter, take, halt,
  accept_end, pushed, popped, silent,
}
use omni_file_system.Server.Queue.Order.{Run-order}
use omni_file_system.Server.Queue.Stop.{stop_never_ends}
use omni_file_system.Examples.Transfers.{one_used_byte}
use omni_file_system.Examples.Instances.{fresh, root_user, root_session, weak_hash}

abbrev surroundings : Surroundings
surroundings = record {
  hash = weak_hash;
  session_id = codes "s2";
  now = 9;
  fuel = 3;
  fmt_time = λ t. codes "0";
  stoul = λ s. some 7;
}

-- Client 4 has a session.
abbrev server : ServerState
server = record { inst = fresh; client_sessions = (4, root_session) ∷ [] }

abbrev make_note : CommandLine
make_note = record {
  cmd = record { quoted = false; text = codes "create_file" };
  args =
      record { quoted = false; text = codes "/a" }
      ∷ record { quoted = true; text = codes "b c" }
      ∷ [];
}

make_note-IsToken : IsToken make_note.cmd × All IsToken make_note.args
make_note-IsToken = (
  record {
    some_byte = λ e. cc;
    no_quote = unfold has in refl;
    no_newline = unfold has in refl;
    spaced = unfold has in refl;
  },
  (
    record {
      some_byte = λ e. cc;
      no_quote = unfold has in refl;
      no_newline = unfold has in refl;
      spaced = unfold has in refl;
    },
    (
      record {
        some_byte = λ e. cc;
        no_quote = unfold has in refl;
        no_newline = unfold has in refl;
        spaced = unfold has in refl;
      },
      tt,
    ),
  ),
)

abbrev create_note : OfsRequest
create_note = record {
  cmd = codes "create_file";
  args = codes "/a" ∷ codes "b c" ∷ [];
  client_fd = 4;
}

received-write_lines_example : received 4 (codes "create_file /a \"b c\"\n") ≡ create_note ∷ []
received-write_lines_example = received-write_lines 4 (make_note ∷ []) (make_note-IsToken, tt)

abbrev list_all : OfsRequest
list_all = record { cmd = codes "list_users"; args = []; client_fd = 4 }

-- The server with one user.
abbrev one_user : ServerState
one_user = record server { inst = record fresh { users = root_user ∷ [] } }

abbrev user_listing : OfsResponse
user_listing = record {
  client_fd = 4;
  json =
      make_response_json (codes "success") (codes "list_users") (codes "Success")
        (codes "root (admin)\n");
}

handle_request_answered_example :
    (reply : Reply) × ((run_command surroundings 4 (some root_session) [] list_users one_user).0
      ≡ ok reply)
    × (user_listing.client_fd ≡ list_all.client_fd)
    × (read_response user_listing.json
        ≡ (if is_writable reply.content then some (answer_of list_all reply) else none))
unfolding command_of eq_bytes session_of run_command perform user_list get_error_message user_lines
    active_users c_str
handle_request_answered_example =
    handle_request_answered surroundings list_all one_user user_listing (unfold has_special in refl)
      (unfold handle_request in refl)

-- The same request from a client without a session.
handle_request-IsDenied_example :
    IsDenied
      (record list_all { client_fd = 5 })
      (command_of (codes "list_users") 0)
      server
      (handle_request surroundings (record list_all { client_fd = 5 }) server)
unfolding command_of eq_bytes session_of
handle_request-IsDenied_example =
    handle_request-IsDenied surroundings (record list_all { client_fd = 5 }) server refl refl

abbrev first_request : OfsRequest
first_request = create_note

abbrev second_request : OfsRequest
second_request = list_all

-- Two requests arrive and one worker takes the first.
abbrev two_arrived : Pool
two_arrived = record started { queue = first_request ∷ second_request ∷ [] }

abbrev one_entered : Pool
one_entered = record two_arrived { workers = popping ∷ testing ∷ testing ∷ testing ∷ [] }

abbrev one_taken : Pool
one_taken = record started {
  queue = second_request ∷ [];
  workers = handling first_request ∷ testing ∷ testing ∷ testing ∷ [];
}

two_arrive : Run started (first_request ∷ second_request ∷ []) (first_request ∷ []) one_taken
two_arrive = then_run (pushed first_request) (arrive started first_request refl) (
    then_run (pushed second_request)
      (arrive (record started { queue = first_request ∷ [] }) second_request refl)
      (then_run silent (enter two_arrived 0 refl refl) (
        then_run (popped first_request)
          (take one_entered 0 first_request (second_request ∷ []) refl refl) (rest one_taken))))

Run-order_example : first_request ∷ second_request ∷ [] ≡ first_request ∷ second_request ∷ []
Run-order_example = Run-order two_arrive

-- A worker has entered `pop` before the server stops.
abbrev waiting : Pool
waiting = record started { workers = popping ∷ testing ∷ testing ∷ testing ∷ [] }

abbrev stopped : Pool
stopped = record waiting { running = false; accepting = false }

-- This state is one that the server comes to.
stopped_reached : Run started [] [] stopped
stopped_reached = then_run silent (enter started 0 refl refl) (
    then_run silent (halt waiting)
      (then_run silent (accept_end (record waiting { running = false }) refl) (rest stopped)))

stop_never_ends_example : ¬ (All (λ w. w ≡ ended) stopped.workers)
stop_never_ends_example =
    stop_never_ends 0 stopped stopped [] []
      (record { halted = refl; unfed = refl; drained = refl; waits = refl }) (rest stopped)

get_stats-allocate_blocks_example :
    let stats = stats_of fresh in
    (get_stats (some root_session) fresh ≡ (ok stats, fresh))
    × (stats.used_space + stats.free_space ≡ fresh.num_blocks * fresh.header.block_size)
    × ((n : ℕ)
        → 0 < n
        → (length (allocate_blocks fresh.num_blocks n fresh.free_bitmap).0 ≡ n)
          ↔ (n * fresh.header.block_size ≤ stats.free_space))
get_stats-allocate_blocks_example =
    get_stats-allocate_blocks root_session fresh (record { byte = one_used_byte }) (omega arith)
      (omega arith) (omega arith)
