-- ===== src/Server.antt =====
-- The text protocol of source/server/server.cpp: `OFSRequest` and `OFSResponse` of source/server/server.hpp,
-- the lines of a received buffer, `parseArgs`, `make_response_json`.
pub mod Texts
pub mod Commands
pub mod Replies
pub mod Access
pub mod Answers
pub mod Storage
pub mod Listings
pub mod Privilege
pub mod Wire
pub mod Queue
use omni_file_system.Prelude.{
  ℕ, zero, suc, ◌+◌, ◌/◌, ◌%◌, ◌==◌, Bool, true, false, not, ◌&&◌, List, [], ◌∷◌, ◌++◌,
  if◌then◌else◌,
}
use omni_file_system.Prelude.Bytes.{Bytes, codes}

pub record OfsRequest : Type 0 where
  pub cmd : Bytes
  pub args : List Bytes
  pub client_fd : ℕ

pub record OfsResponse : Type 0 where
  pub client_fd : ℕ
  pub json : Bytes

abbrev pub newline : ℕ
newline = 10

abbrev pub space : ℕ
space = 32

abbrev pub quote : ℕ
quote = 34

abbrev pub backslash : ℕ
backslash = 92

-- The variables of `parseArgs`.
pub record Parsing : Type 0 where
  pub in_quotes : Bool
  pub args : List Bytes
  pub buf : Bytes

-- `if(!buf.empty()) { args.push_back(buf); buf.clear(); }`
unfoldable pub push_token : Parsing → Parsing
push_token p = elim p.buf [
  | [] ↦ p
  | c ∷ s ↦ record p { args = p.args ++ ((c ∷ s) ∷ []); buf = [] }
]

-- A round of the loop.
unfoldable pub parse_char : ℕ → Parsing → Parsing
parse_char c p =
    if c == quote
    then record p { in_quotes = not p.in_quotes }
    else if c == space && not p.in_quotes
    then push_token p
    else record p { buf = p.buf ++ (c ∷ []) }

unfoldable pub parse_chars : Bytes → Parsing → Parsing
parse_chars [] p = p
parse_chars (c ∷ line) p = parse_chars line (parse_char c p)

abbrev pub start_parsing : Parsing
start_parsing = record { in_quotes = false; args = []; buf = [] }

unfoldable pub parse_args : Bytes → List Bytes
parse_args line = let p = push_token (parse_chars line start_parsing) in p.args

-- The lines that `getline` gives, without the empty ones, which the caller passes over; `line` is
-- what has been read of the present one.
unfoldable pub split_lines : Bytes → Bytes → List Bytes
split_lines line [] = elim line [ [] ↦ [] | c ∷ s ↦ (c ∷ s) ∷ [] ]
split_lines line (c ∷ s) = elim (c == newline) [
  | false ↦ split_lines (line ++ (c ∷ [])) s
  | true ↦ elim line [ [] ↦ split_lines [] s | d ∷ t ↦ (d ∷ t) ∷ split_lines [] s ]
]

-- One request for each line that has a token.
unfoldable pub requests_of_lines : ℕ → List Bytes → List OfsRequest
requests_of_lines fd [] = []
requests_of_lines fd (line ∷ lines) = elim (parse_args line) [
  | [] ↦ requests_of_lines fd lines
  | cmd ∷ args ↦ record { cmd = cmd; args = args; client_fd = fd } ∷ requests_of_lines fd lines
]

-- What `acceptLoop` pushes for one buffer that `recv` has filled from the client `fd`.
unfoldable pub received : ℕ → Bytes → List OfsRequest
received fd buffer = requests_of_lines fd (split_lines [] buffer)

-- The loop of `make_response_json` over the data.
unfoldable pub escape : Bytes → Bytes
escape [] = []
escape (ch ∷ d) =
    let out = escape d in
    if ch == backslash
    then backslash ∷ backslash ∷ out
    else if ch == quote
    then backslash ∷ quote ∷ out
    else if ch == newline
    then backslash ∷ b'n' ∷ out
    else ch ∷ out

unfoldable pub make_response_json : Bytes → Bytes → Bytes → Bytes → Bytes
make_response_json status op error content =
    let data_part : Bytes = elim content [
      | [] ↦ []
      | c ∷ s ↦ codes ",\"data\":\"" ++ (escape (c ∷ s) ++ (quote ∷ []))
    ] in
    codes "{\"status\":\""
    ++ (status
        ++ (codes "\",\"operation\":\""
            ++ (op
                ++ (codes "\",\"request_id\":\"0\",\"error_message\":\""
                    ++ (error ++ (codes "\"" ++ (data_part ++ codes "}")))))))
