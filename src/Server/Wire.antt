-- ===== src/Server/Wire.antt =====
-- What the accepting thread of source/server/server.cpp makes of lines that a client has written.
use mathlib.Core.List.{append-nil, append_assoc}
use omni_file_system.Prelude.{
  ℕ, ◌≡◌, ◌∙◌, refl, ap, Bool, true, false, List, [], ◌∷◌, ◌++◌, map, arith, ◌==◌, ◌||◌, ◌&&◌, not,
  if◌then◌else◌, Bool-cases, inl, inr,
}
use omni_file_system.Prelude.Bytes.{Bytes}
use omni_file_system.Prelude.Preds.{All, has, has-append}
use omni_file_system.Server.{
  OfsRequest, Parsing, parse_char, parse_chars, push_token, parse_args, start_parsing, split_lines,
  requests_of_lines, received, newline, space, quote,
}

-- A token of a line, between quotes or not.
pub record Token : Type 0 where
  pub quoted : Bool
  pub text : Bytes

pub record CommandLine : Type 0 where
  pub cmd : Token
  pub args : List Token

abbrev pub write_token : Token → Bytes
write_token t = if t.quoted then quote ∷ (t.text ++ (quote ∷ [])) else t.text

abbrev pub write_args : List Token → Bytes
write_args [] = []
write_args (t ∷ ts) = space ∷ (write_token t ++ write_args ts)

-- The tokens with a space between them.
abbrev pub write_line : CommandLine → Bytes
write_line l = write_token l.cmd ++ write_args l.args

abbrev pub write_lines : List CommandLine → Bytes
write_lines [] = []
write_lines (l ∷ ls) = write_line l ++ (newline ∷ write_lines ls)

abbrev pub texts : List Token → List Bytes
texts [] = []
texts (t ∷ ts) = t.text ∷ texts ts

abbrev pub request_of : ℕ → CommandLine → OfsRequest
request_of fd l = record { cmd = l.cmd.text; args = texts l.args; client_fd = fd }

-- A token has a byte, no quote and no newline, and a space only between quotes.
pub record IsToken (t : Token) : Type 0 where
  pub some_byte : ¬ (t.text ≡ [])
  pub no_quote : has t.text quote ≡ false
  pub no_newline : has t.text newline ≡ false
  pub spaced : (t.quoted || not (has t.text space)) ≡ true

abbrev pub IsLine : CommandLine → Type 0
IsLine l = IsToken l.cmd × All IsToken l.args

parse_chars-append :
    (a b : Bytes) (p : Parsing) → parse_chars (a ++ b) p ≡ parse_chars b (parse_chars a p)
unfolding parse_chars
parse_chars-append [] b p = refl
parse_chars-append (c ∷ a) b p = parse_chars-append a b (parse_char c p)

parse_chars_text :
    (t : Bytes) (q : Bool) (args : List Bytes) (buf : Bytes)
    → has t quote ≡ false
    → (q || not (has t space)) ≡ true
    → parse_chars t (record { in_quotes = q; args = args; buf = buf })
      ≡ record { in_quotes = q; args = args; buf = buf ++ t }
unfolding parse_chars parse_char has
parse_chars_text [] q args buf h k = rw append-nil refl
parse_chars_text (c ∷ t) q args buf h k =
    let plain : (c == quote) ≡ false = ground arith in
    let kept : ((c == space) && not q) ≡ false = ground (arith, k) in
    let h' : has t quote ≡ false = ground (arith, h) in
    let k' : (q || not (has t space)) ≡ true = ground (arith, k) in
    rw (plain, kept, parse_chars_text t q args (buf ++ (c ∷ [])) h' k', append_assoc) refl

parse_chars_quoted :
    (t : Bytes) (args : List Bytes)
    → has t quote ≡ false
    → parse_chars
        (quote ∷ (t ++ (quote ∷ [])))
        (record { in_quotes = false; args = args; buf = [] })
      ≡ record { in_quotes = false; args = args; buf = t }
unfolding parse_chars parse_char
parse_chars_quoted t args h =
    parse_chars-append t (quote ∷ []) (record { in_quotes = true; args = args; buf = [] })
    ∙ ap (parse_chars (quote ∷ [])) (parse_chars_text t true args [] h refl)

-- A token lies in the buffer when it has been read.
parse_chars-write_token :
    (t : Token) (args : List Bytes)
    → IsToken t
    → parse_chars (write_token t) (record { in_quotes = false; args = args; buf = [] })
      ≡ record { in_quotes = false; args = args; buf = t.text }
parse_chars-write_token t args h = elim (Bool-cases t.quoted) [
  | inl quoted ↦ rw quoted (parse_chars_quoted t.text args h.no_quote)
  | inr plain ↦
      let k = (rw plain at h.spaced) in
      rw plain (parse_chars_text t.text false args [] h.no_quote k)
]

parse_chars-space :
    (s t : Bytes) (args : List Bytes)
    → parse_chars (space ∷ s) (record { in_quotes = false; args = args; buf = t })
      ≡ parse_chars s (push_token (record { in_quotes = false; args = args; buf = t }))
unfolding parse_chars parse_char
parse_chars-space s t args = refl

push_token_lem :
    (args : List Bytes) (t : Bytes)
    → ¬ (t ≡ [])
    → push_token (record { in_quotes = false; args = args; buf = t })
      ≡ record { in_quotes = false; args = args ++ (t ∷ []); buf = [] }
unfolding push_token
push_token_lem args [] h = absurd (h refl)
push_token_lem args (c ∷ t) h = refl

parse_chars-write_args :
    (ts : List Token) (args : List Bytes) (t : Bytes)
    → ¬ (t ≡ [])
    → All IsToken ts
    → push_token (parse_chars (write_args ts) (record { in_quotes = false; args = args; buf = t }))
      ≡ record { in_quotes = false; args = args ++ (t ∷ texts ts); buf = [] }
unfolding parse_chars
parse_chars-write_args [] args t h k = push_token_lem args t h
parse_chars-write_args (u ∷ ts) args t h k =
    let pushed : Parsing = record { in_quotes = false; args = args ++ (t ∷ []); buf = [] } in
    let body = write_token u ++ write_args ts in
    ap push_token (
      parse_chars-space body t args
      ∙ ap (parse_chars body) (push_token_lem args t h)
      ∙ parse_chars-append (write_token u) (write_args ts) pushed
      ∙ ap (parse_chars (write_args ts)) (parse_chars-write_token u (args ++ (t ∷ [])) k.0))
    ∙ parse_chars-write_args ts (args ++ (t ∷ [])) u.text k.0.some_byte k.1
    ∙ ap (λ a. record { in_quotes = false; args = a; buf = [] })
        (append_assoc args (t ∷ []) (u.text ∷ texts ts))

parse_args-write_line :
    (l : CommandLine) → IsLine l → parse_args (write_line l) ≡ l.cmd.text ∷ texts l.args
unfolding parse_args
parse_args-write_line l h =
    ap (λ p. p.args)
      (ap push_token (
          parse_chars-append (write_token l.cmd) (write_args l.args) start_parsing
          ∙ ap (parse_chars (write_args l.args)) (parse_chars-write_token l.cmd [] h.0))
        ∙ parse_chars-write_args l.args [] l.cmd.text h.0.some_byte h.1)

some_byte_append : (t s : Bytes) → ¬ (t ≡ []) → ¬ (t ++ s ≡ [])
some_byte_append [] s h e = h refl
some_byte_append (c ∷ t) s h e = cc

no_newline_token : (t : Token) → IsToken t → has (write_token t) newline ≡ false
unfolding has
no_newline_token t h = elim (Bool-cases t.quoted) [
  | inl quoted ↦
      rw quoted (rw (has-append t.text (quote ∷ []) newline) (ground (arith, h.no_newline)))
  | inr plain ↦ rw plain h.no_newline
]

no_newline_args : (ts : List Token) → All IsToken ts → has (write_args ts) newline ≡ false
unfolding has
no_newline_args [] h = refl
no_newline_args (t ∷ ts) h =
    rw
      (
        has-append (write_token t) (write_args ts) newline,
        no_newline_token t h.0,
        no_newline_args ts h.1,
      )
      refl

no_newline_line : (l : CommandLine) → IsLine l → has (write_line l) newline ≡ false
no_newline_line l h =
    rw
      (
        has-append (write_token l.cmd) (write_args l.args) newline,
        no_newline_token l.cmd h.0,
        no_newline_args l.args h.1,
      )
      refl

some_byte_line : (l : CommandLine) → IsLine l → ¬ (write_line l ≡ [])
some_byte_line l h e = elim (Bool-cases l.cmd.quoted) [
  | inl quoted ↦ let k = (rw quoted at e) in cc
  | inr plain ↦ let k = (rw plain at e) in some_byte_append _ _ h.0.some_byte k
]

split_lines_text :
    (t line s : Bytes)
    → has t newline ≡ false
    → split_lines line (t ++ (newline ∷ s)) ≡ split_lines (line ++ t) (newline ∷ s)
unfolding split_lines has
split_lines_text [] line s h = rw append-nil refl
split_lines_text (c ∷ t) line s h =
    let other : (c == newline) ≡ false = ground arith in
    let h' : has t newline ≡ false = ground (arith, h) in
    rw (split_lines, other, split_lines_text t (line ++ (c ∷ [])) s h', append_assoc) refl

split_lines_full :
    (line s : Bytes) → ¬ (line ≡ []) → split_lines line (newline ∷ s) ≡ line ∷ split_lines [] s
unfolding split_lines
split_lines_full [] s h = absurd (h refl)
split_lines_full (c ∷ line) s h = refl

-- When a client writes lines of tokens, each with a byte at least, without quote and newline,
-- and put between quotes where it holds a space, with a space between tokens and a newline
-- behind each line, and one buffer receives them: the accepting thread makes exactly these
-- requests of it, in order, each with its first token as the command and the others as
-- arguments.
pub received-write_lines :
    (fd : ℕ) (ls : List CommandLine)
    → All IsLine ls
    → received fd (write_lines ls) ≡ map (request_of fd) ls
unfolding received split_lines requests_of_lines
received-write_lines fd [] h = refl
received-write_lines fd (l ∷ ls) h =
    let cut =
      split_lines_text (write_line l) [] (write_lines ls) (no_newline_line l h.0)
      ∙ split_lines_full (write_line l) (write_lines ls) (some_byte_line l h.0) in
    rw (cut, requests_of_lines, parse_args-write_line l h.0)
      (ap (λ t. request_of fd l ∷ t) (received-write_lines fd ls h.1))
