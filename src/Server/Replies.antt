-- ===== src/Server/Replies.antt =====
-- What a client can read out of a response of source/server/server.cpp: a reader of JSON objects with the
-- fields that `make_response_json` writes, over bytes. Bytes from 128 on are taken as they are; whether
-- they are UTF-8 is left to who decodes them.
use mathlib.Core.List.{append_assoc}
use omni_file_system.Prelude.{
  ℕ, ◌≡◌, refl, Bool, true, false, Bool-cases, inl, inr, Option, none, some, [], ◌∷◌, ◌++◌, arith,
  ◌==◌, ◌||◌, ◌&&◌, not, ltb, if◌then◌else◌,
}
use omni_file_system.Prelude.Bytes.{Bytes, codes, eq_bytes}
use omni_file_system.Server.{escape, make_response_json, newline, quote, backslash}

abbrev pub prepend : ℕ → Option (Bytes × Bytes) → Option (Bytes × Bytes)
prepend c none = none
prepend c (some (s, rest)) = some (c ∷ s, rest)

-- The byte that a backslash and the byte `c` stand for; `\u` with its digits is left out.
unfoldable pub unescape : ℕ → Option ℕ
unescape c =
    if c == quote || c == backslash || c == b'/'
    then some c
    else if c == b'n'
    then some newline
    else if c == b't'
    then some 9
    else if c == b'r'
    then some 13
    else if c == b'b'
    then some 8
    else if c == b'f'
    then some 12
    else none

-- A byte that a JSON string holds only behind a backslash.
abbrev pub is_control : ℕ → Bool
is_control c = ltb c 32

-- A string of JSON up to its closing quote, and what follows; the flag tells that a backslash came
-- last. A control byte, and a backslash before a byte that it does not escape, is refused.
unfoldable pub read_string : Bool → Bytes → Option (Bytes × Bytes)
read_string escaped [] = none
read_string true (c ∷ s) =
    let more = read_string false s in elim (unescape c) [ some d ↦ prepend d more | none ↦ none ]
read_string false (c ∷ s) =
    let more = read_string false s in
    let next = read_string true s in
    if c == quote
    then some ([], s)
    else if c == backslash
    then next
    else if is_control c
    then none
    else prepend c more

unfoldable pub expect : Bytes → Bytes → Option Bytes
expect [] s = some s
expect (a ∷ as') [] = none
expect (a ∷ as') (b ∷ s) = let more = expect as' s in if a == b then more else none

infixl 5 ◌>>=?◌
abbrev pub ◌>>=?◌ : {A B : Type 0} → Option A → (A → Option B) → Option B
none >>=? f = none
some a >>=? f = f a

-- A field behind its label, which ends with the opening quote.
unfoldable pub read_field : Bytes → Bytes → Option (Bytes × Bytes)
read_field label s = expect label s >>=? λ rest. read_string false rest

-- The data, or no bytes where the object ends; behind the object there is nothing.
unfoldable pub read_data : Bytes → Option Bytes
read_data s =
    if eq_bytes s (codes "}")
    then some []
    else read_field (codes ",\"data\":\"") s >>=? λ field.
        if eq_bytes field.1 (codes "}") then some field.0 else none

pub record Answer : Type 0 where
  pub status : Bytes
  pub operation : Bytes
  pub error_message : Bytes
  pub content : Bytes

unfoldable pub read_response : Bytes → Option Answer
read_response s = read_field (codes "{\"status\":\"") s >>=? λ status.
    read_field (codes ",\"operation\":\"") status.1 >>=? λ op.
    read_field (codes ",\"request_id\":\"") op.1 >>=? λ id.
    read_field (codes ",\"error_message\":\"") id.1 >>=? λ error. read_data error.1 >>=? λ content.
    some
      (record { status = status.0; operation = op.0; error_message = error.0; content = content })

-- A byte that a JSON string does not hold as it is.
unfoldable pub has_special : Bytes → Bool
has_special [] = false
has_special (c ∷ s) = c == quote || c == backslash || is_control c || has_special s

-- No quote, no backslash and no control byte.
abbrev pub IsPlain : Bytes → Type 0
IsPlain s = has_special s ≡ false

-- No control byte but newlines, the one that `make_response_json` escapes.
unfoldable pub is_writable : Bytes → Bool
is_writable [] = true
is_writable (c ∷ s) = (c == newline || not (is_control c)) && is_writable s

read_string_plain :
    (s rest : Bytes) → IsPlain s → read_string false (s ++ (quote ∷ rest)) ≡ some (s, rest)
unfolding read_string has_special
read_string_plain [] rest h = refl
read_string_plain (c ∷ s) rest h =
    let a : (c == quote) ≡ false = ground (arith, h) in
    let b : (c == backslash) ≡ false = ground (arith, h) in
    let d : is_control c ≡ false = ground (arith, h) in
    let h' : IsPlain s = ground (arith, h) in
    rw (read_string, a, b, d, read_string_plain s rest h') refl

prepend-if :
    (b : Bool) (c : ℕ) (s rest : Bytes)
    → prepend c (if b then some (s, rest) else none) ≡ (if b then some (c ∷ s, rest) else none)
prepend-if true c s rest = refl
prepend-if false c s rest = refl

-- The reader gets back exactly the strings without other control bytes.
read_string-escape :
    (s rest : Bytes)
    → read_string false (escape s ++ (quote ∷ rest))
      ≡ (if is_writable s then some (s, rest) else none)
unfolding read_string escape is_writable unescape
read_string-escape [] rest = refl
read_string-escape (c ∷ s) rest =
    let back = read_string-escape s rest in
    let step = prepend-if (is_writable s) c s rest in
    elim (Bool-cases (c == backslash)) [
      | inl slash ↦
          let e : c ≡ backslash = ground (arith, slash) in
          rw (e, back) (prepend-if (is_writable s) backslash s rest)
      | inr a ↦ elim (Bool-cases (c == quote)) [
        | inl quoted ↦
            let e : c ≡ quote = ground (arith, quoted) in
            rw (e, back) (prepend-if (is_writable s) quote s rest)
        | inr b ↦ elim (Bool-cases (c == newline)) [
          | inl line ↦
              let e : c ≡ newline = ground (arith, line) in
              rw (e, back) (prepend-if (is_writable s) newline s rest)
          | inr d ↦ elim (Bool-cases (is_control c)) [
            | inl control ↦ rw (escape, a, b, d, read_string, a, b, control) refl
            | inr free ↦ rw (escape, a, b, d, read_string, a, b, free, back) step
          ]
        ]
      ]
    ]

pub read_response-make_response_json :
    (status op error content : Bytes)
    → IsPlain status
    → IsPlain op
    → IsPlain error
    → read_response (make_response_json status op error content) ≡ (
        if is_writable content
        then some
            (record { status = status; operation = op; error_message = error; content = content })
        else none)
unfolding make_response_json read_response read_field read_data expect read_string is_writable
    eq_bytes
read_response-make_response_json status op error [] h k l =
    rw (read_string_plain status _ h, read_string_plain op _ k, read_string_plain error _ l) refl
read_response-make_response_json status op error (c ∷ s) h k l =
    let b = is_writable (c ∷ s) in
    rw
      (
        read_string_plain status _ h,
        read_string_plain op _ k,
        read_string_plain error _ l,
        append_assoc,
        read_string-escape (c ∷ s) _,
      )
      (elim (Bool-cases b) [ inl e ↦ rw e refl | inr e ↦ rw e refl ])
