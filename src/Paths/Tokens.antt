-- ===== src/Paths/Tokens.antt =====
-- `split_path_tokens` against the paths that its tokens make.
use omni_file_system.Prelude.{
  ℕ, zero, suc, ◌≤◌, ◌≡◌, ◌≢◌, refl, ap, ◌∙◌, false, List, [], ◌∷◌, ◌++◌, arith, length,
  length-append, ◌==◌,
}
use omni_file_system.Prelude.Bytes.{Bytes}
use omni_file_system.Prelude.Preds.{All}
use omni_file_system.Paths.{
  slash, skip_slashes, cut_token, split_loop, split_path_tokens, join_tokens,
}

-- No slash, and at least one byte.
abbrev pub IsToken : Bytes → Type 0
IsToken [] = ⊥
IsToken (c ∷ s) = All (λ b. b ≢ slash) (c ∷ s)

-- What may follow a token: nothing, or a slash.
abbrev Ends : Bytes → Type 0
Ends [] = Unit
Ends (c ∷ s) = c ≡ slash

cut_token-append : (t s : Bytes) → All (λ b. b ≢ slash) t → Ends s → cut_token (t ++ s) ≡ (t, s)
unfolding cut_token
cut_token-append [] [] h e = refl
cut_token-append [] (c ∷ s) h e = ground arith
cut_token-append (c ∷ t) s h e =
    let rest = cut_token-append t s h.1 e in
    let other : c == slash ≡ false = ground (arith, h.0) in rw (rest, other)

Ends-join : (ts : List Bytes) → Ends (join_tokens ts)
unfolding join_tokens
Ends-join [] = tt
Ends-join (t ∷ ts) = refl

skip_slashes-token : (t s : Bytes) → IsToken t → skip_slashes (slash ∷ (t ++ s)) ≡ t ++ s
unfolding skip_slashes
skip_slashes-token [] s h = absurd h
skip_slashes-token (c ∷ t) s h = let other : c == slash ≡ false = ground (arith, h.0) in rw other

split_step :
    (fuel : ℕ) (s : Bytes) (c : ℕ) (r token rest : Bytes)
    → skip_slashes s ≡ c ∷ r
    → cut_token (c ∷ r) ≡ (token, rest)
    → split_loop (suc fuel) s ≡ token ∷ split_loop fuel rest
unfolding split_loop
split_step fuel s c r token rest e cut = rw (e, split_loop) (rw cut)

join_tokens-cons :
    (t : Bytes) (ts : List Bytes) → join_tokens (t ∷ ts) ≡ slash ∷ (t ++ join_tokens ts)
unfolding join_tokens
join_tokens-cons t ts = refl

length-join_tokens-cons :
    (t : Bytes) (ts : List Bytes)
    → length (join_tokens (t ∷ ts)) ≡ suc (length (t ++ join_tokens ts))
unfolding join_tokens
length-join_tokens-cons t ts = refl

split_loop-join :
    (fuel : ℕ) (ts : List Bytes)
    → All IsToken ts
    → length (join_tokens ts) ≤ fuel
    → split_loop fuel (join_tokens ts) ≡ ts
split_loop-join zero [] h le = unfold split_loop in refl
split_loop-join zero (t ∷ ts) h le = absurd (unfold join_tokens in omega arith)
split_loop-join (suc fuel) [] h le = unfold split_loop join_tokens skip_slashes in refl
split_loop-join (suc fuel) ([] ∷ ts) h le = absurd h.0
split_loop-join (suc fuel) ((c ∷ t) ∷ ts) h le =
    let rest = join_tokens ts in
    let skipped = skip_slashes-token (c ∷ t) rest h.0 in
    let cut = cut_token-append (c ∷ t) rest h.0 (Ends-join ts) in
    let short : length rest ≤ fuel =
      omega (arith, length-join_tokens-cons (c ∷ t) ts, length-append (c ∷ t) rest) in
    ap (split_loop (suc fuel)) (join_tokens-cons (c ∷ t) ts)
    ∙ split_step fuel (slash ∷ ((c ∷ t) ++ rest)) c (t ++ rest) (c ∷ t) rest skipped cut
    ∙ ap (λ us. (c ∷ t) ∷ us) (split_loop-join fuel ts h.1 short)

-- `split_path_tokens` of a path put together from tokens gives these tokens, if each of them is
-- nonempty and free of slashes.
pub split_path_tokens-join_tokens :
    (ts : List Bytes) → All IsToken ts → split_path_tokens (join_tokens ts) ≡ ts
unfolding split_path_tokens
split_path_tokens-join_tokens ts h = split_loop-join (length (join_tokens ts)) ts h (omega arith)
