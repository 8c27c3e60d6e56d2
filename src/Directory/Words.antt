-- ===== src/Directory/Words.antt =====
-- The words of a directory block.
use omni_file_system.Prelude.{
  ℕ, zero, suc, ◌-◌, ◌*◌, ◌^◌, ◌<◌, ◌≡◌, refl, sym, ap, ◌∙◌, List, [], ◌∷◌, ◌++◌, arith, length,
  take, replicate, length-append, length-replicate, length-take, ==_zero_pos,
}
use omni_file_system.Prelude.Words.{to_le, length-to_le}
use omni_file_system.Prelude.Preds.{All, All-take, All-append}
use omni_file_system.Types.Fields.{field_le-append, drop-to_le}
use omni_file_system.Directory.{words_of, words_image, nonzero, new_payload}

-- An index of an entry.
abbrev pub IsIndex : ℕ → Type 0
IsIndex c = (0 < c) × (c < 2 ^ 32)

abbrev pub IsWord : ℕ → Type 0
IsWord c = c < 2 ^ 32

pub words_of-words_image :
    (vs : List ℕ) → All IsWord vs → words_of (length vs) (words_image vs) ≡ vs
unfolding words_of words_image
words_of-words_image [] h = refl
words_of-words_image (v ∷ vs) h =
    rw (field_le-append 4 v (words_image vs) h.0, drop-to_le, words_of-words_image vs h.1)

pub length-words_image : (vs : List ℕ) → length (words_image vs) ≡ length vs * 4
unfolding words_image
length-words_image [] = omega arith
length-words_image (v ∷ vs) =
    omega
      (arith, length-append (to_le 4 v) (words_image vs), length-to_le 4 v, length-words_image vs)

nonzero_zeros : (k : ℕ) → nonzero (replicate k 0) ≡ []
unfolding nonzero
nonzero_zeros zero = refl
nonzero_zeros (suc k) = nonzero_zeros k

pub nonzero-append_zeros :
    (cs : List ℕ) (k : ℕ) → All IsIndex cs → nonzero (cs ++ replicate k 0) ≡ cs
unfolding nonzero
nonzero-append_zeros [] k h = nonzero_zeros k
nonzero-append_zeros (c ∷ cs) k h = rw (==_zero_pos c h.0.0, nonzero-append_zeros cs k h.1)

All-zeros : (k : ℕ) → All IsWord (replicate k 0)
All-zeros zero = tt
All-zeros (suc k) = (omega arith, All-zeros k)

All-words : (cs : List ℕ) → All IsIndex cs → All IsWord cs
All-words [] h = tt
All-words (c ∷ cs) h = (h.0.1, All-words cs h.1)

module _ (count : ℕ) (cs : List ℕ) (h : All IsIndex cs) where
  pub new_payload-words : All IsWord (new_payload count cs)
  new_payload-words =
      let kept = take count cs in
      All-append IsWord kept (replicate (count - length kept) 0)
        (All-words kept (All-take IsIndex count cs h)) (All-zeros (count - length kept))

  pub length-new_payload : length (new_payload count cs) ≡ count
  length-new_payload =
      let kept = take count cs in
      omega (
        arith,
        length-append kept (replicate (count - length kept) 0),
        length-take count cs,
        length-replicate {A = ℕ} (count - length kept) 0,
      )

  -- Reading the block's words back gives the children that fit.
  pub nonzero-new_payload :
      nonzero (words_of count (words_image (new_payload count cs))) ≡ take count cs
  nonzero-new_payload =
      let kept = take count cs in
      let p = new_payload count cs in
      let back : words_of count (words_image p) ≡ p =
        ap (λ n. words_of n (words_image p)) (sym length-new_payload)
        ∙ words_of-words_image p new_payload-words in
      rw back (nonzero-append_zeros kept (count - length kept) (All-take IsIndex count cs h))
