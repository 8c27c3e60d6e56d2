-- ===== src/HashMap/Buckets.antt =====
-- One bucket of `SimpleHashMap`: what the loops of `insert`, `erase` and `find` do to it.
use omni_file_system.Prelude.{
  ℕ, ◌+◌, ◌≤◌, ◌≡◌, refl, Bool, true, false, Option, none, some, [], ◌∷◌, ◌++◌, max, arith, length,
  if◌then◌else◌,
}
use omni_file_system.Prelude.Bytes.{Bytes, eq_bytes, eq_bytes_iff}
use omni_file_system.HashMap.{Bucket, overwrite, drop_key, lookup}

abbrev pub is_some {ℓ} : {A : Type ℓ} → Option A → Bool
is_some none = false
is_some (some _) = true

module _ {ℓ} {V : Type ℓ} where
  -- How often a key stands in a bucket.
  unfoldable pub count : Bytes → Bucket V → ℕ
  count key [] = 0
  count key ((k, v) ∷ rest) = (if eq_bytes k key then 1 else 0) + count key rest

  -- The bucket that `insert` leaves.
  abbrev pub upserted : Bytes → V → Bucket V → Bucket V
  upserted key value b = elim (overwrite key value b) [ some c ↦ c | none ↦ b ++ (key, value) ∷ [] ]

  -- The bucket that `erase` leaves.
  abbrev pub remaining : Bytes → Bucket V → Bucket V
  remaining key b = elim (drop_key key b) [ some c ↦ c | none ↦ b ]

  pub lookup-eq-none : (key : Bytes) (b : Bucket V) → count key b ≡ 0 → lookup key b ≡ none
  unfolding count lookup
  lookup-eq-none key [] h = refl
  lookup-eq-none key ((k, v) ∷ rest) h = ground (arith, lookup-eq-none key rest)

  pub count-eq-zero : (key : Bytes) (b : Bucket V) → lookup key b ≡ none → count key b ≡ 0
  unfolding count lookup
  count-eq-zero key [] h = refl
  count-eq-zero key ((k, v) ∷ rest) h = ground (arith, count-eq-zero key rest)

  module _ (key j : Bytes) (value : V) where
    pub lookup-upserted :
        (b : Bucket V)
        → lookup j (upserted key value b) ≡ (if eq_bytes key j then some value else lookup j b)
    unfolding lookup overwrite
    lookup-upserted [] = refl
    lookup-upserted ((k, v) ∷ rest) =
        ground
          (arith, lookup-upserted rest, eq_bytes_iff k key, eq_bytes_iff k j, eq_bytes_iff key j)

    pub count-upserted :
        (b : Bucket V)
        → count j (upserted key value b) ≡ (if eq_bytes key j then max 1 (count j b) else count j b)
    unfolding count overwrite
    count-upserted [] = ground arith
    count-upserted ((k, v) ∷ rest) =
        ground
          (arith, count-upserted rest, eq_bytes_iff k key, eq_bytes_iff k j, eq_bytes_iff key j)

  module _ (key : Bytes) (value : V) where
    pub overwrite-lookup : (b : Bucket V) → is_some (overwrite key value b) ≡ is_some (lookup key b)
    unfolding lookup overwrite
    overwrite-lookup [] = refl
    overwrite-lookup ((k, v) ∷ rest) = ground (arith, overwrite-lookup rest)

    pub length-upserted :
        (b : Bucket V)
        → length (upserted key value b)
          ≡ length b + (if is_some (overwrite key value b) then 0 else 1)
    unfolding overwrite
    length-upserted [] = refl
    length-upserted ((k, v) ∷ rest) = ground (arith, length-upserted rest)

  module _ (key : Bytes) where
    pub drop_key-lookup : (b : Bucket V) → is_some (drop_key key b) ≡ is_some (lookup key b)
    unfolding lookup drop_key
    drop_key-lookup [] = refl
    drop_key-lookup ((k, v) ∷ rest) = ground (arith, drop_key-lookup rest)

    pub lookup-remaining :
        (j : Bytes) (b : Bucket V)
        → count key b ≤ 1
        → lookup j (remaining key b) ≡ (if eq_bytes key j then none else lookup j b)
    unfolding lookup drop_key count
    lookup-remaining j [] h = ground arith
    lookup-remaining j ((k, v) ∷ rest) h = ground (
      arith,
      lookup-remaining j rest,
      lookup-eq-none j rest,
      eq_bytes_iff k key,
      eq_bytes_iff k j,
      eq_bytes_iff key j,
    )

    pub count-remaining-le : (j : Bytes) (b : Bucket V) → count j (remaining key b) ≤ count j b
    unfolding drop_key count
    count-remaining-le j [] = ground arith
    count-remaining-le j ((k, v) ∷ rest) = ground (arith, count-remaining-le j rest)

    pub length-remaining :
        (b : Bucket V)
        → length (remaining key b) + (if is_some (drop_key key b) then 1 else 0) ≡ length b
    unfolding drop_key
    length-remaining [] = ground arith
    length-remaining ((k, v) ∷ rest) = ground (arith, length-remaining rest)
