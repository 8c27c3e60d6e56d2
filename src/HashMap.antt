-- ===== src/HashMap.antt =====
-- source/data_structures/simple_unordered_map.hpp: `SimpleHashMap<V>`, a chained hash map with string keys.
-- `std::hash` is the field `hash_key`, as in the class: any function from keys to numbers.
use mathlib.Core.List.{flatten}
pub mod Buckets
pub mod View
use omni_file_system.Prelude.{
  ℕ, ◌+◌, ◌-◌, ◌%◌, Bool, true, false, Option, none, some, List, [], ◌∷◌, ◌++◌, map, length, get_or,
  set, if◌then◌else◌, replicate,
}
use omni_file_system.Prelude.Bytes.{Bytes, eq_bytes}

abbrev pub Bucket {ℓ} : Type ℓ → Type ℓ
Bucket V = List (Bytes × V)

pub record SimpleHashMap {ℓ} (V : Type ℓ) : Type ℓ where
  pub buckets : List (Bucket V)
  pub size : ℕ
  pub hash_key : Bytes → ℕ

module _ {ℓ} {V : Type ℓ} where
  -- The constructor.
  unfoldable pub new : ℕ → (Bytes → ℕ) → SimpleHashMap V
  new bucket_count hash_key = record {
    buckets = replicate bucket_count [];
    size = 0;
    hash_key = hash_key;
  }

  -- `hash_key(key) % buckets.size()`
  abbrev pub slot : SimpleHashMap V → Bytes → ℕ
  slot m key = m.hash_key key % length m.buckets

  abbrev pub bucket_of : SimpleHashMap V → Bytes → Bucket V
  bucket_of m key = get_or m.buckets (slot m key) []

  -- The loop of `insert`: overwrite the first pair under the key, if there is one.
  unfoldable pub overwrite : Bytes → V → Bucket V → Option (Bucket V)
  overwrite key value [] = none
  overwrite key value ((k, v) ∷ rest) =
      if eq_bytes k key
      then some ((k, value) ∷ rest)
      else elim (overwrite key value rest) [ none ↦ none | some r ↦ some ((k, v) ∷ r) ]

  -- The loop of `erase`: drop the first pair under the key, if there is one.
  unfoldable pub drop_key : Bytes → Bucket V → Option (Bucket V)
  drop_key key [] = none
  drop_key key ((k, v) ∷ rest) =
      if eq_bytes k key
      then some rest
      else elim (drop_key key rest) [ none ↦ none | some r ↦ some ((k, v) ∷ r) ]

  -- The loop of `find` and of `contains`.
  unfoldable pub lookup : Bytes → Bucket V → Option V
  lookup key [] = none
  lookup key ((k, v) ∷ rest) = if eq_bytes k key then some v else lookup key rest

  unfoldable pub insert : SimpleHashMap V → Bytes → V → Bool × SimpleHashMap V
  insert m key value = elim (overwrite key value (bucket_of m key)) [
    | some b ↦ (false, record m { buckets = set m.buckets (slot m key) b })
    | none ↦ (
      true,
      record m {
        buckets = set m.buckets (slot m key) (bucket_of m key ++ (key, value) ∷ []);
        size = m.size + 1;
      },
    )
  ]

  unfoldable pub erase : SimpleHashMap V → Bytes → Bool × SimpleHashMap V
  erase m key = elim (drop_key key (bucket_of m key)) [
    | some b ↦ (true, record m { buckets = set m.buckets (slot m key) b; size = m.size - 1 })
    | none ↦ (false, m)
  ]

  unfoldable pub find : SimpleHashMap V → Bytes → Option V
  find m key = lookup key (bucket_of m key)

  unfoldable pub contains : SimpleHashMap V → Bytes → Bool
  contains m key = elim (lookup key (bucket_of m key)) [ none ↦ false | some v ↦ true ]

  unfoldable pub clear : SimpleHashMap V → SimpleHashMap V
  clear m = record m { buckets = map (λ _. []) m.buckets; size = 0 }

  unfoldable pub get_all : SimpleHashMap V → Bucket V
  get_all m = flatten m.buckets
