-- ===== src/HashMap/View.antt =====
-- `SimpleHashMap` against its abstract view, a partial function from keys to values.
use omni_file_system.Prelude.{
  ℕ, ◌+◌, ◌≤◌, ◌<◌, ◌≡◌, false, not, none, some, [], arith, set, set-get_or, length, get_or,
  get_or-set, length-set, length-map, length-flatten-set, flatten-cleared, get_or-cleared, ◌==◌,
  if◌then◌else◌, Bool-cases, inl, inr, ap, ==_iff, refl, length-replicate, flatten-replicate,
  get_or-replicate,
}
use omni_file_system.Prelude.Bytes.{Bytes, eq_bytes, eq_bytes_iff}
use omni_file_system.HashMap.{
  Bucket, SimpleHashMap, slot, bucket_of, insert, erase, find, contains, clear, get_all, lookup,
  new,
}
use omni_file_system.HashMap.Buckets.{
  is_some, count, upserted, remaining, lookup-upserted, count-upserted, overwrite-lookup,
  length-upserted, drop_key-lookup, lookup-remaining, count-remaining-le, length-remaining,
}

module _ {ℓ} {V : Type ℓ} where
  -- There is a bucket, `size` counts the pairs, and no bucket holds a key twice.
  pub record IsValid (m : SimpleHashMap V) : Type ℓ where
    pub nonempty : 0 < length m.buckets
    pub counted : m.size ≡ length (get_all m)
    pub unique : (key : Bytes) (i : ℕ) → count key (get_or m.buckets i []) ≤ 1

  slot_bound :
      (m : SimpleHashMap V) (key : Bytes) → 0 < length m.buckets → slot m key < length m.buckets
  slot_bound m key h = omega arith

  -- A map that differs from `m` in the bucket of `key` alone.
  abbrev Rebucketed : SimpleHashMap V → Bytes → Bucket V → SimpleHashMap V → Type ℓ
  Rebucketed m key b n = (n.buckets ≡ set m.buckets (slot m key) b) × (n.hash_key ≡ m.hash_key)

  module _ (m : SimpleHashMap V) (key : Bytes) where
    insert-Rebucketed :
        (value : V) → Rebucketed m key (upserted key value (bucket_of m key)) (insert m key value).1
    unfolding insert
    insert-Rebucketed value = ground arith

    erase-Rebucketed : Rebucketed m key (remaining key (bucket_of m key)) (erase m key).1
    unfolding erase
    erase-Rebucketed = ground (arith, set-get_or m.buckets (slot m key) [])

    find-Rebucketed :
        (j : Bytes) (b : Bucket V) (n : SimpleHashMap V)
        → 0 < length m.buckets
        → Rebucketed m key b n
        → find n j ≡ (if slot m key == slot m j then lookup j b else find m j)
    unfolding find
    find-Rebucketed j b n pos (eb, eh) =
        let s = get_or-set m.buckets (slot m key) (slot m j) b [] (omega arith) in
        rw (eb, eh, length-set, s) (ground arith)

    unique-Rebucketed :
        (b : Bucket V) (n : SimpleHashMap V)
        → IsValid m
        → Rebucketed m key b n
        → ((j : Bytes) → count j b ≤ 1)
        → (j : Bytes) (i : ℕ) → count j (get_or n.buckets i []) ≤ 1
    unique-Rebucketed b n v (eb, eh) fits j i =
        let s = get_or-set m.buckets (slot m key) i b [] (slot_bound m key v.nonempty) in
        rw (eb, s) (ground (arith, fits j, v.unique j i))

  ne_of_apart :
      (m : SimpleHashMap V) (key j : Bytes)
      → slot m key == slot m j ≡ false
      → eq_bytes key j ≡ false
  ne_of_apart m key j h = elim (Bool-cases (eq_bytes key j)) [
    | inr e ↦ e
    | inl e ↦
        let p = ap (slot m) ((eq_bytes_iff key j).0 e) in
        cc (h, (==_iff (slot m key) (slot m j)).1 p)
  ]

  -- Exactly the inserted key changes.
  pub find-insert :
      (m : SimpleHashMap V) (key j : Bytes) (value : V)
      → 0 < length m.buckets
      → find (insert m key value).1 j ≡ (if eq_bytes key j then some value else find m j)
  unfolding find
  find-insert m key j value pos =
      let b = upserted key value (bucket_of m key) in
      let e =
        find-Rebucketed m key j b (insert m key value).1 pos (insert-Rebucketed m key value) in
      elim (Bool-cases (slot m key == slot m j)) [
        | inl same ↦
            let i = (==_iff (slot m key) (slot m j)).0 same in rw (e, same, lookup-upserted, i)
        | inr apart ↦ let ne = ne_of_apart m key j apart in rw (e, apart, ne)
      ]

  module _ (m : SimpleHashMap V) (key : Bytes) (value : V) (v : IsValid m) where
    size-insert :
        ((insert m key value).0 ≡ not (contains m key))
        × ((insert m key value).1.size ≡ m.size + (if contains m key then 0 else 1))
    unfolding insert contains
    size-insert = ground (arith, overwrite-lookup key value (bucket_of m key))

    counted-insert : (insert m key value).1.size ≡ length (get_all (insert m key value).1)
    unfolding insert get_all
    counted-insert =
        let b = bucket_of m key in
        let inside = slot_bound m key v.nonempty in
        let f = length-flatten-set m.buckets (slot m key) (upserted key value b) inside in
        ground (arith, f, length-upserted key value b, v.counted)

    insert-IsValid : IsValid (insert m key value).1
    insert-IsValid =
        let b = upserted key value (bucket_of m key) in
        let r = insert-Rebucketed m key value in
        record {
          nonempty = rw (r.0, length-set) v.nonempty;
          counted = counted-insert;
          unique =
              unique-Rebucketed m key b (insert m key value).1 v r
                (λ j. rw count-upserted (ground (arith, v.unique j (slot m key))));
        }

    -- On a well-formed map `insert` keeps the invariant, returns whether the key is new, counts
    -- it, and changes the abstract map at the inserted key alone.
    pub insert-refines :
        IsValid (insert m key value).1
        × ((insert m key value).0 ≡ not (contains m key))
        × ((insert m key value).1.size ≡ m.size + (if contains m key then 0 else 1))
        × ((j : Bytes)
            → find (insert m key value).1 j ≡ (if eq_bytes key j then some value else find m j))
    insert-refines =
        (insert-IsValid, size-insert.0, size-insert.1, λ j. find-insert m key j value v.nonempty)

  module _ (m : SimpleHashMap V) (key : Bytes) (v : IsValid m) where
    size-erase :
        ((erase m key).0 ≡ contains m key)
        × ((erase m key).1.size + (if contains m key then 1 else 0) ≡ m.size)
        × ((erase m key).1.size ≡ length (get_all (erase m key).1))
    unfolding erase contains get_all
    size-erase =
        let b = bucket_of m key in
        let inside = slot_bound m key v.nonempty in
        let f = length-flatten-set m.buckets (slot m key) (remaining key b) inside in
        ground (arith, f, drop_key-lookup key b, length-remaining key b, v.counted)

    erase-IsValid : IsValid (erase m key).1
    erase-IsValid =
        let b = remaining key (bucket_of m key) in
        let r = erase-Rebucketed m key in
        record {
          nonempty = rw (r.0, length-set) v.nonempty;
          counted = size-erase.2;
          unique = unique-Rebucketed m key b (erase m key).1 v r (λ j.
              omega (arith, v.unique j (slot m key), count-remaining-le key j (bucket_of m key)));
        }

    find-erase : (j : Bytes) → find (erase m key).1 j ≡ (if eq_bytes key j then none else find m j)
    unfolding find
    find-erase j =
        let b = bucket_of m key in
        let e =
          find-Rebucketed m key j (remaining key b) (erase m key).1 v.nonempty
            (erase-Rebucketed m key) in
        elim (Bool-cases (slot m key == slot m j)) [
          | inl same ↦
              let i = (==_iff (slot m key) (slot m j)).0 same in
              rw (e, same, lookup-remaining key j b (v.unique key (slot m key)), i)
          | inr apart ↦ let ne = ne_of_apart m key j apart in rw (e, apart, ne)
        ]

    -- On a well-formed map `erase` keeps the invariant, returns whether the key was there,
    -- counts it, and changes the abstract map at that key alone.
    pub erase-refines :
        IsValid (erase m key).1
        × ((erase m key).0 ≡ contains m key)
        × ((erase m key).1.size + (if contains m key then 1 else 0) ≡ m.size)
        × ((j : Bytes) → find (erase m key).1 j ≡ (if eq_bytes key j then none else find m j))
    erase-refines = (erase-IsValid, size-erase.0, size-erase.1, find-erase)

  -- `clear` of a well-formed map keeps the invariant, sets the size to 0 and leaves no key.
  pub clear-refines :
      (m : SimpleHashMap V)
      → IsValid m
      → IsValid (clear m) × ((clear m).size ≡ 0) × ((j : Bytes) → find (clear m) j ≡ none)
  unfolding clear find get_all lookup count
  clear-refines m v = (
    record {
      nonempty = rw length-map v.nonempty;
      counted = rw flatten-cleared;
      unique = λ key i. rw (get_or-cleared m.buckets i) (omega arith);
    },
    refl,
    λ j. rw get_or-cleared,
  )

  pub contains-find : (m : SimpleHashMap V) (key : Bytes) → contains m key ≡ is_some (find m key)
  unfolding contains find
  contains-find m key = ground arith

  -- A map with at least one bucket starts valid and empty.
  pub new-refines :
      (bucket_count : ℕ) (hash_key : Bytes → ℕ)
      → 0 < bucket_count
      → let m : SimpleHashMap V = new bucket_count hash_key in
        IsValid m × (m.size ≡ 0) × ((j : Bytes) → find m j ≡ none)
  unfolding new find get_all lookup count
  new-refines bucket_count hash_key h = (
    record {
      nonempty = rw length-replicate h;
      counted = rw flatten-replicate;
      unique = λ key i. rw (get_or-replicate bucket_count i) (omega arith);
    },
    refl,
    λ j. rw get_or-replicate,
  )
