-- ===== src/Paths/LongNames.antt =====
-- Paths with a component of more bytes than a name of the table holds: no entry has such a path.
use omni_file_system.Prelude.{
  ℕ, zero, suc, ◌≤◌, ◌<◌, ◌≡◌, refl, ap, Bool, true, false, not, ◌||◌, Bool-cases, inl, inr,
  Option-cases, none, some, List, [], ◌∷◌, ◌++◌, arith, length, ◌==◌, if◌then◌else◌,
}
use omni_file_system.Prelude.Bytes.{Bytes}
use omni_file_system.Prelude.Preds.{All, has}
use omni_file_system.Types.{MetaEntry, get_name}
use omni_file_system.Instance.{entry?}
use omni_file_system.Paths.{
  slash, name_or_unnamed, path_parts, render_parts, build_full_path_from_meta,
}
use omni_file_system.Paths.Index.{LastUpTo}

-- No component has more than 11 bytes; the present one has room for `k` more.
unfoldable has_room : ℕ → Bytes → Bool
has_room k [] = true
has_room zero (c ∷ s) = let next = has_room 11 s in if c == slash then next else false
has_room (suc k) (c ∷ s) =
    let next = has_room 11 s in let more = has_room k s in if c == slash then next else more

has_room_mono : (k : ℕ) (s : Bytes) → has_room 0 s ≡ true → has_room k s ≡ true
unfolding has_room
has_room_mono zero s h = h
has_room_mono (suc k) [] h = refl
has_room_mono (suc k) (c ∷ s) h = ground (arith, h)

-- A part of a path, before a rest that is empty or starts with a slash.
has_room-part :
    (k : ℕ) (part path : Bytes)
    → k < 12
    → length part ≤ k
    → has_room 0 path ≡ true
    → has_room k (part ++ path) ≡ true
unfolding has_room
has_room-part k [] path lt le h = has_room_mono k path h
has_room-part zero (c ∷ s) path lt le h = absurd (omega arith)
has_room-part (suc k) (c ∷ s) path lt le h = elim (Bool-cases (c == slash)) [
  | inl here ↦ rw here (has_room-part 11 s path (omega arith) (omega arith) h)
  | inr other ↦ rw other (has_room-part k s path (omega arith) (omega arith) h)
]

abbrev AreShort : List Bytes → Type 0
AreShort = All (λ part. length part < 12)

has_room-render_parts :
    (parts : List Bytes) (path : Bytes)
    → AreShort parts
    → has_room 0 path ≡ true
    → has_room 0 (render_parts parts path) ≡ true
unfolding render_parts has_room
has_room-render_parts [] path short h = h
has_room-render_parts (part ∷ parts) path (here, rest) h =
    has_room-render_parts parts (slash ∷ (part ++ path)) rest
      (has_room-part 11 part path (omega arith) (omega arith) h)

abbrev pub AreNamed : List MetaEntry → Type 0
AreNamed = All (λ e. length (get_name e) < 12)

All-entry :
    (es : List MetaEntry) (i : ℕ) (e : MetaEntry)
    → AreNamed es
    → entry? es i ≡ some e
    → length (get_name e) < 12
All-entry es zero e named at = cc
All-entry [] (suc i) e named at = cc
All-entry (x ∷ es) (suc zero) e named at = let xe : x ≡ e = ground (arith, at) in rw xe at (named.0)
All-entry (x ∷ es) (suc (suc i)) e named at = All-entry es (suc i) e named.1 at

length-name_or_unnamed : (s : Bytes) → length s < 12 → length (name_or_unnamed s) < 12
length-name_or_unnamed [] h = omega arith
length-name_or_unnamed (c ∷ s) h = h

path_parts-AreShort :
    (left : ℕ) (es : List MetaEntry) (cur : ℕ) → AreNamed es → AreShort (path_parts left es cur)
unfolding path_parts
path_parts-AreShort zero es cur named = tt
path_parts-AreShort (suc left) es cur named = elim (Option-cases (entry? es cur)) [
  | inl missing ↦ rw (path_parts, missing) tt
  | inr (e, at) ↦
      let first = length-name_or_unnamed (get_name e) (All-entry es cur e named at) in
      let rest = path_parts-AreShort left es e.parent named in
      elim (Bool-cases (not (e.valid == 0) || cur == 1)) [
        | inl stop ↦ rw (path_parts, at, stop) tt
        | inr go ↦ rw (path_parts, at, go) (first, rest)
      ]
]

rendered :
    (parts : List Bytes)
    → AreShort parts
    → has_room 0 (elim parts [ [] ↦ slash ∷ [] | p ∷ ps ↦ render_parts (p ∷ ps) [] ]) ≡ true
unfolding has_room
rendered [] short = refl
rendered (p ∷ ps) short = has_room-render_parts (p ∷ ps) [] short refl

has_room-build_full_path :
    (es : List MetaEntry) (i : ℕ) → AreNamed es → has_room 0 (build_full_path_from_meta es i) ≡ true
unfolding build_full_path_from_meta has_room
has_room-build_full_path es i named = elim (Bool-cases (i == 1)) [
  | inl root ↦ rw root refl
  | inr other ↦
      rw other (rendered (path_parts (length es) es i) (path_parts-AreShort (length es) es i named))
]

-- The present component goes on longer than it may.
no_room :
    (k : ℕ) (name after : Bytes)
    → has name slash ≡ false
    → k < length name
    → has_room k (name ++ after) ≡ false
unfolding has_room has
no_room k [] after plain long = absurd (omega arith)
no_room zero (c ∷ s) after plain long = ground (arith, plain)
no_room (suc k) (c ∷ s) after plain long =
    let a : (c == slash) ≡ false = ground (arith, plain) in
    rw a (no_room k s after (ground (arith, plain)) (omega arith))

no_room-behind :
    (k : ℕ) (before name after : Bytes)
    → k < 12
    → has name slash ≡ false
    → 11 < length name
    → has_room k (before ++ (name ++ after)) ≡ false
unfolding has_room
no_room-behind k [] name after lt plain long = no_room k name after plain (omega arith)
no_room-behind zero (c ∷ s) name after lt plain long =
    ground (arith, no_room-behind 11 s name after (omega arith) plain long)
no_room-behind (suc k) (c ∷ s) name after lt plain long = ground (
  arith,
  no_room-behind 11 s name after (omega arith) plain long,
  no_room-behind k s name after (omega arith) plain long,
)

pub long_path-LastUpTo :
    (es : List MetaEntry) (before name after : Bytes) (n : ℕ)
    → All (λ e. length (get_name e) < 12) es
    → has name slash ≡ false
    → 11 < length name
    → LastUpTo es n (before ++ (name ++ after)) none
long_path-LastUpTo es before name after n named plain long k le h = cc (
  has_room-build_full_path es k named,
  ap (has_room 0) h.path,
  no_room-behind 0 before name after (omega arith) plain long,
)
