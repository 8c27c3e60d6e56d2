-- ===== src/Paths.antt =====
-- Paths of source/core/ofs_core.cpp: `split_path_tokens`, `build_full_path_from_meta`,
-- `rebuild_path_index`, and the split of a path into its parent and its base name.
pub mod Tokens
pub mod Index
pub mod LongNames
use omni_file_system.Prelude.{
  ℕ, zero, suc, ◌+◌, ◌==◌, Bool, true, false, not, ◌&&◌, ◌||◌, Option, none, some, List, [], ◌∷◌,
  ◌++◌, length, leb, ltb, if◌then◌else◌,
}
use omni_file_system.Prelude.Bytes.{Bytes, codes}
use omni_file_system.HashMap
use omni_file_system.HashMap.{SimpleHashMap}
use omni_file_system.Types.{MetaEntry, get_name}
use omni_file_system.Instance.{FsInstance, entry?}

abbrev pub slash : ℕ
slash = b'/'

-- `while (path[i] == '/') ++i;`
unfoldable pub skip_slashes : Bytes → Bytes
skip_slashes [] = []
skip_slashes (c ∷ s) = let rest = skip_slashes s in if c == slash then rest else c ∷ s

-- The bytes before the next slash, and those from it on.
unfoldable pub cut_token : Bytes → Bytes × Bytes
cut_token [] = ([], [])
cut_token (c ∷ s) =
    let (token, rest) = cut_token s in
    let stop : Bytes × Bytes = ([], c ∷ s) in
    let go : Bytes × Bytes = (c ∷ token, rest) in if c == slash then stop else go

-- A round of the loop takes a byte at least.
unfoldable pub split_loop : ℕ → Bytes → List Bytes
split_loop zero s = []
split_loop (suc fuel) s = elim (skip_slashes s) [
  | [] ↦ []
  | c ∷ r ↦ let (token, rest) = cut_token (c ∷ r) in token ∷ split_loop fuel rest
]

unfoldable pub split_path_tokens : Bytes → List Bytes
unfolding split_loop
split_path_tokens path = split_loop (length path) path

-- `path += "/"; path += token` for each token.
unfoldable pub join_tokens : List Bytes → Bytes
join_tokens [] = []
join_tokens (t ∷ ts) = slash ∷ (t ++ join_tokens ts)

-- The tokens but the last, and the last.
unfoldable pub split_last : Bytes → List Bytes → List Bytes × Bytes
split_last t [] = ([], t)
split_last t (u ∷ us) = let (init, last) = split_last u us in (t ∷ init, last)

-- `parent_path` and `basename` of `file_create` and `dir_create`; `none` if there is no token.
unfoldable pub parent_and_name : List Bytes → Option (Bytes × Bytes)
parent_and_name [] = none
parent_and_name (t ∷ ts) =
    let (init, last) = split_last t ts in
    some (if ltb 1 (length (t ∷ ts)) then join_tokens init else slash ∷ [], last)

abbrev pub name_or_unnamed : Bytes → Bytes
name_or_unnamed [] = codes "unnamed"
name_or_unnamed (c ∷ s) = c ∷ s

-- The loop of `build_full_path_from_meta`: the names from entry `cur` up. It makes as many rounds
-- as there are entries at most, so that is the fuel.
unfoldable pub path_parts : ℕ → List MetaEntry → ℕ → List Bytes
path_parts zero es cur = []
path_parts (suc left) es cur = elim (entry? es cur) [
  | none ↦ []
  | some e ↦
      let more = name_or_unnamed (get_name e) ∷ path_parts left es e.parent in
      if not (e.valid == 0) || cur == 1 then [] else more
]

-- The parts in reverse, a slash before each.
unfoldable pub render_parts : List Bytes → Bytes → Bytes
render_parts [] path = path
render_parts (p ∷ ps) path = render_parts ps (slash ∷ (p ++ path))

unfoldable pub build_full_path_from_meta : List MetaEntry → ℕ → Bytes
build_full_path_from_meta es meta_index =
    let parts = path_parts (length es) es meta_index in
    let path : Bytes = elim parts [ [] ↦ slash ∷ [] | p ∷ ps ↦ render_parts (p ∷ ps) [] ] in
    if meta_index == 1 then slash ∷ [] else path

-- The loop of `rebuild_path_index` over the entries from index `i` (from 0) on.
unfoldable pub index_entries :
    List MetaEntry → List MetaEntry → ℕ → SimpleHashMap ℕ → SimpleHashMap ℕ
index_entries es [] i m = m
index_entries es (e ∷ rest) i m =
    let path = build_full_path_from_meta es (i + 1) in
    index_entries es rest (suc i) (if e.valid == 0 then (HashMap.insert m path (i + 1)).1 else m)

unfoldable pub rebuild_path_index : FsInstance → FsInstance
rebuild_path_index inst = record inst {
  path_index = index_entries inst.meta_entries inst.meta_entries 0 (HashMap.clear inst.path_index);
}
