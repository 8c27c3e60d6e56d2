-- ===== src/Paths/Index.antt =====
-- What `rebuild_path_index` leaves in the index.
use omni_file_system.Prelude.{
  ℕ, zero, suc, ◌+◌, ◌≤◌, ◌≡◌, sym, Bool-cases, inl, inr, Option, none, some, List, [], ◌∷◌, arith,
  length, get_elem?, ◌==◌, ==_iff, if◌then◌else◌,
}
use mathlib.Core.Path.{subst}
use omni_file_system.Prelude.Bytes.{Bytes, eq_bytes, eq_bytes_iff}
use omni_file_system.HashMap
use omni_file_system.HashMap.{SimpleHashMap}
use omni_file_system.HashMap.View.{IsValid, insert-refines, clear-refines}
use omni_file_system.Types.{MetaEntry}
use omni_file_system.Instance.{FsInstance, entry?}
use omni_file_system.Paths.{build_full_path_from_meta, index_entries, rebuild_path_index}

-- Entry `k` is in use and has the path `p`.
pub record HasPath (es : List MetaEntry) (p : Bytes) (k : ℕ) : Type 0 where
  pub entry : MetaEntry
  pub there : entry? es k ≡ some entry
  pub used : entry.valid ≡ 0
  pub path : build_full_path_from_meta es k ≡ p

-- `o` is the last of the first `n` entries with the path `p`, and `none` if there is none.
abbrev pub LastUpTo : List MetaEntry → ℕ → Bytes → Option ℕ → Type 0
LastUpTo es n p none = (k : ℕ) → k ≤ n → ¬ HasPath es p k
LastUpTo es n p (some i) = (i ≤ n) × HasPath es p i × ((k : ℕ) → k ≤ n → HasPath es p k → k ≤ i)

module _ (es : List MetaEntry) where
  unchanged :
      (n : ℕ) (p : Bytes) (o : Option ℕ)
      → ¬ HasPath es p (suc n)
      → LastUpTo es n p o
      → LastUpTo es (suc n) p o
  unchanged n p none miss l = λ k le h. elim (Bool-cases (k == suc n)) [
    | inl last ↦ miss (subst (HasPath es p) ((==_iff k (suc n)).0 last) h)
    | inr other ↦ l k (ground arith) h
  ]
  unchanged n p (some i) miss l = (
    omega arith,
    l.1,
    λ k le h. elim (Bool-cases (k == suc n)) [
      | inl last ↦ absurd (miss (subst (HasPath es p) ((==_iff k (suc n)).0 last) h))
      | inr other ↦ l.2 k (ground arith) h
    ],
  )

  added :
      (n : ℕ) (e : MetaEntry)
      → get_elem? es n ≡ some e
      → e.valid ≡ 0
      → (q : Bytes) (o : Option ℕ) → LastUpTo es n q o
      → LastUpTo es
          (suc n)
          q
          (if eq_bytes (build_full_path_from_meta es (suc n)) q then some (suc n) else o)
  added n e here used q o l =
      let path = build_full_path_from_meta es (suc n) in
      elim (Bool-cases (eq_bytes path q)) [
        | inl same ↦ rw same (
          omega arith,
          record { entry = e; there = here; used = used; path = (eq_bytes_iff path q).0 same },
          λ k le h. le,
        )
        | inr other ↦
            rw other (unchanged n q o (λ h. absurd (cc (other, (eq_bytes_iff path q).1 h.path))) l)
      ]

  -- The rest of the entries, from index `n` (from 0) on.
  abbrev Rest : List MetaEntry → ℕ → Type 0
  Rest rest n = (j : ℕ) → get_elem? rest j ≡ get_elem? es (n + j)

  index_entries-LastUpTo :
      (rest : List MetaEntry) (n : ℕ) (m : SimpleHashMap ℕ)
      → IsValid m
      → Rest rest n
      → ((p : Bytes) → LastUpTo es n p (HashMap.find m p))
      → (p : Bytes) → LastUpTo es (n + length rest) p (HashMap.find (index_entries es rest n m) p)
  unfolding index_entries
  index_entries-LastUpTo [] n m v tail l p = let z : n + 0 ≡ n = omega arith in rw z (l p)
  index_entries-LastUpTo (e ∷ rest) n m v tail l p =
      let here : get_elem? es n ≡ some e =
        (let z : n + 0 ≡ n = omega arith in rw z at (sym (tail 0))) in
      let one : n + 1 ≡ suc n = omega arith in
      let path = build_full_path_from_meta es (suc n) in
      let tail' =
        λ (j : ℕ). let z : n + suc j ≡ suc n + j = omega arith in rw z at (tail (suc j)) in
      let z : n + suc (length rest) ≡ suc n + length rest = omega arith in
      rw (one, z)
        (elim (Bool-cases (e.valid == 0)) [
          | inl used ↦
              let r = insert-refines m path (suc n) v in
              rw used (
                index_entries-LastUpTo rest (suc n) (HashMap.insert m path (suc n)).1 r.0 tail'
                  (λ q.
                    rw (r.3 q)
                      (added n e here ((==_iff e.valid 0).0 used) q (HashMap.find m q) (l q)))
                  p)
          | inr free ↦ rw free (
              index_entries-LastUpTo rest (suc n) m v tail'
                (λ q.
                  unchanged n q (HashMap.find m q)
                    (λ h. absurd (ground (arith, h.there, h.used, here))) (l q))
                p)
        ])

no_entry : (es : List MetaEntry) (q : Bytes) (k : ℕ) → k ≤ 0 → ¬ HasPath es q k
no_entry es q zero le h = cc (h.there)
no_entry es q (suc k) le h = absurd (omega arith)

-- If the path index is well formed, then after `rebuild_path_index` it sends each path to the
-- last entry in use whose full path it is, and a path that no entry in use has to nothing.
pub find-rebuild_path_index :
    (inst : FsInstance) (p : Bytes)
    → IsValid inst.path_index
    → LastUpTo inst.meta_entries
        (length inst.meta_entries)
        p
        (HashMap.find (rebuild_path_index inst).path_index p)
unfolding rebuild_path_index
find-rebuild_path_index inst p v =
    let es = inst.meta_entries in
    let (v', size, empty) = clear-refines inst.path_index v in
    let z : 0 + length es ≡ length es = omega arith in
    rw z at (
      index_entries-LastUpTo es es 0 (HashMap.clear inst.path_index) v'
        (λ j. let w : 0 + j ≡ j = omega arith in rw w) (λ q. rw (empty q) (no_entry es q)) p)
