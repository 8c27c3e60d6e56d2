-- ===== src/Directory/Slots.antt =====
-- `find_free_meta_index`: the entry that it names is free.
use omni_file_system.Prelude.{
  ℕ, zero, suc, ◌-◌, ◌≤◌, ◌<◌, ◌≡◌, refl, Bool-cases, false, inl, inr, some, List, [], ◌∷◌, arith,
  ◌==◌, get_elem?,
}
use omni_file_system.Types.{MetaEntry}
use omni_file_system.Instance.{FsInstance, entry?}
use omni_file_system.Directory.{find_free_from, find_free_meta_index}

find_free_from-some :
    (es : List MetaEntry) (i k : ℕ)
    → find_free_from es i ≡ suc k
    → (i ≤ k) × (e : MetaEntry) × (get_elem? es (k - i) ≡ some e) × ((e.valid == 0) ≡ false)
unfolding find_free_from
find_free_from-some [] i k h = absurd (omega arith)
find_free_from-some (e ∷ es) i k h = elim (Bool-cases (e.valid == 0)) [
  | inr free ↦
      let here : i ≡ k = ground (arith, h, free) in
      let z : k - i ≡ 0 = omega arith in (omega arith, e, rw z refl, free)
  | inl used ↦
      let next : find_free_from es (suc i) ≡ suc k = ground (arith, h, used) in
      let (le, e', there, free) = find_free_from-some es (suc i) k next in
      let z : k - i ≡ suc (k - suc i) = omega arith in (omega arith, e', rw z there, free)
]

-- A nonzero result is the number of an entry that is not in use.
pub find_free_meta_index-some :
    (inst : FsInstance) (k : ℕ)
    → find_free_meta_index inst ≡ k
    → 0 < k
    → (e : MetaEntry) × (entry? inst.meta_entries k ≡ some e) × ((e.valid == 0) ≡ false)
unfolding find_free_meta_index
find_free_meta_index-some inst zero h pos = absurd (omega arith)
find_free_meta_index-some inst (suc k) h pos =
    let (le, e, there, free) = find_free_from-some inst.meta_entries 0 k h in
    let z : k - 0 ≡ k = omega arith in (e, rw z at there, free)
