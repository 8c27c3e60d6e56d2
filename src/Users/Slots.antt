-- ===== src/Users/Slots.antt =====
-- The slots of the user table: the first free one, and switching one off.
use omni_file_system.Prelude.{
  ℕ, zero, suc, ◌-◌, ◌≤◌, ◌<◌, ◌≡◌, ◌≢◌, refl, ap, Bool-cases, inl, inr, some, List, [], ◌∷◌, arith,
  length, get_elem?, ◌==◌, ==_iff,
}
use omni_file_system.Types.{UserInfo}
use omni_file_system.Users.{free_slot, deactivate}

-- `free_slot` returns an inactive user of the table.
pub free_slot-some :
    (us : List UserInfo) (i k : ℕ)
    → free_slot us i ≡ some k
    → (i ≤ k) × (u : UserInfo) × (get_elem? us (k - i) ≡ some u) × (u.is_active ≡ 0)
unfolding free_slot
free_slot-some [] i k e = cc
free_slot-some (u ∷ us) i k e = elim (Bool-cases (u.is_active == 0)) [
  | inl free ↦
      let same : i ≡ k = ground arith in
      let z : k - i ≡ 0 = omega arith in (omega arith, u, rw z, (==_iff u.is_active 0).0 free)
  | inr used ↦
      let (le, v, at, off) = free_slot-some us (suc i) k (rw used at e) in
      let z : k - i ≡ suc (k - suc i) = omega arith in (omega arith, v, rw z at, off)
]

pub get_elem?-length :
    (us : List UserInfo) (i : ℕ) (u : UserInfo) → get_elem? us i ≡ some u → i < length us
get_elem?-length [] i u e = cc
get_elem?-length (x ∷ us) zero u e = omega arith
get_elem?-length (x ∷ us) (suc i) u e = omega (arith, get_elem?-length us i u e)

pub get_elem?-deactivate_self :
    (us : List UserInfo) (i : ℕ) (u : UserInfo)
    → get_elem? us i ≡ some u
    → get_elem? (deactivate us i) i ≡ some (record u { is_active = 0 })
get_elem?-deactivate_self [] i u e = cc
get_elem?-deactivate_self (x ∷ us) zero u e = cc
get_elem?-deactivate_self (x ∷ us) (suc i) u e = get_elem?-deactivate_self us i u e

pub get_elem?-deactivate_ne :
    (us : List UserInfo) (i j : ℕ) → i ≢ j → get_elem? (deactivate us i) j ≡ get_elem? us j
get_elem?-deactivate_ne [] i j h = refl
get_elem?-deactivate_ne (x ∷ us) zero zero h = absurd (h refl)
get_elem?-deactivate_ne (x ∷ us) zero (suc j) h = refl
get_elem?-deactivate_ne (x ∷ us) (suc i) zero h = refl
get_elem?-deactivate_ne (x ∷ us) (suc i) (suc j) h =
    get_elem?-deactivate_ne us i j (λ e. h (ap suc e))
