-- ===== src/Prelude/Preds.antt =====
-- Predicates on lists by recursion, which compute to tuples.
use mathlib.Core.Path.{subst, refl}
use omni_file_system.Prelude.{
  zero, suc, take, drop, ◌++◌, [], ◌∷◌, ℕ, arith, List, Bool, ◌<◌, ◌≡◌, ◌≤◌, false, true,
  Bool-cases, ◌==◌, inl, ◌||◌, ==_iff, inr,
}

-- Each element has the property.
abbrev pub All {ℓ κ} : {A : Type ℓ} → (A → Type κ) → List A → Type κ
All Q [] = Unit
All Q (a ∷ items) = Q a × All Q items

pub All-mono {ℓ κ} :
    {A : Type ℓ} (P Q : A → Type κ) (xs : List A) → ((x : A) → P x → Q x) → All P xs → All Q xs
All-mono P Q [] f h = tt
All-mono P Q (x ∷ xs) f h = (f x h.0, All-mono P Q xs f h.1)

module _ {ℓ κ} {A : Type ℓ} (Q : A → Type κ) where
  pub All-take : (k : ℕ) (items : List A) → All Q items → All Q (take k items)
  All-take zero items every = tt
  All-take (suc k) [] every = tt
  All-take (suc k) (a ∷ items) (first, rest) = (first, All-take k items rest)

  pub All-drop : (k : ℕ) (items : List A) → All Q items → All Q (drop k items)
  All-drop zero items every = every
  All-drop (suc k) [] every = tt
  All-drop (suc k) (a ∷ items) (first, rest) = All-drop k items rest

  pub All-append : (items others : List A) → All Q items → All Q others → All Q (items ++ others)
  All-append [] others every more = more
  All-append (a ∷ items) others (first, rest) more = (first, All-append items others rest more)

-- A list of numbers that rises, strictly above `lo` and up to `hi`.
abbrev pub Ascending : ℕ → ℕ → List ℕ → Type 0
Ascending lo hi [] = Unit
Ascending lo hi (x ∷ xs) = (lo < x) × (x ≤ hi) × Ascending x hi xs

pub Ascending-lower :
    (lo lo' hi : ℕ) (xs : List ℕ) → lo' ≤ lo → Ascending lo hi xs → Ascending lo' hi xs
Ascending-lower lo lo' hi [] h a = tt
Ascending-lower lo lo' hi (x ∷ xs) h a = (omega arith, a.1, a.2)

unfoldable pub has : List ℕ → ℕ → Bool
has [] y = false
has (x ∷ xs) y = x == y || has xs y

pub has-append : (xs ys : List ℕ) (y : ℕ) → has (xs ++ ys) y ≡ (has xs y || has ys y)
unfolding has
has-append [] ys y = refl
has-append (x ∷ xs) ys y = ground (arith, has-append xs ys y)

pub has-All : (P : ℕ → Type 0) (xs : List ℕ) (y : ℕ) → All P xs → has xs y ≡ true → P y
unfolding has
has-All P [] y h e = cc
has-All P (x ∷ xs) y h e = elim (Bool-cases (x == y)) [
  | inl same ↦ subst P ((==_iff x y).0 same) h.0
  | inr other ↦ has-All P xs y h.1 (rw other at e)
]

pub has-Ascending :
    (lo hi : ℕ) (xs : List ℕ) (y : ℕ) → Ascending lo hi xs → has xs y ≡ true → (lo < y) × (y ≤ hi)
unfolding has
has-Ascending lo hi [] y a e = cc
has-Ascending lo hi (x ∷ xs) y a e = ground (arith, has-Ascending x hi xs y)
