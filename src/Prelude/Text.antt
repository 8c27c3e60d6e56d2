-- ===== src/Prelude/Text.antt =====
-- Texts without NUL in fixed arrays: what a C string function reads back.
use omni_file_system.Prelude.{
  ℕ, zero, suc, ◌-◌, ◌≡◌, refl, [], ◌∷◌, ◌++◌, arith, length, take, replicate, eq-zero-suc, ◌<◌,
}
use mathlib.Core.List.{append-nil}
use omni_file_system.Prelude.Bytes.{Bytes, c_str, IsText, strncpy}

pub c_str-append_zeros : (s : Bytes) (k : ℕ) → IsText s → c_str (s ++ replicate k 0) ≡ s
unfolding c_str
c_str-append_zeros [] zero h = refl
c_str-append_zeros [] (suc k) h = refl
c_str-append_zeros (zero ∷ s) k h = absurd h
c_str-append_zeros (suc c ∷ s) k h = ground (arith, c_str-append_zeros s k h)

pub c_str_text : (s : Bytes) → IsText s → c_str s ≡ s
c_str_text s h = rw (append-nil) at (c_str-append_zeros s 0 h)

pub IsText-c_str : (s : Bytes) → IsText (c_str s)
unfolding c_str
IsText-c_str [] = tt
IsText-c_str (zero ∷ s) = tt
IsText-c_str (suc c ∷ s) = rw (eq-zero-suc c) (IsText-c_str s)

pub IsText-take : (n : ℕ) (s : Bytes) → IsText s → IsText (take n s)
IsText-take zero s h = tt
IsText-take (suc n) [] h = tt
IsText-take (suc n) (zero ∷ s) h = absurd h
IsText-take (suc n) (suc c ∷ s) h = IsText-take n s h

pub IsText-append : (s t : Bytes) → IsText s → IsText t → IsText (s ++ t)
IsText-append [] t h k = k
IsText-append (zero ∷ s) t h k = absurd h
IsText-append (suc c ∷ s) t h k = IsText-append s t h k

pub IsText-replicate : (n c : ℕ) → 0 < c → IsText (replicate n c)
IsText-replicate zero c h = tt
IsText-replicate (suc n) zero h = absurd (omega arith)
IsText-replicate (suc n) (suc c) h = IsText-replicate n (suc c) (omega arith)

-- An array of `n + 1` bytes keeps the first `n` bytes of a text.
pub c_str-strncpy : (n : ℕ) (s : Bytes) → IsText s → c_str (strncpy n s) ≡ take n s
unfolding strncpy
c_str-strncpy n s h =
    rw (c_str_text s h)
      (c_str-append_zeros (take n s) (suc n - length (take n s)) (IsText-take n s h))
