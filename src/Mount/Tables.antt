-- ===== src/Mount/Tables.antt =====
-- Tables in the container: what was written is read into the vectors again.
use mathlib.Core.List.{flatten, append-nil}
use omni_file_system.Prelude.{
  ℕ, suc, ◌+◌, ◌*◌, ◌≤◌, ◌≡◌, refl, ◌∙◌, ◌⊎◌, List, [], ◌∷◌, map, arith, length, drop_all,
  length-append, take-append_left, drop-append_left,
}
use omni_file_system.Prelude.Bytes.{Bytes}
use omni_file_system.Prelude.Preds.{All}
use omni_file_system.Stream.{Fstream, read_at, read, seekg}
use omni_file_system.Stream.Laws.{
  SameFile, SameFile-trans, Wrote, read_at-Wrote_self, read_at-Wrote_apart, read-inside,
  seekg-SameFile, seekg-position,
}
use omni_file_system.Mount.{read_over, elements}

-- The file has the bytes `xs` at `p`.
pub record Shows (f : Fstream) (p : ℕ) (xs : Bytes) : Type 0 where
  pub inside : p + length xs ≤ f.extent
  pub bytes : read_at f.byte p (length xs) ≡ xs

pub Wrote-Shows : {p : ℕ} {xs : Bytes} {f g : Fstream} → Wrote p xs f g → Shows g p xs
Wrote-Shows w = record { inside = w.reaches; bytes = read_at-Wrote_self w }

-- A write elsewhere leaves them.
pub Wrote-Shows_apart :
    {p q : ℕ} {xs ys : Bytes} {f g : Fstream}
    → Wrote p xs f g
    → (q + length ys ≤ p) ⊎ (p + length xs ≤ q)
    → Shows f q ys
    → Shows g q ys
Wrote-Shows_apart {q = q} {ys = ys} w apart s = record {
  inside = omega (arith, w.grows, s.inside);
  bytes = read_at-Wrote_apart w q (length ys) apart ∙ s.bytes;
}

pub read_over-Shows :
    (memory : Bytes) (p : ℕ) (xs : Bytes) {f g : Fstream}
    → SameFile f g
    → Shows f p xs
    → length memory ≡ length xs
    → ((read_over memory p g).0 ≡ xs) × SameFile f (read_over memory p g).1
unfolding read_over
read_over-Shows memory p xs {f} {g} same s size =
    let moved = seekg-SameFile p same.sound in
    let at = seekg-position p same.sound in
    let (e, kept, next) =
      read-inside (length memory) moved.sound
        (omega (arith, at, moved.extent, same.extent, s.inside, size)) in
    let got : (read (length memory) (seekg p g)).0 ≡ xs =
      e ∙ rw (at, moved.bytes, same.bytes, size) (s.bytes) in
    let rest = drop_all (length xs) memory (omega (arith, size)) in
    (rw (got, rest) (append-nil xs), SameFile-trans same (SameFile-trans moved kept))

-- A vector whose elements have images of one size.
pub elements-images {ℓ κ} :
    {A : Type ℓ} (P : A → Type κ) (of : Bytes → A) (image : A → Bytes) (size : ℕ) (xs : List A)
    → ((x : A) → P x → of (image x) ≡ x)
    → ((x : A) → P x → length (image x) ≡ size)
    → All P xs
    → elements of size (length xs) (flatten (map image xs)) ≡ xs
unfolding elements flatten
elements-images P of image size [] back len h = refl
elements-images P of image size (x ∷ xs) back len h =
    let rest = flatten (map image xs) in
    let first = take-append_left size (image x) rest (len x h.0) in
    let others = drop-append_left size (image x) rest (len x h.0) in
    rw (first, others, back x h.0, elements-images P of image size xs back len h.1) refl

pub length-images {ℓ κ} :
    {A : Type ℓ} (P : A → Type κ) (image : A → Bytes) (size : ℕ) (xs : List A)
    → ((x : A) → P x → length (image x) ≡ size)
    → All P xs
    → length (flatten (map image xs)) ≡ length xs * size
unfolding flatten
length-images P image size [] len h = omega arith
length-images P image size (x ∷ xs) len h =
    let rest = length-images P image size xs len h.1 in
    let e : suc (length xs) * size ≡ size + length xs * size = grind arith in
    omega (arith, length-append (image x) (flatten (map image xs)), len x h.0, rest, e)
