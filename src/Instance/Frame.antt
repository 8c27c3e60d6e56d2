-- ===== src/Instance/Frame.antt =====
-- What a write leaves alone.
use omni_file_system.Prelude.{ℕ, ◌+◌, ◌≤◌, ◌<◌, ◌≡◌, ◌⊎◌, inr, ◌∙◌, true, arith, length}
use omni_file_system.Prelude.Bytes.{Bytes}
use omni_file_system.Stream.{Fstream, splice}
use omni_file_system.Stream.Laws.{
  IsSound, Wrote, seekp-SameFile, seekp-position, write-Wrote, flush-Wrote, Wrote-at,
  Wrote-SameFile, is_good-IsSound,
}
use omni_file_system.Instance.Persist.{persist_at}

-- Bytes outside a written range stay.
pub Wrote-byte :
    {p : ℕ} {xs : Bytes} {f g : Fstream}
    → Wrote p xs f g
    → (q : ℕ) → (q < p) ⊎ (p + length xs ≤ q)
    → g.byte q ≡ f.byte q
unfolding splice
Wrote-byte w q h = w.bytes q ∙ ground arith

-- A table goes to its place as a whole.
pub persist_at-Wrote :
    (p : ℕ) (image : Bytes) {f : Fstream}
    → IsSound f
    → 0 < length image
    → ((persist_at p image f).0 ≡ true) × Wrote p image f (persist_at p image f).1
unfolding persist_at
persist_at-Wrote p image v some_bytes =
    let same = seekp-SameFile p v in
    let w = flush-Wrote (write-Wrote image same.sound some_bytes) in
    let done = Wrote-at (seekp-position p v) (Wrote-SameFile same w) in
    rw (is_good-IsSound same.sound) (is_good-IsSound done.sound, done)

-- From `region` on the file of `g` is that of `f`, and it has not shrunk.
pub record KeepsRegion (region : ℕ) (f g : Fstream) : Type 0 where
  pub sound : IsSound g
  pub grows : f.extent ≤ g.extent
  pub beyond : (q : ℕ) → region ≤ q → g.byte q ≡ f.byte q

pub KeepsRegion-trans :
    {region : ℕ} {f g h : Fstream}
    → KeepsRegion region f g
    → KeepsRegion region g h
    → KeepsRegion region f h
KeepsRegion-trans a b = record {
  sound = b.sound;
  grows = omega (arith, a.grows, b.grows);
  beyond = λ q le. b.beyond q le ∙ a.beyond q le;
}

pub Wrote-KeepsRegion :
    {region p : ℕ} {xs : Bytes} {f g : Fstream}
    → p + length xs ≤ region
    → Wrote p xs f g
    → KeepsRegion region f g
Wrote-KeepsRegion le w = record {
  sound = w.sound;
  grows = w.grows;
  beyond = λ q far. Wrote-byte w q (inr (omega arith));
}
