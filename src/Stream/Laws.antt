-- ===== src/Stream/Laws.antt =====
-- What transfers on a sound stream do to the file, and how they leave other bytes alone.
use omni_file_system.Prelude.{
  ℕ, zero, suc, ◌+◌, ◌-◌, ◌≤◌, ◌<◌, ◌≡◌, refl, ◌⊎◌, false, [], ◌∷◌, ◌++◌, arith, length, get_or, ap,
  length-append, get_or-append_left, ◌∙◌, get_or-append_right, le→leb, true, sym, take-append_left,
  take, drop-append_left, drop,
}
use omni_file_system.Prelude.Bytes.{Bytes}
use omni_file_system.Stream.{
  Fstream, IoState, read_at, splice, seekg, seekp, write, flush, read, is_good,
}

-- The stream is good and the device refuses nothing.
pub record IsSound (f : Fstream) : Type 0 where
  pub is_good_state : f.state ≡ IoState.good
  pub reliable : (n : ℕ) → f.faults n ≡ false

pub read_at-congr :
    (f g : ℕ → ℕ) (p q n : ℕ)
    → ((i : ℕ) → i < n → f (p + i) ≡ g (q + i))
    → read_at f p n ≡ read_at g q n
unfolding read_at
read_at-congr f g p q zero h = refl
read_at-congr f g p q (suc n) h =
    let e : f p ≡ g q = ground (arith, h 0) in
    rw (e, read_at-congr f g (suc p) (suc q) n (λ i lt. ground (arith, h (suc i))))

pub length-read_at : (f : ℕ → ℕ) (p n : ℕ) → length (read_at f p n) ≡ n
unfolding read_at
length-read_at f p zero = refl
length-read_at f p (suc n) = ap suc (length-read_at f (suc p) n)

pub read_at-get_or : (xs : Bytes) → read_at (λ q. get_or xs q 0) 0 (length xs) ≡ xs
unfolding read_at
read_at-get_or [] = refl
read_at-get_or (x ∷ xs) =
    let ys = x ∷ xs in
    let e =
      read_at-congr (λ q. get_or ys q 0) (λ q. get_or xs q 0) 1 0 (length xs)
        (λ i lt.
          let z : 1 + i ≡ suc i = omega arith in let w : 0 + i ≡ i = omega arith in rw (z, w)) in
    rw (e, read_at-get_or xs)

module _ (f : ℕ → ℕ) (p : ℕ) (xs : Bytes) where
  -- What was written is read back.
  pub read_at-splice_self : read_at (splice f p xs) p (length xs) ≡ xs
  unfolding splice
  read_at-splice_self =
      read_at-congr (splice f p xs) (λ q. get_or xs q 0) p 0 (length xs) (λ i lt. ground arith)
      ∙ read_at-get_or xs

  -- Bytes outside the written range read as before.
  pub read_at-splice_apart :
      (q n : ℕ) → (q + n ≤ p) ⊎ (p + length xs ≤ q) → read_at (splice f p xs) q n ≡ read_at f q n
  unfolding splice
  read_at-splice_apart q n h = read_at-congr (splice f p xs) f q q n (λ i lt. ground arith)

  -- A write goes on where the one before it ended.
  pub splice-splice :
      (ys : Bytes) (q : ℕ) → splice (splice f p xs) (p + length xs) ys q ≡ splice f p (xs ++ ys) q
  unfolding splice
  splice-splice ys q =
      let z : p + length xs ≤ q → length xs + (q - (p + length xs)) ≡ q - p = omega arith in
      ground (
        arith,
        z,
        length-append xs ys,
        get_or-append_left xs ys (q - p) 0,
        get_or-append_right xs ys (q - (p + length xs)) 0,
      )

-- `g` is the sound stream `f` after `xs` was written at `p`.
pub record Wrote (p : ℕ) (xs : Bytes) (f g : Fstream) : Type 0 where
  pub sound : IsSound g
  pub bytes : (q : ℕ) → g.byte q ≡ splice f.byte p xs q
  pub grows : f.extent ≤ g.extent
  pub reaches : p + length xs ≤ g.extent
  pub position : g.position ≡ p + length xs

-- `g` is a sound stream over the file of `f`.
pub record SameFile (f g : Fstream) : Type 0 where
  pub sound : IsSound g
  pub bytes : g.byte ≡ f.byte
  pub extent : g.extent ≡ f.extent

pub seekp-SameFile : (p : ℕ) {f : Fstream} → IsSound f → SameFile f (seekp p f)
unfolding seekp
seekp-SameFile p {f} v = rw (v.is_good_state) (record {
  sound = record { is_good_state = refl; reliable = v.reliable };
  bytes = refl;
  extent = refl;
})

pub seekp-position : (p : ℕ) {f : Fstream} → IsSound f → (seekp p f).position ≡ p
unfolding seekp
seekp-position p v = rw (v.is_good_state)

pub seekg-SameFile : (p : ℕ) {f : Fstream} → IsSound f → SameFile f (seekg p f)
unfolding seekg
seekg-SameFile p {f} v = rw (v.is_good_state) (record {
  sound = record { is_good_state = refl; reliable = v.reliable };
  bytes = refl;
  extent = refl;
})

pub seekg-position : (p : ℕ) {f : Fstream} → IsSound f → (seekg p f).position ≡ p
unfolding seekg
seekg-position p v = rw (v.is_good_state)

pub write-Wrote :
    (xs : Bytes) {f : Fstream} → IsSound f → 0 < length xs → Wrote f.position xs f (write xs f)
unfolding write
write-Wrote [] v h = absurd (omega arith)
write-Wrote (x ∷ xs) {f} v h =
    rw (v.is_good_state, v.reliable f.clock)
      (record {
        sound = record { is_good_state = refl; reliable = v.reliable };
        bytes = λ q. refl;
        grows = omega arith;
        reaches = omega arith;
        position = refl;
      })

pub flush-Wrote : {p : ℕ} {xs : Bytes} {f g : Fstream} → Wrote p xs f g → Wrote p xs f (flush g)
unfolding flush
flush-Wrote {g} w =
    rw (w.sound.is_good_state, w.sound.reliable g.clock)
      (record {
        sound = record { is_good_state = refl; reliable = w.sound.reliable };
        bytes = w.bytes;
        grows = w.grows;
        reaches = w.reaches;
        position = w.position;
      })

splice-congr :
    (f g : ℕ → ℕ) (p : ℕ) (xs : Bytes)
    → ((q : ℕ) → f q ≡ g q)
    → (q : ℕ) → splice f p xs q ≡ splice g p xs q
unfolding splice
splice-congr f g p xs h q = ground (arith, h q)

-- Two writes in a row are one.
pub Wrote-append :
    {p : ℕ} {xs ys : Bytes} {f g h : Fstream}
    → Wrote p xs f g
    → Wrote g.position ys g h
    → Wrote p (xs ++ ys) f h
Wrote-append {p} {xs} {ys} {f} {g} {h} a b = record {
  sound = b.sound;
  bytes = λ q.
      b.bytes q
      ∙ splice-congr g.byte (splice f.byte p xs) g.position ys a.bytes q
      ∙ rw (a.position) (splice-splice f.byte p xs ys q);
  grows = omega (arith, a.grows, b.grows);
  reaches = omega (arith, length-append xs ys, a.position, b.reaches);
  position = omega (arith, length-append xs ys, a.position, b.position);
}

-- A read inside the file returns its bytes and goes on behind them.
pub read-inside :
    (n : ℕ) {f : Fstream}
    → IsSound f
    → f.position + n ≤ f.extent
    → ((read n f).0 ≡ read_at f.byte f.position n)
      × SameFile f (read n f).1
      × ((read n f).1.position ≡ f.position + n)
unfolding read
read-inside n {f} v h =
    rw (v.is_good_state, v.reliable f.clock, le→leb (f.position + n) f.extent h)
      (
        refl,
        record {
          sound = record { is_good_state = refl; reliable = v.reliable };
          bytes = refl;
          extent = refl;
        },
        refl,
      )

-- Reading where `g` wrote, and beside it.
module _ {p : ℕ} {xs : Bytes} {f g : Fstream} (w : Wrote p xs f g) where
  pub read_at-Wrote_self : read_at g.byte p (length xs) ≡ xs
  read_at-Wrote_self =
      read_at-congr g.byte (splice f.byte p xs) p p (length xs) (λ i lt. w.bytes (p + i))
      ∙ read_at-splice_self f.byte p xs

  pub read_at-Wrote_apart :
      (q n : ℕ) → (q + n ≤ p) ⊎ (p + length xs ≤ q) → read_at g.byte q n ≡ read_at f.byte q n
  read_at-Wrote_apart q n h =
      read_at-congr g.byte (splice f.byte p xs) q q n (λ i lt. w.bytes (q + i))
      ∙ read_at-splice_apart f.byte p xs q n h

pub is_good-IsSound : {f : Fstream} → IsSound f → is_good f.state ≡ true
is_good-IsSound v = ap is_good v.is_good_state

-- What was written after a seek was written to the file before it.
pub Wrote-SameFile :
    {p : ℕ} {xs : Bytes} {f g h : Fstream} → SameFile f g → Wrote p xs g h → Wrote p xs f h
Wrote-SameFile {p} {xs} {f} {g} s w = record {
  sound = w.sound;
  bytes = λ q. rw (s.bytes) at (w.bytes q);
  grows = omega (arith, s.extent, w.grows);
  reaches = w.reaches;
  position = w.position;
}

pub Wrote-at : {p q : ℕ} {xs : Bytes} {f g : Fstream} → p ≡ q → Wrote p xs f g → Wrote q xs f g
Wrote-at e w = rw (← e) w

pub SameFile-trans : {f g h : Fstream} → SameFile f g → SameFile g h → SameFile f h
SameFile-trans a b = record {
  sound = b.sound;
  bytes = b.bytes ∙ a.bytes;
  extent = b.extent ∙ a.extent;
}

pub read_at-append :
    (f : ℕ → ℕ) (p m n : ℕ) → read_at f p (m + n) ≡ read_at f p m ++ read_at f (p + m) n
unfolding read_at
read_at-append f p zero n =
    let z : 0 + n ≡ n = omega arith in let w : p + 0 ≡ p = omega arith in rw (z, w)
read_at-append f p (suc m) n =
    let z : suc m + n ≡ suc (m + n) = omega arith in
    let w : suc p + m ≡ p + suc m = omega arith in rw (z, read_at-append f (suc p) m n, w)

-- The two parts of a range whose bytes are known.
module _ (f : ℕ → ℕ) (p m n : ℕ) (xs ys : Bytes) where
  pub read_at-parts :
      read_at f p (m + n) ≡ xs ++ ys
      → length xs ≡ m
      → (read_at f p m ≡ xs) × (read_at f (p + m) n ≡ ys)
  read_at-parts e h =
      let k = length-read_at f p m in
      let a = read_at f p m in
      let b = read_at f (p + m) n in
      let s : a ++ b ≡ xs ++ ys = sym (read_at-append f p m n) ∙ e in
      (
        sym (take-append_left m a b k) ∙ ap (take m) s ∙ take-append_left m xs ys h,
        sym (drop-append_left m a b k) ∙ ap (drop m) s ∙ drop-append_left m xs ys h,
      )

pub SameFile-refl : {f : Fstream} → IsSound f → SameFile f f
SameFile-refl v = record { sound = v; bytes = refl; extent = refl }
