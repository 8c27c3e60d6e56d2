-- ===== src/Files/Cut.antt =====
-- A chain of blocks that is ended earlier carries the start of its content.
use omni_file_system.Prelude.{
  ℕ, zero, suc, ◌+◌, ◌-◌, ◌*◌, ◌≤◌, ◌<◌, ◌≡◌, refl, ap, ◌∙◌, Bool-cases, true, false, inl, inr,
  List, [], ◌∷◌, arith, length, take, drop, take-take, drop_all, drop-take, take-append_within,
  take-map, length-take, length-drop, replicate, ◌≢◌, take-length-take,
}
use omni_file_system.Prelude.Bytes.{Bytes}
use omni_file_system.Prelude.Words.{from_le}
use omni_file_system.Prelude.Preds.{has}
use omni_file_system.Stream.{Fstream, read_at}
use omni_file_system.Blocks.{BlockRead, filled}
use omni_file_system.Codec.{encode_data, encoding_initialized}
use omni_file_system.Files.Truncate.{last_of}
use omni_file_system.Files.Chunks.{IsRegion, position, length-encode_data, Holds}
use omni_file_system.Files.Carry.{Carries}

take-encode_data :
    (encoding_map : Bytes) (k : ℕ) (xs : Bytes)
    → take k (encode_data encoding_map xs) ≡ encode_data encoding_map (take k xs)
unfolding encode_data
take-encode_data encoding_map k xs = elim (Bool-cases (encoding_initialized encoding_map)) [
  | inl on ↦ rw on (take-map k xs _)
  | inr off ↦ rw off refl
]

-- The bytes of a block that a shorter content needs.
start_of_block :
    (encoding_map : Bytes) (p n : ℕ) (content : Bytes)
    → let chunk = take p (take n content) in
      take (length chunk) (filled p (encode_data encoding_map (take p content)))
      ≡ encode_data encoding_map chunk
start_of_block encoding_map p n content =
    let c = take p content in
    let enc = encode_data encoding_map c in
    let within : length (take n c) ≤ length enc =
      omega (arith, length-encode_data encoding_map c, length-take n c) in
    rw (take-take p n content) (
      take-append_within (length (take n c)) enc (replicate (p - length enc) 0) within
      ∙ take-encode_data encoding_map (length (take n c)) c
      ∙ ap (encode_data encoding_map) (take-length-take n c))

-- No block occurs twice.
abbrev pub IsDistinct : List ℕ → Type 0
IsDistinct [] = Unit
IsDistinct (b ∷ bs) = (has bs b ≡ false) × IsDistinct bs

has-last_of : (b : ℕ) (bs : List ℕ) (k : ℕ) → has (b ∷ bs) (last_of b (take k bs)) ≡ true
unfolding has last_of
has-last_of b bs zero = ground arith
has-last_of b [] (suc k) = ground arith
has-last_of b (c ∷ bs) (suc k) = ground (arith, has-last_of c bs k)

times_suc : (k n : ℕ) → suc k * n ≡ n + k * n
times_suc k n = grind arith

times_one : (n : ℕ) → 1 * n ≡ n
times_one n = omega arith

module _ {region size blocks : ℕ} (r : IsRegion region size blocks) where
  -- The file of `h` is that of `f` but for links: block `last` ends its chain, and the others go on
  -- as before.
  pub record CutAt (last : ℕ) (f h : Fstream) : Type 0 where
    pub grows : f.extent ≤ h.extent
    pub payloads :
        (j : ℕ)
        → 0 < j
        → j ≤ blocks
        → read_at h.byte (position r j + 4) (size - 4)
          ≡ read_at f.byte (position r j + 4) (size - 4)
    pub links :
        (j : ℕ)
        → 0 < j
        → j ≤ blocks
        → last ≢ j
        → read_at h.byte (position r j) 4 ≡ read_at f.byte (position r j) 4
    pub ended : from_le (read_at h.byte (position r last) 4) ≡ 0

  pub Carries-cut :
      (encoding_map : Bytes) (q b : ℕ) (bs : List ℕ) (content : Bytes) (n : ℕ) (f h : Fstream)
      → Holds r encoding_map f (b ∷ bs) content
      → IsDistinct (b ∷ bs)
      → CutAt (last_of b (take q bs)) f h
      → 0 < n
      → n ≤ length content
      → n ≤ suc q * (size - 4)
      → suc q * (size - 4) < n + (size - 4)
      → Carries r encoding_map h (take (suc q) (b ∷ bs)) (take n content)
  unfolding last_of
  Carries-cut encoding_map zero b bs content n f h (pos, le, left, inside, image, more) (new, apart)
        cut some_left short up down =
      let grows = cut.grows in
      let payload = cut.payloads b pos le ∙ ap (λ (x : BlockRead). x.payload) image in
      (
        pos,
        le,
        omega (arith, length-take n content),
        omega arith,
        cut.ended,
        rw payload (start_of_block encoding_map (size - 4) n content),
        drop_all (size - 4) (take n content)
            (omega (arith, length-take n content, times_one (size - 4))),
      )
  Carries-cut encoding_map (suc q) b [] content n f h (pos, le, left, inside, image, more)
        (new, apart) cut some_left short up down =
      let gone = ap (λ (t : Bytes). length t) more in
      let two = times_suc (suc q) (size - 4) in
      let one = times_suc q (size - 4) in
      absurd (omega (arith, length-drop (size - 4) content, gone, one, two))
  Carries-cut encoding_map (suc q) b (c ∷ bs) content n f h (pos, le, left, inside, image, more)
        (new, apart) cut some_left short up down =
      let grows = cut.grows in
      let ne : last_of c (take q bs) ≢ b =
        λ e. let found = has-last_of c bs q in let found' = (rw e at found) in cc in
      let two = times_suc (suc q) (size - 4) in
      let one = times_suc q (size - 4) in
      let n_pos : 0 < n - (size - 4) = omega (arith, one, two) in
      let n_short : n - (size - 4) ≤ length (drop (size - 4) content) =
        omega (arith, length-drop (size - 4) content) in
      let n_up : n - (size - 4) ≤ suc q * (size - 4) = omega (arith, two) in
      let n_down : suc q * (size - 4) < n - (size - 4) + (size - 4) = omega (arith, one, two) in
      let payload = cut.payloads b pos le ∙ ap (λ (x : BlockRead). x.payload) image in
      let link = ap from_le (cut.links b pos le ne) ∙ ap (λ (x : BlockRead). x.next) image in
      let e = drop-take (size - 4) n content in
      (
        pos,
        le,
        omega (arith, length-take n content),
        omega arith,
        link,
        rw payload (start_of_block encoding_map (size - 4) n content),
        rw e (
            Carries-cut encoding_map q c bs (drop (size - 4) content) (n - (size - 4)) f h more
              apart cut n_pos n_short n_up n_down),
      )
