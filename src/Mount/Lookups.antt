-- ===== src/Mount/Lookups.antt =====
-- The indexes that `fs_init` builds again, against those that the instance had before `fs_shutdown`.
use omni_file_system.Prelude.{
  ℕ, suc, ◌+◌, ◌<◌, ◌≡◌, ◌≢◌, refl, sym, ap, ◌∙◌, Bool-cases, inl, inr, Option, Option-cases, none,
  some, List, [], ◌∷◌, arith, length, get_elem?, ◌==◌, ==_iff,
}
use omni_file_system.Prelude.Bytes.{Bytes, c_str, eq_bytes, eq_bytes_iff}
use omni_file_system.HashMap
use omni_file_system.HashMap.{SimpleHashMap}
use omni_file_system.HashMap.View.{IsValid, insert-refines, new-refines}
use omni_file_system.Types.{UserInfo, MetaEntry}
use omni_file_system.Users.Slots.{get_elem?-length}
use omni_file_system.Users.Accounts.{AreIndexed}
use omni_file_system.Paths.Index.{LastUpTo}
use omni_file_system.Mount.{index_users}

-- At most one value fits the description of the path index.
pub LastUpTo-unique :
    (es : List MetaEntry) (n : ℕ) (p : Bytes) (o r : Option ℕ)
    → LastUpTo es n p o
    → LastUpTo es n p r
    → o ≡ r
LastUpTo-unique es n p none none h k = refl
LastUpTo-unique es n p none (some j) h k = absurd (h j k.0 k.1)
LastUpTo-unique es n p (some i) none h k = absurd (k i h.0 h.1)
LastUpTo-unique es n p (some i) (some j) h k =
    let a = h.2 j k.0 k.1 in let b = k.2 i h.0 h.1 in ap some (omega arith)

module _ (users : List UserInfo) (old : SimpleHashMap ℕ) (v : AreIndexed users old) where
  -- `m` indexes the active users before slot `n`.
  record IndexedUpTo (n : ℕ) (m : SimpleHashMap ℕ) : Type 0 where
    pub valid : IsValid m
    pub listed :
        (name : Bytes) (i : ℕ) → HashMap.find m name ≡ some i → HashMap.find old name ≡ some i
    pub indexed :
        (i : ℕ) (u : UserInfo)
        → i < n
        → get_elem? users i ≡ some u
        → u.is_active ≢ 0
        → HashMap.find m (c_str u.username) ≡ some i

  skipped :
      (n : ℕ) (m : SimpleHashMap ℕ) (u : UserInfo)
      → get_elem? users n ≡ some u
      → u.is_active ≡ 0
      → IndexedUpTo n m
      → IndexedUpTo (suc n) m
  skipped n m u here off w = record {
    valid = w.valid;
    listed = w.listed;
    indexed = λ i x lt at on. elim (Bool-cases (i == n)) [
      | inl last ↦
          let e = (==_iff i n).0 last in
          let ux : u ≡ x = ground (arith, here, at, ap (get_elem? users) e) in
          absurd (on (ap (λ (t : UserInfo). t.is_active) (sym ux) ∙ off))
      | inr other ↦ w.indexed i x (ground arith) at on
    ];
  }

  added :
      (n : ℕ) (m : SimpleHashMap ℕ) (u : UserInfo)
      → get_elem? users n ≡ some u
      → u.is_active ≢ 0
      → IndexedUpTo n m
      → IndexedUpTo (suc n) (HashMap.insert m (c_str u.username) n).1
  added n m u here on w =
      let name = c_str u.username in
      let r = insert-refines m name n w.valid in
      let known = v.indexed n u here on in
      record {
        valid = r.0;
        listed = λ j i e. elim (Bool-cases (eq_bytes name j)) [
          | inl same ↦
              let n_is : n ≡ i = ground (arith, r.3 j) in
              ap (HashMap.find old) (sym ((eq_bytes_iff name j).0 same)) ∙ known ∙ ap some n_is
          | inr other ↦ w.listed j i (ground (arith, r.3 j))
        ];
        indexed = λ i x lt at x_on. elim (Bool-cases (i == n)) [
          | inl last ↦
              let e = (==_iff i n).0 last in
              let ux : u ≡ x = ground (arith, here, at, ap (get_elem? users) e) in
              let named : name ≡ c_str x.username = ap (λ (t : UserInfo). c_str t.username) ux in
              rw (r.3 (c_str x.username), (eq_bytes_iff name (c_str x.username)).1 named, e) refl
          | inr other ↦
              let found = w.indexed i x (ground arith) at x_on in
              elim (Bool-cases (eq_bytes name (c_str x.username))) [
                | inl same ↦
                    let k = ap (HashMap.find old) ((eq_bytes_iff name (c_str x.username)).0 same) in
                    absurd (ground (arith, known, v.indexed i x at x_on, k))
                | inr apart ↦ rw (r.3 (c_str x.username), apart) found
              ]
        ];
      }

  index_users-IndexedUpTo :
      (rest : List UserInfo) (n : ℕ) (m : SimpleHashMap ℕ)
      → ((j : ℕ) → get_elem? rest j ≡ get_elem? users (n + j))
      → IndexedUpTo n m
      → IndexedUpTo (n + length rest) (index_users rest n m)
  unfolding index_users
  index_users-IndexedUpTo [] n m tail w = let z : n + 0 ≡ n = omega arith in rw z w
  index_users-IndexedUpTo (u ∷ rest) n m tail w =
      let here : get_elem? users n ≡ some u =
        (let z : n + 0 ≡ n = omega arith in rw z at (sym (tail 0))) in
      let tail' =
        λ (j : ℕ). let z : n + suc j ≡ suc n + j = omega arith in rw z at (tail (suc j)) in
      let z : n + suc (length rest) ≡ suc n + length rest = omega arith in
      rw z (elim (Bool-cases (u.is_active == 0)) [
        | inl off ↦ rw off (
            index_users-IndexedUpTo rest (suc n) m tail'
              (skipped n m u here ((==_iff u.is_active 0).0 off) w))
        | inr on ↦ rw on (
            index_users-IndexedUpTo rest (suc n) (HashMap.insert m (c_str u.username) n).1 tail'
              (added n m u here (λ e. absurd (ground arith)) w))
      ])

  -- The index of users that `fs_init` builds finds what an index in step with the table finds.
  pub find-index_users :
      (hash : Bytes → ℕ) (name : Bytes)
      → HashMap.find (index_users users 0 (HashMap.new 101 hash)) name ≡ HashMap.find old name
  find-index_users hash name =
      let empty : SimpleHashMap ℕ = HashMap.new 101 hash in
      let (valid, size, nothing) = new-refines {V = ℕ} 101 hash (omega arith) in
      let w =
        index_users-IndexedUpTo users 0 empty (λ j. let z : 0 + j ≡ j = omega arith in rw z refl)
          (record {
            valid = valid;
            listed = λ j i e. absurd (cc (nothing j, e));
            indexed = λ i u lt. absurd (omega arith);
          }) in
      let built = index_users users 0 empty in
      elim (Option-cases (HashMap.find built name)) [
        | inr (i, found) ↦ found ∙ sym (w.listed name i found)
        | inl absent ↦ elim (Option-cases (HashMap.find old name)) [
          | inl missing ↦ absent ∙ sym missing
          | inr (i, there) ↦
              let (u, at, on, named) = v.listed name i there in
              let inside = get_elem?-length users i u at in
              let found = w.indexed i u (omega arith) at on in
              absurd (cc (absent, ap (HashMap.find built) named, found))
        ]
      ]
