-- ===== src/Directory/Listing.antt =====
-- `dir_add_child` and `dir_remove_child` against the list of children that `dir_block_read` returns.
use omni_file_system.Prelude.{
  ℕ, suc, ◌≤◌, ◌<◌, ◌≡◌, refl, ap, ◌∙◌, Bool, true, false, Bool-cases, Option-cases, inl, inr,
  Option, none, some, List, [], ◌∷◌, ◌++◌, arith, length, take, take_all, ==_zero_pos, ◌==◌,
  if◌then◌else◌,
}
use omni_file_system.Prelude.Preds.{All, All-append, has}
use omni_file_system.Stream.Laws.{IsSound, SameFile, Wrote, Wrote-SameFile}
use omni_file_system.Blocks.Laws.{IsPlaced, start}
use omni_file_system.Types.{MetaEntry}
use omni_file_system.Instance.{FsInstance, Outcome, ok, entry?}
use omni_file_system.Directory.{
  dir_block_read, payload_count, block_size_of, write_children, own_block, erase_first,
  dir_add_child, dir_remove_child,
}
use omni_file_system.Directory.Words.{IsIndex}
use omni_file_system.Directory.Block.{
  Lists, dir_image, dir_loop-Lists, write_children-Wrote, Lists-written, Lists-SameFile,
}

-- A mounted container: the device works, and blocks are of 8 bytes at least.
pub record IsMounted (inst : FsInstance) : Type 0 where
  pub sound : IsSound inst.file
  pub room : 8 ≤ block_size_of inst

-- The block `index` of the instance.
abbrev pub Placed : FsInstance → ℕ → Type 0
Placed inst index = IsPlaced inst.blocks_offset (block_size_of inst) index

own_block_taken :
    (parent : ℕ) (dir : MetaEntry) (inst : FsInstance) (index : ℕ)
    → dir.start_index ≡ index
    → 0 < index
    → own_block parent dir inst ≡ (ok index, inst)
unfolding own_block
own_block_taken parent dir inst index own pos =
    let used : dir.start_index == 0 ≡ false = ground arith in ground (arith, used)

-- The list without the first `v`.
unfoldable pub without : ℕ → List ℕ → List ℕ
without v [] = []
without v (c ∷ cs) = let rest = without v cs in if c == v then cs else c ∷ rest

erase_first-none :
    (v : ℕ) (cs : List ℕ) → erase_first v cs ≡ none → (has cs v ≡ false) × (without v cs ≡ cs)
unfolding erase_first without has
erase_first-none v [] e = (refl, refl)
erase_first-none v (c ∷ cs) e = elim (Bool-cases (c == v)) [
  | inl same ↦ absurd (ground (arith, same))
  | inr other ↦
      let missing : erase_first v cs ≡ none = ground (arith, other) in
      let (h, w) = erase_first-none v cs missing in rw (other, h, w) (refl, refl)
]

erase_first-some :
    (v : ℕ) (cs rest : List ℕ)
    → All IsIndex cs
    → erase_first v cs ≡ some rest
    → (has cs v ≡ true) × (without v cs ≡ rest) × All IsIndex rest × (length rest ≤ length cs)
unfolding erase_first without has
erase_first-some v [] rest idx e = absurd (ground arith)
erase_first-some v (c ∷ cs) rest idx e = elim (Bool-cases (c == v)) [
  | inl same ↦
      let is_tail : cs ≡ rest = ground (arith, same) in
      rw (same, ← is_tail) (refl, refl, idx.1, omega arith)
  | inr other ↦ elim (Option-cases (erase_first v cs)) [
    | inl missing ↦ absurd (ground (arith, other, missing))
    | inr (r, found) ↦
        let (h, w, idx', le) = erase_first-some v cs r idx.1 found in
        let is_rest : c ∷ r ≡ rest = ground (arith, other, found) in
        rw (other, h, w, ← is_rest) (refl, refl, (idx.0, idx'), omega arith)
  ]
]

module _ (fuel : ℕ) (inst : FsInstance) (m : IsMounted inst) (dir : MetaEntry) (index : ℕ)
    (p : Placed inst index) (own : dir.start_index ≡ index) (cs : List ℕ)
    (l : Lists p m.room inst.file cs) where
  -- `dir_block_read` returns the children.
  pub dir_block_read-Lists :
      let r = dir_block_read (suc (suc fuel)) dir inst in
      (r.0 ≡ ok (some cs)) × SameFile inst.file r.1.file × (r.1 ≡ record inst { file = r.1.file })
  unfolding dir_block_read
  dir_block_read-Lists =
      let (e, s) = dir_loop-Lists p m.room fuel m.sound l in rw (own, e) (refl, s, refl)

  -- Reading the directory in another state of the same container.
  read_again :
      (inst' : FsInstance) (cs' : List ℕ)
      → inst' ≡ record inst { file = inst'.file }
      → IsSound inst'.file
      → Lists p m.room inst'.file cs'
      → (dir_block_read (suc (suc fuel)) dir inst').0 ≡ ok (some cs')
  unfolding dir_block_read
  read_again inst' cs' keep sound l' =
      let (e, s) = dir_loop-Lists p m.room fuel sound l' in
      let same_region : inst'.blocks_offset ≡ inst.blocks_offset =
        ap (λ (j : FsInstance). j.blocks_offset) keep in
      let same_size : inst'.header.block_size ≡ inst.header.block_size =
        ap (λ (j : FsInstance). j.header.block_size) keep in
      rw (same_region, same_size, own, e)

  module _ (parent child : ℕ) (here : entry? inst.meta_entries parent ≡ some dir) where
    abbrev listed : Outcome (Option (List ℕ)) × FsInstance
    listed = dir_block_read (suc (suc fuel)) dir inst

    abbrev written : List ℕ → Bool × FsInstance
    written = λ children. write_children index children listed.1

    after_reading :
        (children : List ℕ)
        → All IsIndex children
        → ((written children).0 ≡ true)
          × Wrote
              (start p)
              (dir_image (block_size_of inst) children)
              inst.file
              (written children).1.file
          × Lists p m.room
              (written children).1.file
              (take (payload_count (block_size_of inst)) children)
          × ((written children).1 ≡ record inst { file = (written children).1.file })
    after_reading children idx =
        let (e, s, keep) = dir_block_read-Lists in
        let (done, w, kept) =
          write_children-Wrote p m.room children listed.1 s.sound (rw keep) (rw keep) idx in
        (
          done,
          Wrote-SameFile s w,
          Lists-written p m.room children idx w,
          kept ∙ ap (λ (j : FsInstance). record j { file = (written children).1.file }) keep,
        )

    add_runs :
        dir_add_child (suc (suc fuel)) parent child inst
        ≡ (ok (written (cs ++ child ∷ [])).0, (written (cs ++ child ∷ [])).1)
    unfolding dir_add_child
    add_runs =
        let e = dir_block_read-Lists in
        rw (
          here,
          e.0,
          own_block_taken parent dir listed.1 index own p.numbered,
          ==_zero_pos index p.numbered,
        )

    pub add_listed :
        IsIndex child
        → let r = dir_add_child (suc (suc fuel)) parent child inst in
          (r.0 ≡ ok true)
          × Wrote (start p) (dir_image (block_size_of inst) (cs ++ child ∷ [])) inst.file r.1.file
          × Lists p m.room r.1.file (take (payload_count (block_size_of inst)) (cs ++ child ∷ []))
          × (r.1 ≡ record inst { file = r.1.file })
    add_listed idx =
        let children = cs ++ child ∷ [] in
        let (done, w, lists, keep) =
          after_reading children (All-append IsIndex cs (child ∷ []) l.indices (idx, tt)) in
        rw (add_runs, done) (refl, w, lists, keep)

    remove_runs :
        (rest : List ℕ)
        → erase_first child cs ≡ some rest
        → dir_remove_child (suc (suc fuel)) parent child inst
          ≡ (ok (written rest).0, (written rest).1)
    unfolding dir_remove_child
    remove_runs rest found =
        let e = dir_block_read-Lists in
        let used : dir.start_index == 0 ≡ false = ground (arith, own, p.numbered) in
        rw (here, e.0) (ground (arith, found, used))

    remove_refused :
        erase_first child cs ≡ none
        → dir_remove_child (suc (suc fuel)) parent child inst ≡ (ok false, listed.1)
    unfolding dir_remove_child
    remove_refused missing =
        let e = dir_block_read-Lists in rw (here, e.0) (ground (arith, missing))

    -- On a working device with blocks of 8 bytes at least, for a directory of one block in the
    -- address range that lists `cs`, and a nonzero 32-bit child index: `dir_add_child` reports
    -- success, and afterwards the directory lists `cs` with the child behind, cut to the number
    -- of children that its block holds. So a full directory drops the new child and reports
    -- success.
    pub dir_block_read-dir_add_child :
        IsIndex child
        → let r = dir_add_child (suc (suc fuel)) parent child inst in
          (r.0 ≡ ok true)
          × ((dir_block_read (suc (suc fuel)) dir r.1).0
              ≡ ok (some (take (payload_count (block_size_of inst)) (cs ++ child ∷ []))))
    dir_block_read-dir_add_child idx =
        let r = dir_add_child (suc (suc fuel)) parent child inst in
        let (done, w, lists, keep) = add_listed idx in
        (
          done,
          read_again r.1 (take (payload_count (block_size_of inst)) (cs ++ child ∷ [])) keep w.sound
              lists,
        )

    -- On a working device with blocks of 8 bytes at least, for a directory of one block in the
    -- address range that lists `cs`: `dir_remove_child` reports whether the child was among
    -- `cs`, and afterwards the directory lists `cs` without its first occurrence.
    pub dir_block_read-dir_remove_child :
        let r = dir_remove_child (suc (suc fuel)) parent child inst in
        (r.0 ≡ ok (has cs child))
        × ((dir_block_read (suc (suc fuel)) dir r.1).0 ≡ ok (some (without child cs)))
    dir_block_read-dir_remove_child = elim (Option-cases (erase_first child cs)) [
      | inl missing ↦
          let (e, s, keep) = dir_block_read-Lists in
          let (h, w) = erase_first-none child cs missing in
          rw (remove_refused missing, h, w)
            (refl, read_again listed.1 cs keep s.sound (Lists-SameFile p m.room s l))
      | inr (rest, found) ↦
          let (h, w, idx, le) = erase_first-some child cs rest l.indices found in
          let (done, moved, lists, keep) = after_reading rest idx in
          let all : take (payload_count (block_size_of inst)) rest ≡ rest =
            take_all (payload_count (block_size_of inst)) rest (omega (arith, l.fit)) in
          rw (remove_runs rest found, done, h, w)
            (refl, read_again (written rest).1 rest keep moved.sound (rw all at lists))
    ]
