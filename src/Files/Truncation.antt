-- ===== src/Files/Truncation.antt =====
-- `file_read` after `file_truncate`.
use omni_file_system.Prelude.{
  ℕ, zero, suc, ◌+◌, ◌-◌, ◌*◌, ◌^◌, ◌≤◌, ◌<◌, ◌≡◌, refl, ap, ◌∙◌, some, List, [], ◌∷◌, arith,
  length, take, drop, length-take, length-drop,
}
use omni_file_system.Prelude.Bytes.{Bytes}
use omni_file_system.Prelude.Preds.{All-take}
use omni_file_system.HashMap
use omni_file_system.Stream.{Fstream}
use omni_file_system.Stream.Laws.{SameFile}
use omni_file_system.Blocks.{get_block_chain}
use omni_file_system.Bitmap.{free_blocks}
use omni_file_system.Codec.RoundTrip.{AreBytes}
use omni_file_system.Types.{MetaEntry}
use omni_file_system.Instance.{FsInstance, SessionInfo, ok, entry?}
use omni_file_system.Instance.Persist.{
  persist_bitmap, persist_meta_entries, persist_header, with_next_index,
}
use omni_file_system.Instance.Entries.{entry?-set_entry_self}
use omni_file_system.Instance.Tables.{AreTables}
use omni_file_system.Directory.{block_size_of}
use omni_file_system.Files.{file_read, blocks_for, block_payload_of, first_or_zero, give_back}
use omni_file_system.Files.Truncate.{file_truncate, relink}
use omni_file_system.Files.Chunks.{IsRegion, Holds, below_multiple}
use omni_file_system.Files.Cut.{IsDistinct}
use omni_file_system.Files.Transfer.{IsReady, blocks_for_lem}
use omni_file_system.Files.Reading.{file_read-Carries}
use omni_file_system.Files.Relink.{get_block_chain-Holds}
use omni_file_system.Files.Shrink.{file_truncate-runs, last_instance, shrunk, saved, carried}

-- An indexed file in use whose chain of distinct blocks holds `content`.
pub record IsFile (inst : FsInstance) (ready : IsReady inst) (path : Bytes) (index : ℕ)
    (entry : MetaEntry) (bs : List ℕ) (content : Bytes) : Type 0 where
  pub found : HashMap.find inst.path_index path ≡ some index
  pub here : entry? inst.meta_entries index ≡ some entry
  pub used : entry.valid ≡ 0
  pub file : entry.type ≡ 0
  pub starts : entry.start_index ≡ first_or_zero bs
  pub holds : Holds ready.region inst.encoding_map inst.file bs content
  pub distinct : IsDistinct bs
  pub counted : length bs ≤ inst.num_blocks

pos-suc : (k : ℕ) → 0 < k → (q : ℕ) × (k ≡ suc q)
pos-suc zero h = absurd (omega arith)
pos-suc (suc q) h = (q, refl)

-- A chain has room for its content.
length-Holds :
    {region size blocks : ℕ} (r : IsRegion region size blocks) (encoding_map : Bytes) (bs : List ℕ)
    (content : Bytes) (f : Fstream)
    → Holds r encoding_map f bs content
    → length content ≤ length bs * (size - 4)
length-Holds r encoding_map [] content f h =
    let e = ap (λ (t : Bytes). length t) h in omega (arith, e)
length-Holds {size = size} r encoding_map (b ∷ bs) content f (pos, le, left, inside, image, more) =
    let rest = length-Holds r encoding_map bs (drop (size - 4) content) f more in
    let e : suc (length bs) * (size - 4) ≡ size - 4 + length bs * (size - 4) = grind arith in
    omega (arith, rest, e, length-drop (size - 4) content)

module _ (now : ℕ) (s reader : SessionInfo) (path : Bytes) (index new_size : ℕ) (entry : MetaEntry)
    (content : Bytes) (inst : FsInstance) (ready : IsReady inst) where
  module _ (tables : AreTables inst) (b : ℕ) (rest : List ℕ) (q : ℕ)
      (d : IsFile inst ready path index entry (b ∷ rest) content)
      (narrow : inst.num_blocks + 2 < 2 ^ 32) where
    abbrev walk : List ℕ × Fstream
    walk =
        get_block_chain inst.blocks_offset (block_size_of inst) inst.num_blocks entry.start_index
          inst.file

    walked_lem : (walk.0 ≡ b ∷ rest) × SameFile inst.file walk.1
    walked_lem = rw (d.starts) (
        get_block_chain-Holds ready.region inst.encoding_map (b ∷ rest) content ready.sound d.holds
          narrow d.counted)

    abbrev end_state : FsInstance
    end_state =
        last_instance now s reader path index new_size entry b rest q content inst ready tables
          walk.1 walked_lem.1 d.here d.holds d.distinct

    runs :
        blocks_for new_size (block_size_of inst - 4) ≡ suc q
        → suc q < length (b ∷ rest)
        → file_truncate now (some s) (some path) new_size inst ≡ (ok tt, end_state)
    runs need fewer =
        let payload : block_payload_of inst ≡ block_size_of inst - 4 =
          omega (arith, ready.narrow, ready.region.room) in
        let need' : blocks_for new_size (block_payload_of inst) ≡ suc q = rw payload need in
        file_truncate-runs now s path index new_size entry b rest q inst d.found d.here d.used
          d.file need' walk.1 (ap (λ t. (t, walk.1)) walked_lem.0) fewer
          (omega (arith, d.counted, narrow))
        ∙ (saved now s reader path index new_size entry b rest q content inst ready tables walk.1
            walked_lem.1 d.here d.holds d.distinct).1

    reads :
        AreBytes content
        → 0 < new_size
        → new_size ≤ length content
        → blocks_for new_size (block_size_of inst - 4) ≡ suc q
        → (file_read (some reader) (some path) end_state).0 ≡ ok (take new_size content)
    unfolding persist_meta_entries persist_bitmap persist_header with_next_index relink give_back
    reads bytes some_left short need =
        let room = ready.region.room in
        let long =
          length-Holds ready.region inst.encoding_map (b ∷ rest) content inst.file d.holds in
        let most =
          below_multiple (length (b ∷ rest)) inst.num_blocks (block_size_of inst - 4) d.counted in
        let (up, down, pos, le) =
          blocks_for_lem new_size (block_size_of inst - 4) inst.num_blocks some_left (omega arith)
            (omega (arith, ready.narrow)) ready.region.counted (omega arith) in
        let (keeps, done) =
          saved now s reader path index new_size entry b rest q content inst ready tables walk.1
            walked_lem.1 d.here d.holds d.distinct in
        let c =
          carried now s reader path index new_size entry b rest q content inst ready tables walk.1
            walked_lem.1 d.here d.holds d.distinct some_left short (rw need at up)
            (rw need at down) in
        let changed = shrunk now s path index new_size entry b rest q inst in
        let cut = length-take new_size content in
        file_read-Carries reader path index changed (take (suc q) (b ∷ rest))
          (take new_size content) end_state ready.region d.found
          (entry?-set_entry_self inst.meta_entries index entry changed d.here) d.used d.file
          d.starts (omega (arith, cut)) (omega (arith, cut)) keeps.sound ready.code
          (All-take (λ x. x < 256) new_size content bytes) c

    freed_bits :
        end_state.free_bitmap
        ≡ free_blocks inst.num_blocks (drop (suc q) (b ∷ rest)) inst.free_bitmap
    unfolding persist_meta_entries persist_bitmap persist_header relink give_back
    freed_bits = refl

  -- On a ready instance (working device, blocks in the address range, a bit for every block, a
  -- substitution without collisions) whose tables lie below the block region and that has fewer
  -- than 2^32 - 2 blocks, for an indexed file in use whose chain of distinct blocks holds the
  -- content, of bytes, and a new size above 0 and up to the content's length that needs fewer
  -- blocks than the chain has: `file_truncate` succeeds, afterwards `file_read`, under any
  -- session, returns exactly the first `new_size` bytes of the content, and the bitmap is the
  -- old one with the blocks behind the needed ones freed.
  pub file_read-file_truncate :
      (bs : List ℕ)
      → AreTables inst
      → IsFile inst ready path index entry bs content
      → inst.num_blocks + 2 < 2 ^ 32
      → AreBytes content
      → 0 < new_size
      → new_size ≤ length content
      → blocks_for new_size (block_size_of inst - 4) < length bs
      → let r = file_truncate now (some s) (some path) new_size inst in
        (r.0 ≡ ok tt)
        × ((file_read (some reader) (some path) r.1).0 ≡ ok (take new_size content))
        × (r.1.free_bitmap
            ≡ free_blocks inst.num_blocks
                (drop (blocks_for new_size (block_size_of inst - 4)) bs)
                inst.free_bitmap)
  file_read-file_truncate [] tables d narrow bytes some_left short fewer = absurd (omega arith)
  file_read-file_truncate (b ∷ rest) tables d narrow bytes some_left short fewer =
      let n = block_size_of inst - 4 in
      let room = ready.region.room in
      let long = length-Holds ready.region inst.encoding_map (b ∷ rest) content inst.file d.holds in
      let most = below_multiple (length (b ∷ rest)) inst.num_blocks n d.counted in
      let some_needed =
        (blocks_for_lem new_size n inst.num_blocks some_left (omega arith)
          (omega (arith, ready.narrow)) ready.region.counted (omega arith)).2 in
      let (q, need) = pos-suc (blocks_for new_size n) some_needed in
      let run = runs tables b rest q d narrow need (rw need at fewer) in
      rw (need, run)
        (
          refl,
          reads tables b rest q d narrow bytes some_left short need,
          freed_bits tables b rest q d narrow,
        )
