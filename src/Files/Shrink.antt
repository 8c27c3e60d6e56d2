-- ===== src/Files/Shrink.antt =====
-- `file_truncate` to fewer blocks.
use omni_file_system.Prelude.{
  ℕ, zero, suc, ◌+◌, ◌-◌, ◌*◌, ◌^◌, ◌≤◌, ◌<◌, ◌≡◌, refl, ap, ◌∙◌, true, false, some, List, [], ◌∷◌,
  arith, length, take, drop, ◌==◌, ltb,
}
use omni_file_system.Prelude.Bytes.{Bytes}
use omni_file_system.Prelude.Words.{u32, to_le, length-to_le}
use omni_file_system.HashMap
use omni_file_system.Stream.{Fstream, seekp, write, flush}
use omni_file_system.Stream.Laws.{
  Wrote, SameFile, seekp-SameFile, seekp-position, flush-Wrote, write-Wrote, Wrote-at,
  Wrote-SameFile,
}
use omni_file_system.Blocks.{get_block_chain, block_position}
use omni_file_system.Blocks.Laws.{block_position_lem}
use omni_file_system.Bitmap.Laws.{length-free_blocks}
use omni_file_system.Types.Images.{HasArrays}
use omni_file_system.Instance.Entries.{length-set_entry, All-set_entry, All-entry?}
use omni_file_system.Types.{MetaEntry}
use omni_file_system.Instance.{FsInstance, SessionInfo, ok, entry?, set_entry, modify_entry}
use omni_file_system.Instance.Frame.{KeepsRegion}
use omni_file_system.Instance.Tables.{persist_tables, AreTables, after_header}
use omni_file_system.Directory.{block_size_of}
use omni_file_system.Files.{lookup_path, entry_in_range, blocks_for, block_payload_of, give_back}
use omni_file_system.Files.Truncate.{
  file_truncate, chain_of, shrink_chain, persist_all, last_of, relink,
}
use omni_file_system.Files.Transfer.{IsReady}
use omni_file_system.Files.Chunks.{IsRegion, Holds, position, placed}
use omni_file_system.Files.Cut.{IsDistinct, Carries-cut}
use omni_file_system.Files.Carry.{Carries}
use omni_file_system.Files.Relink.{Wrote-CutAt}

module _ (now : ℕ) (s : SessionInfo) (path : Bytes) (index new_size : ℕ) (entry : MetaEntry) (b : ℕ)
    (bs : List ℕ) (q : ℕ) (inst : FsInstance) where
  abbrev pub walked : Fstream → FsInstance
  walked f = record inst { file = f }

  abbrev pub freed : Fstream → FsInstance
  freed f = give_back (drop (suc q) (b ∷ bs)) (walked f)

  abbrev pub relinked : Fstream → FsInstance
  relinked f = relink (last_of b (take q bs)) 0 (freed f)

  abbrev pub shrunk : MetaEntry
  shrunk = record entry { total_size = new_size; modified_time = now }

  abbrev pub entered : Fstream → FsInstance
  entered f = record (relinked f) { meta_entries = set_entry inst.meta_entries index shrunk }

  -- The steps where blocks are given back and some are kept.
  pub file_truncate-runs :
      HashMap.find inst.path_index path ≡ some index
      → entry? inst.meta_entries index ≡ some entry
      → entry.valid ≡ 0
      → entry.type ≡ 0
      → blocks_for new_size (block_payload_of inst) ≡ suc q
      → (f : Fstream)
      → get_block_chain inst.blocks_offset
          (block_size_of inst)
          inst.num_blocks
          entry.start_index
          inst.file
        ≡ (b ∷ bs, f)
      → suc q < length (b ∷ bs)
      → length (b ∷ bs) < 2 ^ 32
      → file_truncate now (some s) (some path) new_size inst ≡ persist_all (entered f)
  unfolding file_truncate lookup_path entry_in_range chain_of shrink_chain give_back relink
  file_truncate-runs found here used file need f walk fewer small =
      let v : (entry.valid == 0) ≡ true = ground arith in
      let t : (entry.type == 0) ≡ true = ground arith in
      let z : u32 (length (b ∷ bs)) ≡ length (b ∷ bs) = omega arith in
      let differ : (suc q == length (b ∷ bs)) ≡ false = ground arith in
      let less : ltb (suc q) (length (b ∷ bs)) ≡ true = ground arith in
      let some_kept : (suc q == 0) ≡ false = ground arith in
      let back : suc q - 1 ≡ q = omega arith in
      rw (found, here, v, t, need, walk, z, differ, less, some_kept, modify_entry, here, back) refl

write_link-Wrote :
    {k p : ℕ} {f g : Fstream}
    → k ≡ p
    → SameFile f g
    → Wrote p (to_le 4 0) f (flush (write (to_le 4 0) (seekp k g)))
write_link-Wrote {p = p} e same =
    let moved = seekp-SameFile p same.sound in
    let w = flush-Wrote (write-Wrote (to_le 4 0) moved.sound (omega (arith, length-to_le 4 0))) in
    rw e (Wrote-SameFile same (Wrote-at (seekp-position p same.sound) (Wrote-SameFile moved w)))

last_of-Holds :
    {region size blocks : ℕ} (r : IsRegion region size blocks) (encoding_map : Bytes) (b : ℕ)
    (bs : List ℕ) (k : ℕ) (content : Bytes) (f : Fstream)
    → Holds r encoding_map f (b ∷ bs) content
    → (0 < last_of b (take k bs)) × (last_of b (take k bs) ≤ blocks)
unfolding last_of
last_of-Holds r encoding_map b bs zero content f (pos, le, left, inside, image, more) = (pos, le)
last_of-Holds r encoding_map b [] (suc k) content f (pos, le, left, inside, image, more) = (pos, le)
last_of-Holds {size = size} r encoding_map b (c ∷ bs) (suc k) content f
      (pos, le, left, inside, image, more) =
    last_of-Holds r encoding_map c bs k (drop (size - 4) content) f more

module _ (now : ℕ) (s reader : SessionInfo) (path : Bytes) (index new_size : ℕ) (entry : MetaEntry)
    (b : ℕ) (bs : List ℕ) (q : ℕ) (content : Bytes) (inst : FsInstance) (ready : IsReady inst)
    (tables : AreTables inst) (f : Fstream) (same : SameFile inst.file f)
    (here : entry? inst.meta_entries index ≡ some entry)
    (held : Holds ready.region inst.encoding_map inst.file (b ∷ bs) content)
    (apart : IsDistinct (b ∷ bs)) where
  abbrev last_kept : ℕ
  last_kept = last_of b (take q bs)

  abbrev pub before : FsInstance
  before = entered now s path index new_size entry b bs q inst f

  last_placed : (0 < last_kept) × (last_kept ≤ inst.num_blocks)
  last_placed = last_of-Holds ready.region inst.encoding_map b bs q content inst.file held

  pub link_written : Wrote (position ready.region last_kept) (to_le 4 0) inst.file before.file
  unfolding relink give_back
  link_written =
      let (pos, le) = last_placed in
      let wide : inst.header.block_size ≡ block_size_of inst = omega (arith, ready.narrow) in
      let at : block_position inst.blocks_offset inst.header.block_size last_kept
          ≡ position ready.region last_kept =
        ap (λ k. block_position inst.blocks_offset k last_kept) wide
        ∙ block_position_lem (placed ready.region last_kept pos le) in
      write_link-Wrote at same

  pub before-AreTables : AreTables before
  unfolding relink give_back
  before-AreTables =
      let size =
        length-set_entry inst.meta_entries index
          (shrunk now s path index new_size entry b bs q inst) in
      let width = length-free_blocks inst.num_blocks (drop (suc q) (b ∷ bs)) inst.free_bitmap in
      record {
        header = tables.header;
        header_fits = tables.header_fits;
        arrays =
            All-set_entry HasArrays inst.meta_entries index
              (shrunk now s path index new_size entry b bs q inst) tables.arrays
              (All-entry? HasArrays inst.meta_entries index entry tables.arrays here);
        some_entries = omega (arith, size, tables.some_entries);
        metadata_fits = rw size (tables.metadata_fits);
        some_bits = omega (arith, width, tables.some_bits);
        bitmap_fits = omega (arith, width, tables.bitmap_fits);
      }

  abbrev pub last_instance : FsInstance
  last_instance = after_header before link_written.sound before-AreTables

  pub saved :
      KeepsRegion inst.blocks_offset before.file last_instance.file
      × (persist_all before ≡ (ok tt, last_instance))
  unfolding persist_all relink give_back
  saved =
      let (done, done', done'', keeps, e) =
        persist_tables before link_written.sound before-AreTables in
      (keeps, refl)

  -- The kept blocks carry the start of the content.
  pub carried :
      0 < new_size
      → new_size ≤ length content
      → new_size ≤ suc q * (block_size_of inst - 4)
      → suc q * (block_size_of inst - 4) < new_size + (block_size_of inst - 4)
      → Carries ready.region inst.encoding_map last_instance.file
          (take (suc q) (b ∷ bs))
          (take new_size content)
  carried some_left short up down =
      let (pos, le) = last_placed in
      Carries-cut ready.region inst.encoding_map q b bs content new_size inst.file
        last_instance.file held apart
        (Wrote-CutAt ready.region last_kept pos le link_written saved.0) some_left short up down
