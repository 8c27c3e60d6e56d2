-- ===== src/Files/ReadBack.antt =====
-- `file_read` of a file that `file_create` has just made.
use omni_file_system.Prelude.{
  ℕ, suc, ◌-◌, ◌<◌, ◌≡◌, ◌≢◌, refl, ap, ◌∙◌, Bool-cases, true, false, inl, inr, some, List, [], ◌∷◌,
  ◌++◌, arith, length, ◌==◌, ==_zero_pos,
}
use omni_file_system.Prelude.Bytes.{Bytes, eq_bytes_iff}
use omni_file_system.Prelude.Preds.{All-append, has, has-All, has-Ascending}
use omni_file_system.HashMap
use omni_file_system.HashMap.View.{IsValid, insert-refines}
use omni_file_system.Stream.{Fstream}
use omni_file_system.Stream.Laws.{Wrote}
use omni_file_system.Blocks.Laws.{start}
use omni_file_system.Bitmap.{bitmap_get}
use omni_file_system.Codec.RoundTrip.{AreBytes}
use omni_file_system.Types.{MetaEntry}
use omni_file_system.Types.Images.{HasArrays}
use omni_file_system.Instance.{FsInstance, SessionInfo, ok, entry?, set_entry}
use omni_file_system.Instance.Persist.{
  with_next_index, persist_meta_entries, persist_bitmap, persist_header,
}
use omni_file_system.Instance.Frame.{KeepsRegion}
use omni_file_system.Instance.Tables.{AreTables, after_header, persist_tables}
use omni_file_system.Instance.Entries.{
  entry?-set_entry_self, entry?-set_entry_ne, length-set_entry, All-set_entry, All-entry?,
  entry?-unique,
}
use omni_file_system.Directory.{find_free_meta_index, dir_add_child, block_size_of}
use omni_file_system.Directory.Words.{IsIndex}
use omni_file_system.Directory.Block.{Lists, dir_image, length-dir_image}
use omni_file_system.Paths.{split_path_tokens, parent_and_name}
use omni_file_system.Files.{
  create_blocks, file_create, file_read, read_content, lookup_path, entry_in_range, is_absolute,
  owner_of,
}
use omni_file_system.Files.Carry.{read_chunks-Holds}
use omni_file_system.Files.Chunks.{Holds, placed}
use omni_file_system.Files.Frame.{
  SameBlock, KeepsRegion-SameBlock, Wrote-SameBlock, Holds-SameBlocks, Lists-SameBlock,
  write_chunks-SameBlock,
}
use omni_file_system.Files.Transfer.{IsReady, Created, chain, bits_after}
use omni_file_system.Files.Creation.{
  next_after, new_file, entered, linked, settled, file_create-ends,
}
use omni_file_system.Files.Placing.{IsDirectory, as_new_file-HasArrays, tabled, added}

module _ (fuel now : ℕ) (s reader : SessionInfo) (path parent_path basename content : Bytes)
    (parent : ℕ) (dir : MetaEntry) (cs : List ℕ) (inst : FsInstance) (ready : IsReady inst)
    (tables : AreTables inst) (d : IsDirectory inst parent dir cs) (some_left : 0 < length content)
    (free : MetaEntry)
    (slot : entry? inst.meta_entries (find_free_meta_index inst) ≡ some free) where
  abbrev pub slot_index : ℕ
  slot_index = find_free_meta_index inst

  abbrev pub file_of : MetaEntry
  file_of = new_file (suc (suc fuel)) now s path parent_path basename content parent free inst

  abbrev pub start_of : FsInstance
  start_of = entered (suc (suc fuel)) now s path parent_path basename content parent free inst

  pub start_ready : IsReady start_of
  start_ready = record {
    sound = ready.sound;
    narrow = ready.narrow;
    region = ready.region;
    bits = ready.bits;
    marked = ready.marked;
    code = ready.code;
  }

  abbrev pub blocks_of : List ℕ
  blocks_of = chain start_of slot_index content start_ready

  abbrev pub bits_of : Bytes
  bits_of = bits_after start_of slot_index content start_ready

  abbrev pub entry_of_file : MetaEntry
  entry_of_file =
      linked (suc (suc fuel)) now s path parent_path basename content parent free inst blocks_of

  abbrev pub entries_of : List MetaEntry
  entries_of = set_entry start_of.meta_entries slot_index entry_of_file

  abbrev pub next_of : ℕ
  next_of = next_after inst.next_meta_index slot_index

  -- The instance before the tables are written.
  abbrev pub before : Fstream → FsInstance
  before f = record inst {
    free_bitmap = bits_of;
    meta_entries = entries_of;
    next_meta_index = next_of;
    file = f;
  }

  module _
      (c : Created start_of slot_index content start_ready
        (create_blocks slot_index content start_of)) where
    abbrev pub f1 : Fstream
    f1 = (create_blocks slot_index content start_of).1.file

    settled_lem :
        settled (suc (suc fuel)) now s path parent_path basename content parent free inst blocks_of
        ≡ before f1
    settled_lem =
        ap
          (λ (j : FsInstance). record j {
            meta_entries = set_entry j.meta_entries slot_index entry_of_file;
            next_meta_index = next_after j.next_meta_index slot_index;
          })
          c.keeps

    pub before-AreTables : (f : Fstream) → AreTables (before f)
    before-AreTables f =
        let arrays =
          as_new_file-HasArrays parent basename (length content) (owner_of inst s) now free
            (All-entry? HasArrays inst.meta_entries slot_index free tables.arrays slot) in
        let size =
          length-set_entry start_of.meta_entries slot_index entry_of_file
          ∙ length-set_entry inst.meta_entries slot_index file_of in
        record {
          header = tables.header;
          header_fits = tables.header_fits;
          arrays =
              All-set_entry HasArrays start_of.meta_entries slot_index entry_of_file
                (All-set_entry HasArrays inst.meta_entries slot_index file_of tables.arrays arrays)
                arrays;
          some_entries = omega (arith, size, tables.some_entries);
          metadata_fits = rw size (tables.metadata_fits);
          some_bits = omega (arith, c.width, tables.some_bits);
          bitmap_fits = omega (arith, c.width, tables.bitmap_fits);
        }

    -- The directory's block is not among the new ones.
    dir_apart : has blocks_of dir.start_index ≡ true → ⊥
    dir_apart h =
        let e =
          has-All (λ b. bitmap_get inst.free_bitmap (b - 1) ≡ false) blocks_of dir.start_index
            c.fresh h in
        let t = d.taken in cc

    abbrev pub f2 : Fstream
    f2 = (after_header (before f1) c.stores.sound (before-AreTables f1)).file

    abbrev pub done_of : FsInstance
    done_of =
        (dir_add_child (suc (suc fuel)) parent slot_index
          (tabled fuel inst parent dir cs d next_of bits_of entries_of f2)).1

    module _ (unused : (free.valid == 0) ≡ false) (idx : IsIndex slot_index) where
      parent_apart : slot_index ≢ parent
      parent_apart e =
          let same : free ≡ dir =
            entry?-unique inst.meta_entries slot_index parent free dir slot d.here e in
          let v : free.valid ≡ 0 = ap (λ (k : MetaEntry). k.valid) same ∙ d.used in
          ground (arith, unused, v)

      parent_kept : entry? entries_of parent ≡ some dir
      parent_kept =
          entry?-set_entry_ne start_of.meta_entries slot_index parent entry_of_file parent_apart
          ∙ entry?-set_entry_ne inst.meta_entries slot_index parent file_of parent_apart
          ∙ d.here

      dir_unwritten : SameBlock ready.region inst.file f1 dir.start_index
      dir_unwritten =
          let p = d.placed in
          let apart : has blocks_of dir.start_index ≡ false =
            elim (Bool-cases (has blocks_of dir.start_index)) [
              | inl shared ↦ absurd (dir_apart shared)
              | inr apart ↦ apart
            ] in
          let same =
            write_chunks-SameBlock ready.region inst.encoding_map blocks_of 0 content
              dir.start_index ready.sound c.rises p.numbered d.within apart in
          λ q le lt. ap (λ (h : Fstream). h.byte q) c.writes ∙ same q le lt

      saved :
          ((persist_meta_entries (before f1)).0 ≡ true)
          × ((persist_bitmap (persist_meta_entries (before f1)).1).0 ≡ true)
          × ((persist_header (persist_bitmap (persist_meta_entries (before f1)).1).1).0 ≡ true)
          × KeepsRegion inst.blocks_offset f1 f2
          × ((persist_header (persist_bitmap (persist_meta_entries (before f1)).1).1).1
              ≡ tabled fuel inst parent dir cs d next_of bits_of entries_of f2)
      saved = persist_tables (before f1) c.stores.sound (before-AreTables f1)

      listed_again : Lists d.placed d.room f2 cs
      listed_again =
          let keeps = saved.3 in
          let kept = KeepsRegion-SameBlock ready.region keeps dir.start_index in
          let grows = c.stores.grows in
          Lists-SameBlock ready.region d.placed d.room (omega (arith, keeps.grows, grows))
            (λ q le lt. kept q le lt ∙ dir_unwritten q le lt) d.lists

      listing :
          let r =
            dir_add_child
              (suc (suc fuel))
              parent
              slot_index
              (tabled fuel inst parent dir cs d next_of bits_of entries_of f2) in
          (r.0 ≡ ok true)
          × Wrote
              (start d.placed)
              (dir_image (block_size_of inst) (cs ++ slot_index ∷ []))
              f2
              r.1.file
          × (r.1 ≡ tabled fuel inst parent dir cs d next_of bits_of entries_of r.1.file)
      listing =
          let keeps = saved.3 in
          added fuel inst parent dir cs d next_of bits_of entries_of slot_index f2 keeps.sound
            listed_again parent_kept idx

      -- After everything the new blocks hold the content.
      Holds-last : Holds ready.region inst.encoding_map done_of.file blocks_of content
      Holds-last =
          let keeps = saved.3 in
          let w = listing.1 in
          let room = d.room in
          let l = d.lists in
          let size =
            length-dir_image (block_size_of inst) (cs ++ slot_index ∷ [])
              (All-append IsIndex cs (slot_index ∷ []) l.indices (idx, tt)) in
          let narrow = ready.region.narrow in
          Holds-SameBlocks ready.region inst.encoding_map blocks_of content f2 done_of.file w.grows
            (λ j h.
              let (pos, le) = has-Ascending 0 inst.num_blocks blocks_of j c.rises h in
              let apart : dir.start_index ≢ j = λ e. dir_apart (rw e h) in
              Wrote-SameBlock ready.region d.placed (placed ready.region j pos le) apart
                (omega (arith, size)) w)
            (Holds-SameBlocks ready.region inst.encoding_map blocks_of content f1 f2 keeps.grows
              (λ j h. KeepsRegion-SameBlock ready.region keeps j) c.stores.holds)

      entered_lem : entry? start_of.meta_entries slot_index ≡ some file_of
      entered_lem = entry?-set_entry_self inst.meta_entries slot_index free file_of slot

      -- The instance that `file_create` leaves.
      abbrev pub left_by_create : FsInstance
      left_by_create =
          record (tabled fuel inst parent dir cs d next_of bits_of entries_of done_of.file) {
            path_index = (HashMap.insert inst.path_index path slot_index).1;
          }

      pub create_ends :
          is_absolute path ≡ true
          → parent_and_name (split_path_tokens path) ≡ some (parent_path, basename)
          → HashMap.find inst.path_index parent_path ≡ some parent
          → HashMap.contains inst.path_index path ≡ false
          → file_create (suc (suc fuel)) now (some s) (some path) content inst
            ≡ (ok tt, left_by_create)
      create_ends absolute cut found absent =
          let there =
            ap (λ (j : FsInstance). entry? j.meta_entries slot_index) c.keeps ∙ entered_lem in
          file_create-ends (suc (suc fuel)) now s path parent_path basename content parent free inst
            absolute cut found absent (==_zero_pos slot_index idx.0) slot blocks_of c.succeeds there
            (before f1) (tabled fuel inst parent dir cs d next_of bits_of entries_of f2) settled_lem
            saved.0 saved.1 saved.2 saved.4 true listing.0
          ∙ ap
              (λ (j : FsInstance).
                (ok tt, record j { path_index = (HashMap.insert j.path_index path slot_index).1 }))
              listing.2

      pub reads_back :
          IsValid inst.path_index
          → AreBytes content
          → (file_read (some reader) (some path) left_by_create).0 ≡ ok content
      unfolding file_read lookup_path entry_in_range read_content with_next_index
      reads_back valid bytes =
          let same = (eq_bytes_iff path path).1 refl in
          let indexed : HashMap.find (HashMap.insert inst.path_index path slot_index).1 path
              ≡ some slot_index =
            (insert-refines inst.path_index path slot_index valid).3 path ∙ rw same refl in
          let entry =
            entry?-set_entry_self start_of.meta_entries slot_index file_of entry_of_file
              entered_lem in
          let w = listing.1 in
          let (e, kept) =
            read_chunks-Holds ready.region (suc (length content)) inst.encoding_map blocks_of
              content [] w.sound ready.code bytes Holds-last (omega arith) in
          rw (indexed, entry, ==_zero_pos (length content) some_left, e) refl
