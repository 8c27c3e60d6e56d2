-- ===== src/Instance/Tables.antt =====
-- Writing the tables of an instance back keeps the block region.
use omni_file_system.Prelude.{
  ℕ, ◌+◌, ◌*◌, ◌≤◌, ◌<◌, ◌≡◌, refl, true, ◌++◌, arith, length, take, drop, length-append,
  length-take, length-drop,
}
use omni_file_system.Prelude.Preds.{All}
use omni_file_system.Prelude.Words.{to_le, length-to_le}
use omni_file_system.Stream.Laws.{IsSound}
use omni_file_system.Types.{OmniHeader}
use omni_file_system.Types.Images.{
  IsHeader, HasArrays, length-meta_images, length-header_image, header_image,
}
use omni_file_system.Instance.{FsInstance}
use omni_file_system.Instance.Persist.{
  persist_meta_entries, persist_bitmap, persist_header, with_next_index,
}
use omni_file_system.Instance.Frame.{
  KeepsRegion, KeepsRegion-trans, Wrote-KeepsRegion, persist_at-Wrote,
}

-- The tables of the instance lie below its block region.
pub record AreTables (inst : FsInstance) : Type 0 where
  pub header : IsHeader inst.header
  pub header_fits : 512 ≤ inst.blocks_offset
  pub arrays : All HasArrays inst.meta_entries
  pub some_entries : 0 < length inst.meta_entries
  pub metadata_fits : inst.metadata_offset + length inst.meta_entries * 72 ≤ inst.blocks_offset
  pub some_bits : 0 < length inst.free_bitmap
  pub bitmap_fits : inst.bitmap_offset + length inst.free_bitmap ≤ inst.blocks_offset

pub with_next_index-IsHeader :
    (v : ℕ) (o : OmniHeader) → IsHeader o → IsHeader (with_next_index v o)
unfolding with_next_index
with_next_index-IsHeader v o h = record {
  magic = h.magic;
  format_version = h.format_version;
  total_size = h.total_size;
  header_size = h.header_size;
  block_size = h.block_size;
  student_id = h.student_id;
  submission_date = h.submission_date;
  config_hash = h.config_hash;
  config_timestamp = h.config_timestamp;
  user_table_offset = h.user_table_offset;
  max_users = h.max_users;
  file_state_storage_offset = h.file_state_storage_offset;
  change_log_offset = h.change_log_offset;
  reserved = omega (
    arith,
    h.reserved,
    length-append (take 320 o.reserved) (to_le 8 v ++ drop 328 o.reserved),
    length-append (to_le 8 v) (drop 328 o.reserved),
    length-take 320 o.reserved,
    length-drop 328 o.reserved,
    length-to_le 8 v,
  );
}

module _ (inst : FsInstance) (sound : IsSound inst.file) (t : AreTables inst) where
  -- The three writes at the end of `file_create`.
  abbrev pub after_meta : FsInstance
  after_meta = (persist_meta_entries inst).1

  abbrev pub after_bitmap : FsInstance
  after_bitmap = (persist_bitmap after_meta).1

  abbrev pub after_header : FsInstance
  after_header = (persist_header after_bitmap).1

  pub persist_tables :
      ((persist_meta_entries inst).0 ≡ true)
      × ((persist_bitmap after_meta).0 ≡ true)
      × ((persist_header after_bitmap).0 ≡ true)
      × KeepsRegion inst.blocks_offset inst.file after_header.file
      × (after_header ≡ record inst {
        header = with_next_index inst.next_meta_index inst.header;
        file = after_header.file;
      })
  unfolding persist_meta_entries persist_bitmap persist_header
  persist_tables =
      let size = length-meta_images inst.meta_entries t.arrays in
      let header = with_next_index inst.next_meta_index inst.header in
      let size' =
        length-header_image header
          (with_next_index-IsHeader inst.next_meta_index inst.header t.header) in
      let (done, w) =
        persist_at-Wrote inst.metadata_offset _ sound (omega (arith, size, t.some_entries)) in
      let (done', w') = persist_at-Wrote inst.bitmap_offset inst.free_bitmap w.sound t.some_bits in
      let (done'', w'') =
        persist_at-Wrote 0 (header_image header) w'.sound (omega (arith, size')) in
      let keep = Wrote-KeepsRegion (omega (arith, size, t.metadata_fits)) w in
      let keep' = Wrote-KeepsRegion t.bitmap_fits w' in
      let keep'' = Wrote-KeepsRegion (omega (arith, size', t.header_fits)) w'' in
      (done, done', done'', KeepsRegion-trans keep (KeepsRegion-trans keep' keep''), refl)
