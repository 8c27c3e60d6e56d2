-- ===== src/Mount/Saved.antt =====
-- What `fs_shutdown` leaves in the container.
use mathlib.Core.List.{flatten}
use omni_file_system.Prelude.{
  ◌+◌, ◌-◌, ◌*◌, ◌/◌, ◌^◌, ◌≤◌, ◌<◌, ◌≡◌, inl, map, arith, length, take, drop,
}
use omni_file_system.Prelude.Bytes.{Bytes}
use omni_file_system.Prelude.Preds.{All}
use omni_file_system.Stream.{Fstream}
use omni_file_system.Stream.Laws.{IsSound}
use omni_file_system.Format.{bitmap_size}
use omni_file_system.Types.{OmniHeader}
use omni_file_system.Types.Images.{
  IsHeader, IsUser, IsMeta, header_image, length-header_image, user_image, length-user_image,
  meta_image, length-meta_image,
}
use omni_file_system.Instance.{FsInstance}
use omni_file_system.Instance.Persist.{
  persist_bitmap, persist_meta_entries, persist_user_table, persist_header, with_next_index,
}
use omni_file_system.Instance.Frame.{
  KeepsRegion, KeepsRegion-trans, Wrote-KeepsRegion, persist_at-Wrote,
}
use omni_file_system.Instance.Tables.{with_next_index-IsHeader}
use omni_file_system.Mount.{magic, fs_shutdown}
use omni_file_system.Mount.Tables.{Shows, Wrote-Shows, Wrote-Shows_apart, length-images}

-- The tables of a mounted instance agree with its header and lie in their order in the container.
pub record IsSaved (inst : FsInstance) : Type 0 where
  pub sound : IsSound inst.file
  pub header : IsHeader inst.header
  pub magic : inst.header.magic ≡ magic
  pub users : All IsUser inst.users
  pub entries : All IsMeta inst.meta_entries
  pub some_users : 0 < length inst.users
  pub some_entries : 0 < length inst.meta_entries
  pub some_bits : 0 < length inst.free_bitmap
  pub max_users : inst.header.max_users ≡ length inst.users
  pub max_files : inst.max_files ≡ length inst.meta_entries
  pub metadata_offset : inst.header.file_state_storage_offset ≡ inst.metadata_offset
  pub bitmap_offset : inst.header.change_log_offset ≡ inst.bitmap_offset
  pub users_after : 512 ≤ inst.header.user_table_offset
  pub entries_after : inst.header.user_table_offset + length inst.users * 128 ≤ inst.metadata_offset
  pub bitmap_after : inst.metadata_offset + length inst.meta_entries * 72 ≡ inst.bitmap_offset
  pub bits : length inst.free_bitmap ≡ bitmap_size inst.num_blocks
  pub blocks_offset : inst.bitmap_offset + length inst.free_bitmap ≡ inst.blocks_offset
  pub narrow : inst.blocks_offset < 2 ^ 32
  pub block_size : 0 < inst.header.block_size
  pub fits :
      inst.header.header_size
        + length inst.users * 128
        + length inst.meta_entries * 72
        + inst.header.block_size
      ≤ inst.header.total_size
  pub num_blocks :
      (inst.header.total_size
          - inst.header.header_size
          - length inst.users * 128
          - length inst.meta_entries * 72)
        / inst.header.block_size
      ≡ inst.num_blocks
  pub some_blocks : 0 < inst.num_blocks
  pub counted : inst.num_blocks < 2 ^ 32
  pub encoding_map : inst.encoding_map ≡ take 256 (drop 64 inst.header.reserved)
  pub private_key : inst.private_key ≡ take 64 inst.header.reserved
  pub some_index : 0 < inst.next_meta_index
  pub next_meta_index : inst.next_meta_index < 2 ^ 64

module _ (inst : FsInstance) (s : IsSaved inst) where
  abbrev pub saved_header : OmniHeader
  saved_header = with_next_index inst.next_meta_index inst.header

  abbrev pub user_bytes_of : Bytes
  user_bytes_of = flatten (map user_image inst.users)

  abbrev pub meta_bytes_of : Bytes
  meta_bytes_of = flatten (map meta_image inst.meta_entries)

  pub saved_header-IsHeader : IsHeader saved_header
  saved_header-IsHeader = with_next_index-IsHeader inst.next_meta_index inst.header s.header

  pub header_wide : length (header_image saved_header) ≡ 512
  header_wide = length-header_image saved_header saved_header-IsHeader

  pub users_wide : length user_bytes_of ≡ length inst.users * 128
  users_wide = length-images IsUser user_image 128 inst.users length-user_image s.users

  pub entries_wide : length meta_bytes_of ≡ length inst.meta_entries * 72
  entries_wide =
      length-images IsMeta meta_image 72 inst.meta_entries
        (λ e h. length-meta_image e (h.name, h.reserved)) s.entries

  -- What lies in the container after `fs_shutdown`.
  pub record IsStored (f : Fstream) : Type 0 where
    pub header_shown : Shows f 0 (header_image saved_header)
    pub users_shown : Shows f inst.header.user_table_offset user_bytes_of
    pub entries_shown : Shows f inst.metadata_offset meta_bytes_of
    pub bits_shown : Shows f inst.bitmap_offset inst.free_bitmap
    pub kept : KeepsRegion inst.blocks_offset inst.file f

  pub fs_shutdown-IsStored : IsStored (fs_shutdown inst)
  unfolding fs_shutdown persist_header persist_user_table persist_meta_entries persist_bitmap
      with_next_index
  fs_shutdown-IsStored =
      let (d0, w0) =
        persist_at-Wrote 0 (header_image saved_header) s.sound (omega (arith, header_wide)) in
      let (d1, w1) =
        persist_at-Wrote inst.header.user_table_offset user_bytes_of w0.sound
          (omega (arith, users_wide, s.some_users)) in
      let (d2, w2) =
        persist_at-Wrote inst.metadata_offset meta_bytes_of w1.sound
          (omega (arith, entries_wide, s.some_entries)) in
      let (d3, w3) = persist_at-Wrote inst.bitmap_offset inst.free_bitmap w2.sound s.some_bits in
      let a = s.users_after in
      let b = s.entries_after in
      let c = s.bitmap_after in
      let e = s.blocks_offset in
      let hw = header_wide in
      let uw = users_wide in
      let mw = entries_wide in
      record {
        header_shown = Wrote-Shows_apart w3 (inl (omega arith)) (
            Wrote-Shows_apart w2 (inl (omega arith))
              (Wrote-Shows_apart w1 (inl (omega arith)) (Wrote-Shows w0)));
        users_shown =
            Wrote-Shows_apart w3 (inl (omega arith))
              (Wrote-Shows_apart w2 (inl (omega arith)) (Wrote-Shows w1));
        entries_shown = Wrote-Shows_apart w3 (inl (omega arith)) (Wrote-Shows w2);
        bits_shown = Wrote-Shows w3;
        kept = KeepsRegion-trans (Wrote-KeepsRegion (omega arith) w0) (
            KeepsRegion-trans (Wrote-KeepsRegion (omega arith) w1) (
              KeepsRegion-trans (Wrote-KeepsRegion (omega arith) w2)
                (Wrote-KeepsRegion (omega arith) w3)));
      }
