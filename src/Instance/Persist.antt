-- ===== src/Instance/Persist.antt =====
-- `persist_bitmap`, `persist_meta_entries`, `persist_user_table` and `persist_header`: the tables
-- of the instance written to their regions of the container file.
use omni_file_system.Prelude.{ℕ, Bool, false, ◌++◌, map, if◌then◌else◌, take, drop}
use mathlib.Core.List.{flatten}
use omni_file_system.Prelude.Bytes.{Bytes}
use omni_file_system.Prelude.Words.{to_le}
use omni_file_system.Stream.{Fstream, is_good, seekp, write, flush}
use omni_file_system.Types.{OmniHeader}
use omni_file_system.Types.Images.{meta_image, user_image, header_image}
use omni_file_system.Instance.{FsInstance}

-- `seekp(position); write(image); flush()`, with the tests for `good()`.
unfoldable pub persist_at : ℕ → Bytes → Fstream → Bool × Fstream
persist_at position image f =
    let g = seekp position f in
    let h = flush (write image g) in if is_good g.state then (is_good h.state, h) else (false, g)

-- The file of an instance after a transfer.
abbrev pub with_file : {A : Type 0} → FsInstance → A × Fstream → A × FsInstance
with_file inst (a, f) = (a, record inst { file = f })

unfoldable pub persist_bitmap : FsInstance → Bool × FsInstance
persist_bitmap inst = with_file inst (persist_at inst.bitmap_offset inst.free_bitmap inst.file)

unfoldable pub persist_meta_entries : FsInstance → Bool × FsInstance
persist_meta_entries inst =
    with_file inst
      (persist_at inst.metadata_offset (flatten (map meta_image inst.meta_entries)) inst.file)

unfoldable pub persist_user_table : FsInstance → Bool × FsInstance
persist_user_table inst =
    with_file inst
      (persist_at inst.header.user_table_offset (flatten (map user_image inst.users)) inst.file)

-- `memcpy(header.reserved + 320, &next_meta_index, 8)`
unfoldable pub with_next_index : ℕ → OmniHeader → OmniHeader
with_next_index v header = record header {
  reserved = take 320 header.reserved ++ (to_le 8 v ++ drop 328 header.reserved);
}

unfoldable pub persist_header : FsInstance → Bool × FsInstance
persist_header inst =
    let inst' = record inst { header = with_next_index inst.next_meta_index inst.header } in
    with_file inst' (persist_at 0 (header_image inst'.header) inst.file)
