-- ===== src/Files/Reading.antt =====
-- `file_read` of a file whose chain carries its content.
use omni_file_system.Prelude.{
  ℕ, suc, ◌<◌, ◌≡◌, refl, true, some, List, [], arith, length, ==_zero_pos, ◌==◌,
}
use omni_file_system.Prelude.Bytes.{Bytes}
use omni_file_system.HashMap
use omni_file_system.Stream.Laws.{IsSound}
use omni_file_system.Codec.RoundTrip.{IsCode, AreBytes}
use omni_file_system.Types.{MetaEntry}
use omni_file_system.Instance.{FsInstance, SessionInfo, ok, entry?}
use omni_file_system.Directory.{block_size_of}
use omni_file_system.Files.{file_read, read_content, lookup_path, entry_in_range, first_or_zero}
use omni_file_system.Files.Chunks.{IsRegion}
use omni_file_system.Files.Carry.{Carries, read_chunks-Carries}

module _ (reader : SessionInfo) (path : Bytes) (index : ℕ) (entry : MetaEntry) (bs : List ℕ)
    (content : Bytes) (inst : FsInstance)
    (r : IsRegion inst.blocks_offset (block_size_of inst) inst.num_blocks) where
  pub file_read-Carries :
      HashMap.find inst.path_index path ≡ some index
      → entry? inst.meta_entries index ≡ some entry
      → entry.valid ≡ 0
      → entry.type ≡ 0
      → entry.start_index ≡ first_or_zero bs
      → entry.total_size ≡ length content
      → 0 < length content
      → IsSound inst.file
      → IsCode inst.encoding_map
      → AreBytes content
      → Carries r inst.encoding_map inst.file bs content
      → (file_read (some reader) (some path) inst).0 ≡ ok content
  unfolding file_read lookup_path entry_in_range read_content
  file_read-Carries found here used file start size some_left sound code bytes c =
      let v : (entry.valid == 0) ≡ true = ground arith in
      let t : (entry.type == 0) ≡ true = ground arith in
      let (e, kept) =
        read_chunks-Carries r (suc (length content)) inst.encoding_map bs content [] sound code
          bytes c (omega arith) in
      rw (found, here, v, t, size, ==_zero_pos (length content) some_left, start, e) refl
