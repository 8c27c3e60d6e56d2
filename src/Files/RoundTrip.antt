-- ===== src/Files/RoundTrip.antt =====
-- `file_read` after `file_create`, from the caller's side.
use omni_file_system.Prelude.{
  ℕ, suc, ◌-◌, ◌*◌, ◌≤◌, ◌<◌, ◌≡◌, refl, true, false, some, List, length,
}
use omni_file_system.Prelude.Bytes.{Bytes}
use omni_file_system.HashMap
use omni_file_system.HashMap.View.{IsValid}
use omni_file_system.Bitmap.Allocation.{count_free}
use omni_file_system.Codec.RoundTrip.{AreBytes}
use omni_file_system.Types.{MetaEntry}
use omni_file_system.Instance.{FsInstance, SessionInfo, ok}
use omni_file_system.Instance.Tables.{AreTables}
use omni_file_system.Directory.{find_free_meta_index, block_size_of}
use omni_file_system.Directory.Words.{IsIndex}
use omni_file_system.Directory.Slots.{find_free_meta_index-some}
use omni_file_system.Paths.{split_path_tokens, parent_and_name}
use omni_file_system.Files.{file_create, file_read, is_absolute, blocks_for}
use omni_file_system.Files.Transfer.{IsReady, create_blocks-Created}
use omni_file_system.Files.Placing.{IsDirectory}
use omni_file_system.Files.ReadBack.{start_of, start_ready, create_ends, reads_back}

module _ (fuel now : ℕ) (s reader : SessionInfo) (path parent_path basename content : Bytes)
    (parent : ℕ) (dir : MetaEntry) (cs : List ℕ) (inst : FsInstance) where
  -- On a ready instance (working device, blocks in the address range, a bit for every block, a
  -- substitution without collisions) whose tables lie below the block region and whose path
  -- index is well formed: for an absolute path that is not indexed, whose parent path is indexed
  -- to an entry in use with one allocated block, of 8 bytes at least, that lists children, when
  -- a metadata entry with a 32-bit index is free and the content is not empty, consists of bytes
  -- and fits the free blocks, `file_create` succeeds, and afterwards `file_read` of the path,
  -- under any session, returns exactly the content.
  pub file_read-file_create :
      IsReady inst
      → AreTables inst
      → IsValid inst.path_index
      → IsDirectory inst parent dir cs
      → is_absolute path ≡ true
      → parent_and_name (split_path_tokens path) ≡ some (parent_path, basename)
      → HashMap.find inst.path_index parent_path ≡ some parent
      → HashMap.contains inst.path_index path ≡ false
      → IsIndex (find_free_meta_index inst)
      → 0 < length content
      → AreBytes content
      → length content ≤ inst.num_blocks * (block_size_of inst - 4)
      → blocks_for (length content) (block_size_of inst - 4)
        ≤ count_free inst.num_blocks 0 inst.free_bitmap
      → let r = file_create (suc (suc fuel)) now (some s) (some path) content inst in
        (r.0 ≡ ok tt) × ((file_read (some reader) (some path) r.1).0 ≡ ok content)
  file_read-file_create ready tables valid d absolute cut found absent idx some_left bytes fits
        enough =
      let (free, slot, unused) =
        find_free_meta_index-some inst (find_free_meta_index inst) refl idx.0 in
      let created =
        create_blocks-Created
          (start_of fuel now s reader path parent_path basename content parent dir cs inst ready
            tables d some_left free slot)
          (find_free_meta_index inst) content
          (start_ready fuel now s reader path parent_path basename content parent dir cs inst ready
            tables d some_left free slot)
          some_left fits enough in
      let e =
        create_ends fuel now s reader path parent_path basename content parent dir cs inst ready
          tables d some_left free slot created unused idx absolute cut found absent in
      let back =
        reads_back fuel now s reader path parent_path basename content parent dir cs inst ready
          tables d some_left free slot created unused idx valid bytes in
      rw e (refl, back)
