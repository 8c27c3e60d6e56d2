-- ===== src/Files/Placing.antt =====
-- A new entry in its directory: the entry's arrays, and the directory's block.
use omni_file_system.Prelude.{
  ℕ, suc, ◌-◌, ◌≤◌, ◌≡◌, refl, true, some, List, [], ◌∷◌, ◌++◌, arith, length, take, replicate,
  length-append, length-take, length-replicate,
}
use omni_file_system.Prelude.Bytes.{Bytes, c_str, strncpy}
use omni_file_system.Stream.{Fstream}
use omni_file_system.Stream.Laws.{IsSound, Wrote}
use omni_file_system.Blocks.Laws.{start}
use omni_file_system.Bitmap.{bitmap_get}
use omni_file_system.Types.{MetaEntry, set_name}
use omni_file_system.Types.Images.{HasArrays}
use omni_file_system.Instance.{FsInstance, ok, entry?}
use omni_file_system.Instance.Persist.{with_next_index}
use omni_file_system.Directory.{dir_add_child, block_size_of}
use omni_file_system.Directory.Words.{IsIndex}
use omni_file_system.Directory.Block.{Lists, dir_image}
use omni_file_system.Directory.Listing.{Placed, add_listed}
use omni_file_system.Files.{as_new_file}

-- The entry `parent` is a directory in use, with one block, which is allocated and lists `cs`.
pub record IsDirectory (inst : FsInstance) (parent : ℕ) (dir : MetaEntry) (cs : List ℕ)
    : Type 0 where
  pub here : entry? inst.meta_entries parent ≡ some dir
  pub used : dir.valid ≡ 0
  pub room : 8 ≤ block_size_of inst
  pub placed : Placed inst dir.start_index
  pub within : dir.start_index ≤ inst.num_blocks
  pub taken : bitmap_get inst.free_bitmap (dir.start_index - 1) ≡ true
  pub lists : Lists placed room inst.file cs

length-strncpy : (n : ℕ) (s : Bytes) → length (strncpy n s) ≡ suc n
unfolding strncpy
length-strncpy n s =
    let kept = take n (c_str s) in
    omega (
      arith,
      length-append kept (replicate (suc n - length kept) 0),
      length-take n (c_str s),
      length-replicate {A = ℕ} (suc n - length kept) 0,
    )

pub as_new_file-HasArrays :
    (parent : ℕ) (basename : Bytes) (size owner now : ℕ) (e : MetaEntry)
    → HasArrays e
    → HasArrays (as_new_file parent basename size owner now e)
unfolding set_name
as_new_file-HasArrays parent basename size owner now e h = (length-strncpy 11 basename, h.1)

module _ (fuel : ℕ) (inst : FsInstance) (parent : ℕ) (dir : MetaEntry) (cs : List ℕ)
    (d : IsDirectory inst parent dir cs) (v : ℕ) (bits : Bytes) (entries : List MetaEntry) where
  -- The instance after the tables were written.
  abbrev pub tabled : Fstream → FsInstance
  tabled f = record inst {
    header = with_next_index v inst.header;
    free_bitmap = bits;
    meta_entries = entries;
    next_meta_index = v;
    file = f;
  }

  -- The new entry goes to the directory's block.
  pub added :
      (child : ℕ) (f : Fstream)
      → IsSound f
      → Lists d.placed d.room f cs
      → entry? entries parent ≡ some dir
      → IsIndex child
      → let r = dir_add_child (suc (suc fuel)) parent child (tabled f) in
        (r.0 ≡ ok true)
        × Wrote (start d.placed) (dir_image (block_size_of inst) (cs ++ child ∷ [])) f r.1.file
        × (r.1 ≡ tabled r.1.file)
  unfolding with_next_index
  added child f sound l here idx =
      let (done, w, lists, keep) =
        add_listed fuel (tabled f) (record { sound = sound; room = d.room }) dir dir.start_index
          d.placed refl cs l parent child here idx in
      (done, w, keep)
