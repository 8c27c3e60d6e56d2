-- ===== src/Mount/Restart.antt =====
-- `fs_init` after `fs_shutdown`.
use mathlib.Core.List.{flatten}
use omni_file_system.Prelude.{
  ℕ, ◌+◌, ◌*◌, ◌/◌, ◌%◌, ◌≡◌, refl, sym, ap, ◌∙◌, true, false, ◌==◌, Option, some, ==_iff, List,
  ◌∷◌, ◌++◌, map, replicate, arith, length, length-append, length-replicate, ==_zero_pos,
}
use omni_file_system.Prelude.Bytes.{Bytes}
use omni_file_system.Prelude.Words.{u32, sub_u64, to_le}
use omni_file_system.Prelude.Preds.{All}
use omni_file_system.HashMap
use omni_file_system.Stream.{Fstream, read_at}
use omni_file_system.Stream.Laws.{SameFile, is_good-IsSound, read_at-parts}
use omni_file_system.Format.{bitmap_size}
use omni_file_system.Types.{MetaEntry, OmniHeader, no_user, new_meta_entry}
use omni_file_system.Types.Images.{
  IsUser, IsMeta, user_image, user_of, length-user_image, user_of-user_image, meta_image, meta_of,
  length-meta_image, meta_of-meta_image,
}
use omni_file_system.Instance.{FsInstance, ok}
use omni_file_system.Instance.Persist.{with_next_index}
use omni_file_system.Instance.Frame.{KeepsRegion}
use omni_file_system.Paths.{rebuild_path_index}
use omni_file_system.Mount.{
  fs_init, needs_format, Host, reopened, read_over, elements, read_header, index_users, next_or_two,
  mount, fs_shutdown,
}
use omni_file_system.Mount.Tables.{Shows, read_over-Shows, elements-images}
use omni_file_system.Mount.Saved.{
  IsSaved, saved_header, saved_header-IsHeader, user_bytes_of, meta_bytes_of, users_wide,
  entries_wide, IsStored, fs_shutdown-IsStored,
}
use omni_file_system.Mount.Steps.{
  reopened-SameFile, read_header-Shows, mount-runs, length-image_replicate, key_kept, map_kept,
  index_kept, blocks_lem,
}

-- What a restart leaves of an instance: the sessions are gone, the indexes are built again.
unfoldable pub restarted : Host → FsInstance → Fstream → FsInstance
restarted host inst f = rebuild_path_index (record inst {
  header = with_next_index inst.next_meta_index inst.header;
  file = f;
  user_index = index_users inst.users 0 (HashMap.new 101 host.hash);
  path_index = HashMap.new 1009 host.hash;
  sessions = HashMap.new 409 host.hash;
})

module _ (host : Host) (inst : FsInstance) (s : IsSaved inst) (d : Fstream)
    (stored : IsStored inst s d) where
  abbrev o : OmniHeader
  o = saved_header inst s

  metadata_size :
      (sub_u64 inst.header.change_log_offset inst.header.file_state_storage_offset
        ≡ length inst.meta_entries * 72)
      × ((length inst.meta_entries * 72 % 72 == 0) ≡ true)
      × (u32 (length inst.meta_entries * 72 / 72) ≡ length inst.meta_entries)
  metadata_size =
      let a = s.bitmap_offset in
      let b = s.metadata_offset in
      let c = s.bitmap_after in
      let e = s.blocks_offset in
      let n = s.narrow in
      let whole : length inst.meta_entries * 72 % 72 ≡ 0 = omega arith in
      (omega arith, (==_iff (length inst.meta_entries * 72 % 72) 0).1 whole, omega arith)

  numbers :
      (u32 inst.num_blocks ≡ inst.num_blocks)
      × (u32 (inst.bitmap_offset + bitmap_size inst.num_blocks) ≡ inst.blocks_offset)
      × ((inst.header.block_size == 0) ≡ false)
      × (next_or_two inst.next_meta_index ≡ inst.next_meta_index)
  numbers =
      let c = s.counted in
      let b = s.bits in
      let e = s.blocks_offset in
      let n = s.narrow in
      (
        omega arith,
        omega arith,
        ==_zero_pos inst.header.block_size s.block_size,
        (let k = ==_zero_pos inst.next_meta_index s.some_index in rw k refl),
      )

  user_memory_wide :
      length (flatten (map user_image (replicate inst.header.max_users no_user)))
      ≡ length (user_bytes_of inst s)
  unfolding user_image to_le
  user_memory_wide =
      let one : length (user_image no_user) ≡ 128 = refl in
      let all = length-image_replicate user_image no_user inst.header.max_users in
      let e = s.max_users in
      let k : inst.header.max_users * length (user_image no_user) ≡ length inst.users * 128 =
        rw (one, e) refl in
      all ∙ k ∙ sym (users_wide inst s)

  meta_memory_wide :
      length (flatten (map meta_image (replicate (length inst.meta_entries) new_meta_entry)))
      ≡ length (meta_bytes_of inst s)
  unfolding meta_image to_le
  meta_memory_wide =
      let one : length (meta_image new_meta_entry) ≡ 72 = refl in
      let all = length-image_replicate meta_image new_meta_entry (length inst.meta_entries) in
      all ∙ ap (λ k. length inst.meta_entries * k) one ∙ sym (entries_wide inst s)

  pub mount-IsStored :
      (f : Fstream)
      → SameFile d f
      → (g : Fstream) × (mount host f ≡ ok (restarted host inst g)) × SameFile d g
  unfolding restarted with_next_index
  mount-IsStored f same =
      let (found, same0) =
        read_header-Shows o (saved_header-IsHeader inst s) s.magic same stored.header_shown in
      let f0 = (read_header f).1 in
      let n = length inst.meta_entries in
      let user_memory = flatten (map user_image (replicate inst.header.max_users no_user)) in
      let meta_memory = flatten (map meta_image (replicate n new_meta_entry)) in
      let (eu, same1) =
        read_over-Shows user_memory inst.header.user_table_offset (user_bytes_of inst s) same0
          stored.users_shown user_memory_wide in
      let f1 = (read_over user_memory inst.header.user_table_offset f0).1 in
      let shown_entries : Shows d inst.header.file_state_storage_offset (meta_bytes_of inst s) =
        rw (s.metadata_offset) (stored.entries_shown) in
      let (em, same2) =
        read_over-Shows meta_memory inst.header.file_state_storage_offset (meta_bytes_of inst s)
          same1 shown_entries meta_memory_wide in
      let f2 = (read_over meta_memory inst.header.file_state_storage_offset f1).1 in
      let bit_memory : Bytes = replicate (bitmap_size inst.num_blocks) 0 in
      let shown_bits : Shows d inst.header.change_log_offset inst.free_bitmap =
        rw (s.bitmap_offset) (stored.bits_shown) in
      let (eb, same3) =
        read_over-Shows bit_memory inst.header.change_log_offset inst.free_bitmap same2 shown_bits
          (length-replicate {A = ℕ} (bitmap_size inst.num_blocks) 0 ∙ sym (s.bits)) in
      let f3 = (read_over bit_memory inst.header.change_log_offset f2).1 in
      let (size, whole, count) = metadata_size in
      let (blocks, region, some_size, index) = numbers in
      let run =
        mount-runs host f f0 o (ap (λ x. (x, f0)) found) (n * 72) size whole some_size n count
          (user_bytes_of inst s) (meta_bytes_of inst s) inst.free_bitmap f1 f2 f2 f3 inst.num_blocks
          (ap (λ x. (x, f1)) eu) (ap (λ x. (x, f2)) em) (blocks_lem inst s f2)
          (ap (λ x. (x, f3)) eb) in
      let users_back : elements user_of 128 inst.header.max_users (user_bytes_of inst s)
          ≡ inst.users =
        let e = s.max_users in
        rw e (
          elements-images IsUser user_of user_image 128 inst.users user_of-user_image
            length-user_image s.users) in
      let entries_back =
        elements-images IsMeta meta_of meta_image 72 inst.meta_entries meta_of-meta_image
          (λ e h. length-meta_image e (h.name, h.reserved)) s.entries in
      let r = inst.header.reserved in
      let h = s.header in
      let key = key_kept r h.reserved inst.next_meta_index s.next_meta_index in
      let codes_kept = map_kept r h.reserved inst.next_meta_index s.next_meta_index in
      let next = index_kept r h.reserved inst.next_meta_index s.next_meta_index in
      let place = s.bitmap_offset in
      let place' = s.metadata_offset in
      let e = s.encoding_map in
      let e' = s.private_key in
      let files = s.max_files in
      (
        f3,
        rw
            (
              run, users_back, entries_back, codes_kept, key, next, index, place, place', blocks,
              region, e, e', files,
            )
            refl,
        same3,
      )

Shows-front : {f : Fstream} {p : ℕ} (xs ys : Bytes) → Shows f p (xs ++ ys) → Shows f p xs
Shows-front {f} {p} xs ys shown =
    let wide = length-append xs ys in
    let whole : read_at f.byte p (length xs + length ys) ≡ xs ++ ys =
      ap (read_at f.byte p) (sym wide) ∙ shown.bytes in
    record {
      inside = omega (arith, wide, shown.inside);
      bytes = (read_at-parts f.byte p (length xs) (length ys) xs ys whole refl).0;
    }

KeepsRegion-SameFile :
    {region : ℕ} {f g h : Fstream} → KeepsRegion region f g → SameFile g h → KeepsRegion region f h
KeepsRegion-SameFile k same = record {
  sound = same.sound;
  grows = omega (arith, k.grows, same.extent);
  beyond = λ q le. ap (λ b. b q) same.bytes ∙ k.beyond q le;
}

module _ (host : Host) (inst : FsInstance) (s : IsSaved inst) (root : MetaEntry)
    (es : List MetaEntry) (first : inst.meta_entries ≡ root ∷ es) (used : root.valid ≡ 0)
    (directory : root.type ≡ 1) where
  needs_no_format :
      (d : Fstream)
      → IsStored inst s d
      → (f : Fstream) → SameFile d f
      → ((needs_format f).0 ≡ false) × SameFile d (needs_format f).1
  unfolding needs_format flatten with_next_index
  needs_no_format d stored f same =
      let (found, same0) =
        read_header-Shows (saved_header inst s) (saved_header-IsHeader inst s) s.magic same
          stored.header_shown in
      let f0 = (read_header f).1 in
      let place = s.metadata_offset in
      let whole : Shows d inst.header.file_state_storage_offset
          (meta_image root ++ flatten (map meta_image es)) =
        rw place (rw first at (stored.entries_shown)) in
      let entries : All IsMeta (root ∷ es) = rw first at (s.entries) in
      let m = entries.0 in
      let wide = length-meta_image root (m.name, m.reserved) in
      let (e, same1) =
        read_over-Shows (meta_image new_meta_entry) inst.header.file_state_storage_offset
          (meta_image root) same0
          (Shows-front (meta_image root) (flatten (map meta_image es)) whole)
          (length-meta_image new_meta_entry (refl, refl) ∙ sym wide) in
      let back = meta_of-meta_image root m in
      let v : (root.valid == 0) ≡ true = ground arith in
      let t : (root.type == 1) ≡ true = ground arith in
      let good = is_good-IsSound same1.sound in
      let read : read_header f ≡ (some (saved_header inst s), f0) = ap (λ x. (x, f0)) found in
      rw (needs_format, read, read, e, back, good, v, t) (refl, same1)

  -- For an instance on a working device whose header fits its tables (magic number, offsets in
  -- their order, one user slot per `max_users`, fields of the right width, a bitmap byte for
  -- every eight blocks, as many blocks as `fs_init` counts, the maps as the header holds them)
  -- and whose first entry is a directory in use: when the container that `fs_shutdown` leaves is
  -- opened again on a device that refuses nothing, `fs_init` does not format it but returns the
  -- same instance except that the next index is saved in its header, that there are no sessions,
  -- and that the indexes of users and paths are those that `fs_init` builds from the tables in
  -- place of the old ones; the bytes of the block region are unchanged.
  pub fs_init-fs_shutdown :
      (fuel : ℕ) (config : Option Bytes)
      → ((n : ℕ) → host.refuses n ≡ false)
      → let file = reopened host (fs_shutdown inst) in
        (f : Fstream) × (fs_init host fuel config (some file) ≡ ok (restarted host inst f))
        × KeepsRegion inst.blocks_offset inst.file f
  unfolding fs_init
  fs_init-fs_shutdown fuel config reliable =
      let d = fs_shutdown inst in
      let stored = fs_shutdown-IsStored inst s in
      let file = reopened host d in
      let (kept, same) = needs_no_format d stored file (reopened-SameFile host d reliable) in
      let (f, mounted, same') = mount-IsStored host inst s d stored (needs_format file).1 same in
      (f, rw (kept, mounted) refl, KeepsRegion-SameFile stored.kept same')
