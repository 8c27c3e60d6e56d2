-- ===== src/Mount/Steps.antt =====
-- The steps of mounting a container that `fs_shutdown` has written.
use mathlib.Core.List.{flatten}
use omni_file_system.Prelude.{
  ℕ, zero, suc, ◌+◌, ◌-◌, ◌*◌, ◌/◌, ◌%◌, ◌^◌, ◌≤◌, ◌<◌, ◌≡◌, refl, sym, ap, ◌∙◌, true, false, ◌==◌,
  ltb, some, ◌++◌, map, replicate, arith, length, take, drop, take-take, take_all, drop-take,
  take-append_within, take-append_left, drop-append_left, drop-append_within, length-append,
  length-take, length-drop, length-replicate, ==_zero_pos,
}
use omni_file_system.Prelude.Bytes.{Bytes, c_str, eq_bytes}
use omni_file_system.Prelude.Words.{u32, u64, sub_u64, from_le, to_le, length-to_le}
use omni_file_system.HashMap
use omni_file_system.Stream.{Fstream}
use omni_file_system.Stream.Laws.{SameFile, is_good-IsSound}
use omni_file_system.Format.{bitmap_size}
use omni_file_system.Types.{OmniHeader, no_user, new_meta_entry}
use omni_file_system.Types.Fields.{from_le-to_le}
use omni_file_system.Types.Images.{
  IsHeader, header_image, length-header_image, header_of-header_image, user_image, user_of,
  meta_image, meta_of,
}
use omni_file_system.Instance.{FsInstance, ok}
use omni_file_system.Instance.Persist.{with_next_index}
use omni_file_system.Paths.{rebuild_path_index}
use omni_file_system.Users.{strncmp_eq}
use omni_file_system.Mount.{
  Host, magic, reopened, read_over, elements, read_header, index_users, blocks_of_header,
  next_or_two, mount,
}
use omni_file_system.Mount.Tables.{Shows, read_over-Shows}
use omni_file_system.Mount.Saved.{IsSaved, saved_header}

pub reopened-SameFile :
    (host : Host) (f : Fstream) → ((n : ℕ) → host.refuses n ≡ false) → SameFile f (reopened host f)
reopened-SameFile host f reliable = record {
  sound = record { is_good_state = refl; reliable = reliable };
  bytes = refl;
  extent = refl;
}

pub read_header-Shows :
    (o : OmniHeader) {f g : Fstream}
    → IsHeader o
    → o.magic ≡ magic
    → SameFile f g
    → Shows f 0 (header_image o)
    → ((read_header g).0 ≡ some o) × SameFile f (read_header g).1
unfolding read_header strncmp_eq c_str eq_bytes
read_header-Shows o {f} {g} h m same shown =
    let wide = length-header_image o h in
    let (e, kept) =
      read_over-Shows (replicate 512 0) 0 (header_image o) same shown
        (length-replicate {A = ℕ} 512 0 ∙ sym wide) in
    let back = header_of-header_image o h in
    rw (e, back, m, is_good-IsSound kept.sound) (refl, kept)

-- The steps of mounting where every read succeeds.
pub mount-runs :
    (host : Host) (f f0 : Fstream) (o : OmniHeader)
    → read_header f ≡ (some o, f0)
    → (metadata : ℕ) → sub_u64 o.change_log_offset o.file_state_storage_offset ≡ metadata
    → (metadata % 72 == 0) ≡ true
    → (o.block_size == 0) ≡ false
    → (count : ℕ) → u32 (metadata / 72) ≡ count
    → (ub mb bits : Bytes) (f1 f2 f3 f4 : Fstream) (blocks : ℕ)
    → read_over (flatten (map user_image (replicate o.max_users no_user))) o.user_table_offset f0
      ≡ (ub, f1)
    → read_over
        (flatten (map meta_image (replicate count new_meta_entry)))
        o.file_state_storage_offset
        f1
      ≡ (mb, f2)
    → blocks_of_header o count f2 ≡ (blocks, f3)
    → read_over (replicate (bitmap_size blocks) 0) o.change_log_offset f3 ≡ (bits, f4)
    → mount host f
      ≡ ok (
          rebuild_path_index (record {
            header = o;
            file = f4;
            users = elements user_of 128 o.max_users ub;
            user_index =
                index_users (elements user_of 128 o.max_users ub) 0 (HashMap.new 101 host.hash);
            meta_entries = elements meta_of 72 count mb;
            free_bitmap = bits;
            encoding_map = take 256 (drop 64 o.reserved);
            private_key = take 64 o.reserved;
            path_index = HashMap.new 1009 host.hash;
            sessions = HashMap.new 409 host.hash;
            max_files = count;
            num_blocks = u32 blocks;
            blocks_offset = u32 (o.change_log_offset + bitmap_size blocks);
            bitmap_offset = o.change_log_offset;
            metadata_offset = o.file_state_storage_offset;
            next_meta_index = next_or_two (from_le (take 8 (drop 320 o.reserved)));
          }))
unfolding mount
mount-runs host f f0 o found metadata em whole some_size count ec ub mb bits f1 f2 f3 f4 blocks e1
      e2 e3 e4 =
    rw (mount, found, found, em, whole, some_size, ec, e1, e2, e3, e4) refl

ltb_above : (a b : ℕ) → b ≤ a → ltb a b ≡ false
ltb_above a b h = ground arith

module _ (inst : FsInstance) (s : IsSaved inst) where
  pub blocks_lem :
      (f : Fstream)
      → blocks_of_header (saved_header inst s) (length inst.meta_entries) f ≡ (inst.num_blocks, f)
  unfolding blocks_of_header with_next_index
  blocks_lem f =
      let h = s.header in
      let size = h.total_size in
      let fits = s.fits in
      let most : inst.header.max_users < 2 ^ 32 = h.max_users in
      let many = s.max_users in
      let where_bits = s.bitmap_after in
      let last = s.blocks_offset in
      let small = s.narrow in
      let U = length inst.users * 128 in
      let M = length inst.meta_entries * 72 in
      let a : u64 (inst.header.max_users * 128) ≡ U = omega arith in
      let b : u64 (length inst.meta_entries * 72) ≡ M = omega arith in
      let c : sub_u64 (sub_u64 (sub_u64 inst.header.total_size inst.header.header_size) U) M
          ≡ inst.header.total_size - inst.header.header_size - U - M =
        omega arith in
      let d : ltb (inst.header.total_size - inst.header.header_size - U - M) inst.header.block_size
          ≡ false =
        ltb_above (inst.header.total_size - inst.header.header_size - U - M) inst.header.block_size
          (omega arith) in
      let e = s.num_blocks in rw (a, b, c, d, e, ==_zero_pos inst.num_blocks s.some_blocks) refl

pub length-image_replicate {ℓ} :
    {A : Type ℓ} (image : A → Bytes) (x : A) (n : ℕ)
    → length (flatten (map image (replicate n x))) ≡ n * length (image x)
unfolding flatten
length-image_replicate image x zero = omega arith
length-image_replicate image x (suc n) =
    let rest = length-image_replicate image x n in
    let e : suc n * length (image x) ≡ length (image x) + n * length (image x) = grind arith in
    omega (arith, length-append (image x) (flatten (map image (replicate n x))), rest, e)

-- The slices of `reserved` that hold the maps and the next index.
module _ (r : Bytes) (wide : length r ≡ 340) (v : ℕ) (small : v < 2 ^ 64) where
  abbrev pub reserved_after : Bytes
  reserved_after = take 320 r ++ (to_le 8 v ++ drop 328 r)

  pub key_kept : take 64 reserved_after ≡ take 64 r
  key_kept =
      take-append_within 64 (take 320 r) (to_le 8 v ++ drop 328 r)
        (omega (arith, length-take 320 r))
      ∙ take-take 64 320 r
      ∙ take_all 320 (take 64 r) (omega (arith, length-take 64 r))

  pub map_kept : take 256 (drop 64 reserved_after) ≡ take 256 (drop 64 r)
  map_kept =
      let e =
        drop-append_within 64 (take 320 r) (to_le 8 v ++ drop 328 r)
          (omega (arith, length-take 320 r)) in
      let k = length-drop 64 (take 320 r) in
      rw e (
        take-append_left 256 (drop 64 (take 320 r)) (to_le 8 v ++ drop 328 r)
          (omega (arith, k, length-take 320 r))
        ∙ drop-take 64 320 r)

  pub index_kept : from_le (take 8 (drop 320 reserved_after)) ≡ v
  index_kept =
      let e =
        drop-append_left 320 (take 320 r) (to_le 8 v ++ drop 328 r)
          (omega (arith, length-take 320 r)) in
      rw e (
        ap from_le (take-append_left 8 (to_le 8 v) (drop 328 r) (length-to_le 8 v))
        ∙ from_le-to_le 8 v small)
