-- ===== src/Directory.antt =====
-- The blocks of a directory: `dir_block_read`, `dir_add_child`, `dir_remove_child` and
-- `find_free_meta_index` of source/core/ofs_core.cpp. A directory's block holds the number of the next
-- block and then the indices of the children, 0 where there is none.
pub mod Words
pub mod Slots
pub mod Block
pub mod Listing
use omni_file_system.Prelude.{
  ℕ, zero, suc, ◌+◌, ◌-◌, ◌*◌, ◌/◌, ◌%◌, ◌==◌, Bool, true, false, not, ◌&&◌, Option, none, some,
  List, [], ◌∷◌, ◌++◌, map, length, take, drop, replicate, if◌then◌else◌,
}
use mathlib.Core.List.{flatten}
use omni_file_system.Prelude.Bytes.{Bytes}
use omni_file_system.Prelude.Words.{u32, sub_u64, to_le, from_le}
use omni_file_system.Types.{MetaEntry}
use omni_file_system.Types.Fields.{field_le}
use omni_file_system.Stream.{Fstream, is_good, is_eof, seekp, seekg, write, flush, read}
use omni_file_system.Blocks.{block_position, filled}
use omni_file_system.Bitmap.{bitmap_get, bitmap_set}
use omni_file_system.Instance.{
  FsInstance, Op, Outcome, ok, err, ◌>>=◌, ◌>>◌, pure, modify, call, Loop, finished, running,
  looped, entry_at, set_entry,
}

-- The first entry with `valid` set, counted from 1; 0 if there is none.
unfoldable pub find_free_from : List MetaEntry → ℕ → ℕ
find_free_from [] i = 0
find_free_from (e ∷ es) i = if not (e.valid == 0) then i + 1 else find_free_from es (suc i)

unfoldable pub find_free_meta_index : FsInstance → ℕ
unfolding find_free_from
find_free_meta_index inst = find_free_from inst.meta_entries 0

-- `n` words of four bytes.
unfoldable pub words_of : ℕ → Bytes → List ℕ
words_of zero bs = []
words_of (suc n) bs = field_le 4 bs ∷ words_of n (drop 4 bs)

unfoldable pub words_image : List ℕ → Bytes
words_image [] = []
words_image (v ∷ vs) = to_le 4 v ++ words_image vs

unfoldable pub nonzero : List ℕ → List ℕ
nonzero [] = []
nonzero (v ∷ vs) = let rest = nonzero vs in if not (v == 0) then v ∷ rest else rest

-- `(blk_size - sizeof(next)) / sizeof(uint32_t)`
abbrev pub payload_count : ℕ → ℕ
payload_count blk_size = sub_u64 blk_size 4 / 4

-- The loop of `dir_block_read` at block `cur`, `none` where it returns false.
unfoldable pub dir_loop : ℕ → ℕ → ℕ → ℕ → List ℕ → Fstream → Loop (Option (List ℕ)) × Fstream
dir_loop zero region blk_size cur children f = (running, f)
dir_loop (suc fuel) region blk_size cur children f =
    let g = seekg (block_position region blk_size cur) f in
    let (head, h) = read 4 g in
    let count = payload_count blk_size in
    let (body, k) = read (count * 4) h in
    let next = from_le (filled 4 head) in
    let found = nonzero (words_of count (filled (count * 4) body)) in
    let onward = dir_loop fuel region blk_size next (children ++ found) k in
    let failed : Loop (Option (List ℕ)) × Fstream = (finished none, k) in
    let unread : Loop (Option (List ℕ)) × Fstream = (finished none, g) in
    let round =
      (if is_good g.state
        then (if not (is_good k.state) && not (is_eof k.state) then failed else onward)
        else unread) in
    let done : Loop (Option (List ℕ)) × Fstream = (finished (some children), f) in
    if cur == 0 then done else round

abbrev pub block_size_of : FsInstance → ℕ
block_size_of inst = u32 inst.header.block_size

unfoldable pub dir_block_read : ℕ → MetaEntry → Op (Option (List ℕ))
dir_block_read fuel dir inst =
    let (r, f) =
      dir_loop fuel inst.blocks_offset (block_size_of inst) dir.start_index [] inst.file in
    (looped r, record inst { file = f })

-- The first free block from bit `i` on.
unfoldable pub first_free : ℕ → ℕ → Bytes → Option ℕ
first_free zero i bits = none
first_free (suc left) i bits =
    if not (bitmap_get bits i) then some i else first_free left (suc i) bits

-- `new_payload`: the first `count` children, and zeros.
abbrev pub new_payload : ℕ → List ℕ → List ℕ
new_payload count children =
    let kept = take count children in kept ++ replicate (count - length kept) 0

-- The end of `dir_add_child` and of `dir_remove_child`: the children written to the block.
unfoldable pub write_children : ℕ → List ℕ → FsInstance → Bool × FsInstance
write_children block_index children inst =
    let blk_size = block_size_of inst in
    let f = seekp (block_position inst.blocks_offset blk_size block_index) inst.file in
    let g = write (to_le 4 0) f in
    let h = flush (write (words_image (new_payload (payload_count blk_size) children)) g) in
    (is_good h.state, record inst { file = h })

-- The block of the directory `parent`; an empty directory gets the first free block, whose bit and
-- `start_index` are set. 0 if there is none.
unfoldable pub own_block : ℕ → MetaEntry → Op ℕ
own_block parent dir inst = elim (dir.start_index == 0) [
  | false ↦ (ok dir.start_index, inst)
  | true ↦ elim (first_free inst.num_blocks 0 inst.free_bitmap) [
    | none ↦ (ok 0, inst)
    | some i ↦ (
      ok (i + 1),
      record inst {
        free_bitmap = bitmap_set inst.free_bitmap i true;
        meta_entries = set_entry inst.meta_entries parent (record dir { start_index = i + 1 });
      },
    )
  ]
]

-- `parent` is the directory's index, the reference of the source.
unfoldable pub dir_add_child : ℕ → ℕ → ℕ → Op Bool
dir_add_child fuel parent child_idx = do
  dir ← entry_at parent
  read_back ← dir_block_read fuel dir
  elim read_back [
    | none ↦ pure false
    | some children ↦ do
      block_index ← own_block parent dir
      if block_index == 0
          then pure false
          else call (write_children block_index (children ++ child_idx ∷ []))
  ]

-- `std::find` and `erase`: `none` if the child is not there.
unfoldable pub erase_first : ℕ → List ℕ → Option (List ℕ)
erase_first v [] = none
erase_first v (c ∷ cs) =
    if c == v then some cs else elim (erase_first v cs) [ none ↦ none | some r ↦ some (c ∷ r) ]

unfoldable pub dir_remove_child : ℕ → ℕ → ℕ → Op Bool
dir_remove_child fuel parent child_idx = do
  dir ← entry_at parent
  read_back ← dir_block_read fuel dir
  elim read_back [
    | none ↦ pure false
    | some children ↦ elim (erase_first child_idx children) [
      | none ↦ pure false
      | some rest ↦
          if dir.start_index == 0 then pure false else call (write_children dir.start_index rest)
    ]
  ]
