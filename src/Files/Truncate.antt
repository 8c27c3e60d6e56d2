-- ===== src/Files/Truncate.antt =====
-- `file_truncate` of source/core/ofs_core.cpp.
use omni_file_system.Prelude.{
  ℕ, ◌+◌, ◌-◌, ◌==◌, Bool, true, false, Option, List, [], ◌∷◌, length, take, drop, leb, ltb,
  if◌then◌else◌,
}
use omni_file_system.Prelude.Bytes.{Bytes}
use omni_file_system.Prelude.Words.{u32, to_le}
use omni_file_system.Stream.{Fstream, seekp, write, flush}
use omni_file_system.Blocks.{block_position, write_block, get_block_chain}
use omni_file_system.Types.{
  error_invalid_operation, error_not_found, error_no_space, error_io_error,
}
use omni_file_system.Instance.{
  FsInstance, SessionInfo, Op, ◌>>=◌, ◌>>◌, pure, fail, gets, modify, check, require, call,
  modify_entry,
}
use omni_file_system.Instance.Persist.{persist_bitmap, persist_meta_entries, persist_header}
use omni_file_system.Directory.{block_size_of}
use omni_file_system.Files.{
  block_payload_of, blocks_for, first_or_zero, lookup_path, entry_in_range, take_blocks, give_back,
}

-- `chain.back()`
unfoldable pub last_of : ℕ → List ℕ → ℕ
last_of b [] = b
last_of b (c ∷ cs) = last_of c cs

-- The link of block `b` is written: `seekp`, four bytes, `flush`. The product is one of 64 bits.
unfoldable pub relink : ℕ → ℕ → FsInstance → FsInstance
relink b next inst = record inst {
  file = flush (
      write (to_le 4 next)
        (seekp (block_position inst.blocks_offset inst.header.block_size b) inst.file));
}

-- The loop over the new blocks: each is written empty, with its link.
unfoldable pub extend_chain : ℕ → ℕ → List ℕ → Fstream → Bool × Fstream
extend_chain region block_size [] f = (true, f)
extend_chain region block_size (b ∷ bs) f =
    let (done, g) = write_block region block_size b (first_or_zero bs) [] f in
    let onward = extend_chain region block_size bs g in
    let stop : Bool × Fstream = (false, g) in if done then onward else stop

unfoldable pub write_new_blocks : List ℕ → FsInstance → Bool × FsInstance
write_new_blocks bs inst =
    let (done, f) = extend_chain inst.blocks_offset (block_size_of inst) bs inst.file in
    (done, record inst { file = f })

-- The chain of a file, as `get_block_chain` walks it.
unfoldable pub chain_of : ℕ → FsInstance → List ℕ × FsInstance
chain_of start_index inst =
    let (bs, f) =
      get_block_chain inst.blocks_offset (block_size_of inst) inst.num_blocks start_index
        inst.file in
    (bs, record inst { file = f })

-- The blocks behind the first `required` are given back and the chain ends there.
unfoldable pub shrink_chain : ℕ → ℕ → List ℕ → Op (Unit {0})
shrink_chain meta_idx required [] = pure tt
shrink_chain meta_idx required (b ∷ bs) =
    if required == 0
    then (do modify (give_back (b ∷ bs)); modify_entry meta_idx (λ e. record e { start_index = 0 }))
    else (do
      modify (give_back (drop required (b ∷ bs)))
      modify (relink (last_of b (take (required - 1) bs)) 0))

-- New blocks are linked behind the chain.
unfoldable pub append_blocks : ℕ → List ℕ → List ℕ → Op (Unit {0})
append_blocks meta_idx [] new_blocks =
    modify_entry meta_idx (λ e. record e { start_index = first_or_zero new_blocks })
append_blocks meta_idx (b ∷ bs) new_blocks =
    modify (relink (last_of b bs) (first_or_zero new_blocks))

unfoldable pub grow_chain : ℕ → ℕ → List ℕ → Op (Unit {0})
grow_chain meta_idx need chain = do
  new_blocks ← call (take_blocks need)
  check (length new_blocks == need) error_no_space
  append_blocks meta_idx chain new_blocks
  done ← call (write_new_blocks new_blocks)
  if done then pure tt else (do modify (give_back new_blocks); fail error_io_error)

-- `entry.total_size = new_size; entry.modified_time = now;`
abbrev pub resized : ℕ → ℕ → ℕ → Op (Unit {0})
resized meta_idx new_size now =
    modify_entry meta_idx (λ e. record e { total_size = new_size; modified_time = now })

unfoldable pub persist_all : Op (Unit {0})
persist_all = do
  _ ← call persist_meta_entries
  _ ← call persist_bitmap
  _ ← call persist_header
  pure tt

unfoldable pub file_truncate : ℕ → Option SessionInfo → Option Bytes → ℕ → Op (Unit {0})
file_truncate now session path_c new_size = do
  s ← require session error_invalid_operation
  path ← require path_c error_invalid_operation
  meta_idx ← lookup_path path
  entry ← entry_in_range meta_idx
  check (entry.valid == 0) error_not_found
  check (entry.type == 0) error_invalid_operation
  required ← gets (λ inst. blocks_for new_size (block_payload_of inst))
  chain ← call (chain_of entry.start_index)
  let current = u32 (length chain)
  if required == current
      then (do
        resized meta_idx new_size now
        _ ← call persist_meta_entries
        _ ← call persist_header
        pure tt)
      else if ltb required current
      then (do shrink_chain meta_idx required chain; resized meta_idx new_size now; persist_all)
      else (do
        grow_chain meta_idx (required - current) chain
        resized meta_idx new_size now
        modify (λ inst. record inst {
          next_meta_index =
              if leb inst.next_meta_index meta_idx then meta_idx + 1 else inst.next_meta_index;
        })
        persist_all)
