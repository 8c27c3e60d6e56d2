-- ===== src/Files/Returns.antt =====
-- `file_read` ends, whatever the container holds: a chain with a cycle is read round and round only
-- until `total_size` bytes are there.
use omni_file_system.Prelude.{
  ℕ, zero, suc, ◌-◌, ◌≤◌, ◌<◌, ◌^◌, ◌≡◌, refl, Bool, Bool-cases, true, false, inl, inr, Option,
  Option-cases, [], none, some, arith, length, min, not, ◌&&◌, ltb, ◌==◌, length-append,
  length-replicate, replicate,
}
use omni_file_system.Prelude.Bytes.{Bytes}
use omni_file_system.Prelude.Words.{sub_u64}
use omni_file_system.HashMap
use omni_file_system.Stream.{Fstream, seekg, read, is_good}
use omni_file_system.Blocks.{read_block, read_block_at, block_position, filled}
use omni_file_system.Blocks.Laws.{room_lem}
use omni_file_system.Instance.{
  FsInstance, SessionInfo, Outcome, ok, err, hangs, faults, Loop, finished, running, entry?,
  require,
}
use omni_file_system.Types.{OfsErrorCodes, error_io_error}
use omni_file_system.Directory.{block_size_of}
use omni_file_system.Files.{read_chunks, read_content, file_read, lookup_path, entry_in_range}

abbrev pub has_finished : {A : Type 0} → Loop A → Bool
has_finished (finished a) = true
has_finished running = false

-- The operation comes to an end.
abbrev pub returns : {A : Type 0} → Outcome A → Bool
returns (ok a) = true
returns (err e) = true
returns hangs = false
returns faults = true

filled_long : (n : ℕ) (xs : Bytes) → n ≤ length (filled n xs)
filled_long n xs = omega (
  arith,
  length-append xs (replicate (n - length xs) 0),
  length-replicate {A = ℕ} (n - length xs) 0,
)

-- A block that is read has all its bytes, also behind the end of the file.
read_block_long :
    (region size cur : ℕ) (f : Fstream)
    → 4 < size
    → size < 2 ^ 32
    → let r = (read_block region size cur f).0 in r.ok ≡ true → 0 < length r.payload
unfolding read_block read_block_at
read_block_long region size cur f room narrow =
    let g = seekg (block_position region size cur) f in
    let body = (read (sub_u64 size 4) (read 4 g).1).0 in
    elim (Bool-cases (cur == 0)) [
      | inl null ↦ rw null (λ e. cc)
      | inr used ↦ elim (Bool-cases (is_good g.state)) [
        | inl good ↦
            rw (used, good)
              (λ e.
                omega
                  (arith, filled_long (sub_u64 size 4) body, room_lem size (omega arith) narrow))
        | inr bad ↦ rw (used, bad) (λ e. cc)
      ]
    ]

read_chunks_returns :
    (fuel region size : ℕ) (encoding_map : Bytes) (cur remaining : ℕ) (acc : Bytes) (f : Fstream)
    → 4 < size
    → size < 2 ^ 32
    → remaining < fuel
    → has_finished (read_chunks fuel region size encoding_map cur remaining acc f).0 ≡ true
unfolding read_chunks
read_chunks_returns zero region size encoding_map cur remaining acc f room narrow le =
    absurd (omega arith)
read_chunks_returns (suc fuel) region size encoding_map cur remaining acc f room narrow le =
    elim (Bool-cases (not (cur == 0) && ltb 0 remaining)) [
      | inr stops ↦ rw stops refl
      | inl goes ↦
          let (r, g) = read_block region size cur f in
          elim (Bool-cases r.ok) [
            | inr fails ↦ rw (goes, fails) refl
            | inl reads ↦
                let long = read_block_long region size cur f room narrow reads in
                let some_left : 0 < remaining = ground (arith, goes) in
                rw (goes, reads)
                  (read_chunks_returns fuel region size encoding_map r.next
                    (remaining - min remaining (length r.payload)) _ g room narrow (omega arith))
          ]
    ]

finished_lem : {A : Type 0} (l : Loop A) → has_finished l ≡ true → (a : A) × (l ≡ finished a)
finished_lem (finished a) e = (a, refl)
finished_lem running e = cc

require-returns :
    {A : Type 0} (p : Option A) (e : OfsErrorCodes) (inst : FsInstance)
    → returns (require p e inst).0 ≡ true
require-returns none e inst = refl
require-returns (some a) e inst = refl

-- When a block has room for more than its link, `file_read` ends on every container and device,
-- a cyclic chain included: with the content, an error code or an index out of range, never in
-- its loop.
pub file_read-returns :
    (inst : FsInstance) (session : Option SessionInfo) (path_c : Option Bytes)
    → 4 < block_size_of inst
    → returns (file_read session path_c inst).0 ≡ true
unfolding file_read lookup_path entry_in_range read_content
file_read-returns inst none path_c room = refl
file_read-returns inst (some s) none room = refl
file_read-returns inst (some s) (some path) room =
    elim (Option-cases (HashMap.find inst.path_index path)) [
      | inl missing ↦ rw missing refl
      | inr (i, found) ↦ elim (Option-cases (entry? inst.meta_entries i)) [
        | inl outside ↦ rw (found, outside) refl
        | inr (entry, there) ↦
            let (content, ends) = finished_lem _ (
              read_chunks_returns (suc entry.total_size) inst.blocks_offset (block_size_of inst)
                inst.encoding_map entry.start_index entry.total_size [] inst.file room (omega arith)
                (omega arith)) in
            elim (Bool-cases (entry.valid == 0)) [
              | inr unused ↦ rw (found, there, unused) refl
              | inl used ↦ elim (Bool-cases (entry.type == 0)) [
                | inr other ↦ rw (found, there, used, other) refl
                | inl file ↦ elim (Bool-cases (entry.total_size == 0)) [
                  | inl void ↦ rw (found, there, used, file, void) refl
                  | inr long ↦
                      rw (found, there, used, file, long, ends)
                        (require-returns content error_io_error _)
                ]
              ]
            ]
      ]
    ]
