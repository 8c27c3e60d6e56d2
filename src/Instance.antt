-- ===== src/Instance.antt =====
-- source/core/ofs_instance.hpp: the mounted file system, and the operations of source/core/ofs_core.cpp on it as
-- state passing. An operation returns its error code or its outputs, and the instance that it
-- leaves: what was changed before an early return stays changed.
--
-- Two ends of a call are outcomes of their own: `hangs`, a loop over a chain of blocks that has not
-- ended within the fuel of the call, and `faults`, an index out of the range of a vector.
--
-- A pointer argument is an `Option`, `none` for a null pointer; output pointers are not null, and
-- what is written through them is the result. `malloc` does not fail.
pub mod Persist
pub mod Frame
pub mod Entries
pub mod Tables
use omni_file_system.Prelude.{
  get_elem?, set, ℕ, zero, suc, ◌+◌, ◌≡◌, Bool, true, false, Option, none, some, List, [], ◌∷◌,
}
use omni_file_system.Prelude.Bytes.{Bytes}
use omni_file_system.HashMap.{SimpleHashMap}
use omni_file_system.Stream.{Fstream}
use omni_file_system.Types.{OmniHeader, UserInfo, MetaEntry, OfsErrorCodes}

-- `SessionInfo` without its pointer `inst` to the one instance. The user is a copy, taken at login.
pub record SessionInfo : Type 0 where
  pub session_id : Bytes
  pub user : UserInfo
  pub login_time : ℕ
  pub last_activity : ℕ
  pub operations_count : ℕ

pub record FsInstance : Type 0 where
  pub header : OmniHeader
  pub file : Fstream
  pub users : List UserInfo
  pub user_index : SimpleHashMap ℕ
  pub meta_entries : List MetaEntry
  pub free_bitmap : Bytes
  pub encoding_map : Bytes
  pub private_key : Bytes
  pub path_index : SimpleHashMap ℕ
  pub sessions : SimpleHashMap SessionInfo
  pub max_files : ℕ
  pub num_blocks : ℕ
  pub blocks_offset : ℕ
  pub bitmap_offset : ℕ
  pub metadata_offset : ℕ
  pub next_meta_index : ℕ

pub data Outcome {ℓ} (A : Type ℓ) : Type ℓ where
  ok : A → Outcome A
  err : OfsErrorCodes → Outcome A
  hangs faults : Outcome A

abbrev pub Op : Type 0 → Type 0
Op A = FsInstance → Outcome A × FsInstance

abbrev pub continue : {A B : Type 0} → Outcome A → (A → Op B) → Op B
continue (ok a) f s = f a s
continue (err e) f s = (err e, s)
continue hangs f s = (hangs, s)
continue faults f s = (faults, s)

-- A call, and what follows its success; an early return skips the rest.
infixl 5 ◌>>=◌ ◌>>◌
abbrev pub ◌>>=◌ : {A B : Type 0} → Op A → (A → Op B) → Op B
◌>>=◌ call rest inst = let (outcome, inst') = call inst in continue outcome rest inst'

abbrev pub ◌>>◌ : {B : Type 0} → Op (Unit {0}) → Op B → Op B
first >> second = first >>= λ _. second

abbrev pub pure : {A : Type 0} → A → Op A
pure a s = (ok a, s)

abbrev pub fail : {A : Type 0} → OfsErrorCodes → Op A
fail e s = (err e, s)

abbrev pub gets : {A : Type 0} → (FsInstance → A) → Op A
gets f s = (ok (f s), s)

abbrev pub modify : (FsInstance → FsInstance) → Op (Unit {0})
modify f s = (ok tt, f s)

-- `if (!test) return e;`
abbrev pub check : Bool → OfsErrorCodes → Op (Unit {0})
check true e s = (ok tt, s)
check false e s = (err e, s)

-- `if (!p) return e;`
abbrev pub require : {A : Type 0} → Option A → OfsErrorCodes → Op A
require none e s = (err e, s)
require (some a) e s = (ok a, s)

-- A call whose `bool` result is handed to the rest.
abbrev pub call : {A : Type 0} → (FsInstance → A × FsInstance) → Op A
call m s = let (a, s') = m s in (ok a, s')

-- A loop that runs on fuel.
pub data Loop {ℓ} (A : Type ℓ) : Type ℓ where
  finished : A → Loop A
  running : Loop A

abbrev pub looped : {A : Type 0} → Loop A → Outcome A
looped (finished a) = ok a
looped running = hangs

-- `meta_entries[i - 1]`, at an index that counts from 1.
abbrev pub entry? : List MetaEntry → ℕ → Option MetaEntry
entry? es zero = none
entry? es (suc i) = get_elem? es i

abbrev pub set_entry : List MetaEntry → ℕ → MetaEntry → List MetaEntry
set_entry es zero e = es
set_entry es (suc i) e = set es i e

abbrev pub entry_of : Option MetaEntry → Outcome MetaEntry
entry_of none = faults
entry_of (some e) = ok e

abbrev pub entry_at : ℕ → Op MetaEntry
entry_at i inst = (entry_of (entry? inst.meta_entries i), inst)

abbrev pub put_entry : ℕ → MetaEntry → Op (Unit {0})
put_entry i e inst = (ok tt, record inst { meta_entries = set_entry inst.meta_entries i e })

-- `MetaEntry& e = meta_entries[i - 1];` and assignments to fields of `e`.
abbrev pub modify_entry : ℕ → (MetaEntry → MetaEntry) → Op (Unit {0})
modify_entry i f inst = elim (entry? inst.meta_entries i) [
  | none ↦ (faults, inst)
  | some e ↦ (ok tt, record inst { meta_entries = set_entry inst.meta_entries i (f e) })
]
