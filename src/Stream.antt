-- ===== src/Stream.antt =====
-- `std::fstream` as far as source/core/ofs_core.cpp uses it, over the one container file.
--
-- The library's documented behaviour: `read` past the end sets eofbit and failbit and leaves what
-- it got; `seekg` clears eofbit alone, so failbit stays for good; a stream that is not good moves no
-- byte and no position. The device may refuse any transfer (badbit): `faults n` says whether it
-- refuses the n-th one. A refused write leaves the file as it was.
pub mod Laws
use omni_file_system.Prelude.{
  ℕ, zero, suc, ◌+◌, ◌-◌, max, Bool, true, false, ◌&&◌, List, [], ◌∷◌, length, get_or, ltb, leb,
  if◌then◌else◌,
}
use omni_file_system.Prelude.Bytes.{Bytes}

-- `at_eof` is eofbit with failbit, `failed` is failbit or badbit without eofbit.
pub data IoState : Type 0 where
  good at_eof failed : IoState

pub record Fstream : Type 0 where
  -- The file: the byte at each position, 0 from `extent` on.
  pub byte : ℕ → ℕ
  pub extent : ℕ
  pub position : ℕ
  pub state : IoState
  pub faults : ℕ → Bool
  pub clock : ℕ

abbrev pub is_good : IoState → Bool
is_good good = true
is_good _ = false

abbrev pub is_eof : IoState → Bool
is_eof at_eof = true
is_eof _ = false

abbrev clear_eof : IoState → IoState
clear_eof good = good
clear_eof _ = failed

-- The `n` bytes from `p` on.
unfoldable pub read_at : (ℕ → ℕ) → ℕ → ℕ → Bytes
read_at f p zero = []
read_at f p (suc n) = f p ∷ read_at f (suc p) n

-- The file after `xs` is written at `p`.
unfoldable pub splice : (ℕ → ℕ) → ℕ → Bytes → ℕ → ℕ
splice f p xs q = if leb p q && ltb q (p + length xs) then get_or xs (q - p) 0 else f q

unfoldable pub seekg : ℕ → Fstream → Fstream
seekg p f =
    if is_good f.state then record f { position = p } else record f { state = clear_eof f.state }

unfoldable pub seekp : ℕ → Fstream → Fstream
seekp p f = if is_good f.state then record f { position = p } else f

-- The writing end reaches past the old extent only if a byte is written.
abbrev extended : Fstream → Bytes → ℕ
extended f [] = f.extent
extended f xs = max f.extent (f.position + length xs)

unfoldable pub write : Bytes → Fstream → Fstream
write xs f =
    if is_good f.state
    then (if f.faults f.clock then record f { state = failed; clock = f.clock + 1 } else record f {
      byte = splice f.byte f.position xs;
      extent = extended f xs;
      position = f.position + length xs;
      clock = f.clock + 1;
    })
    else f

unfoldable pub flush : Fstream → Fstream
flush f =
    if is_good f.state
    then (if f.faults f.clock
        then record f { state = failed; clock = f.clock + 1 }
        else record f { clock = f.clock + 1 })
    else f

unfoldable pub read : ℕ → Fstream → Bytes × Fstream
read n f =
    if is_good f.state
    then (if f.faults f.clock
        then ([], record f { state = failed; clock = f.clock + 1 })
        else if leb (f.position + n) f.extent
        then (
          read_at f.byte f.position n,
          record f { position = f.position + n; clock = f.clock + 1 },
        )
        else (
          read_at f.byte f.position (f.extent - f.position),
          record f { position = max f.position f.extent; state = at_eof; clock = f.clock + 1 },
        ))
    else ([], f)
