-- ===== src/Config.antt =====
-- `SimpleConfig::load` of source/core/ofs_core.cpp. `std::stoull` and `std::stoul` are arguments, `none`
-- where they throw.
use omni_file_system.Prelude.{
  ℕ, ◌-◌, ◌==◌, Bool, true, false, ◌&&◌, ◌||◌, Option, none, some, List, [], ◌∷◌, ◌++◌, length,
  take, drop, leb, if◌then◌else◌,
}
use omni_file_system.Prelude.Bytes.{Bytes, codes, eq_bytes}
use omni_file_system.Prelude.Words.{u32}
use omni_file_system.Format.{SimpleConfig}

-- All fields of `SimpleConfig`.
pub record Config : Type 0 where
  pub sizes : SimpleConfig
  pub admin_username : Bytes
  pub admin_password : Bytes

abbrev pub default_config : Config
default_config = record {
  sizes = record {
    total_size = 104857600;
    header_size = 512;
    block_size = 4096;
    max_files = 1000;
    max_users = 50;
  };
  admin_username = codes "admin";
  admin_password = codes "admin123";
}

-- `isspace`: a space, or one of the bytes 9 to 13.
abbrev pub is_space : ℕ → Bool
is_space c = c == 32 || leb 9 c && leb c 13

unfoldable pub trim_front : Bytes → Bytes
trim_front [] = []
trim_front (c ∷ s) = let rest = trim_front s in if is_space c then rest else c ∷ s

unfoldable pub trim_back : Bytes → Bytes
trim_back [] = []
trim_back (c ∷ s) = elim (trim_back s) [
  | [] ↦ if is_space c then [] else c ∷ []
  | d ∷ t ↦ c ∷ d ∷ t
]

abbrev pub trim : Bytes → Bytes
trim s = trim_back (trim_front s)

-- The bytes before and behind the first `=`.
unfoldable pub cut_equals : Bytes → Option (Bytes × Bytes)
cut_equals [] = none
cut_equals (c ∷ s) = elim (c == b'=') [
  | true ↦ some ([], s)
  | false ↦ elim (cut_equals s) [ none ↦ none | some (before, behind) ↦ some (c ∷ before, behind) ]
]

abbrev pub is_quote : Option ℕ → Bool
is_quote none = false
is_quote (some c) = c == 34

unfoldable pub first_byte? : Bytes → Option ℕ
first_byte? [] = none
first_byte? (c ∷ s) = some c

unfoldable pub last_byte? : Bytes → Option ℕ
last_byte? [] = none
last_byte? (c ∷ s) = elim (last_byte? s) [ none ↦ some c | some d ↦ some d ]

-- A value between quotes without them; a lone quote is both the first and the last byte.
unfoldable pub unquoted : Bytes → Bytes
unquoted val =
    if is_quote (first_byte? val) && is_quote (last_byte? val)
    then take (length val - 2) (drop 1 val)
    else val

abbrev pub put_number : Option ℕ → (ℕ → SimpleConfig) → Config → Option Config
put_number none f cfg = none
put_number (some n) f cfg = some (record cfg { sizes = f n })

-- One line of the file.
unfoldable pub load_entry :
    (Bytes → Option ℕ) → (Bytes → Option ℕ) → Bytes → Bytes → Config → Option Config
load_entry stoull stoul key val cfg =
    let sizes = cfg.sizes in
    if eq_bytes key (codes "total_size")
    then put_number (stoull val) (λ n. record sizes { total_size = n }) cfg
    else if eq_bytes key (codes "header_size")
    then put_number (stoull val) (λ n. record sizes { header_size = n }) cfg
    else if eq_bytes key (codes "block_size")
    then put_number (stoull val) (λ n. record sizes { block_size = n }) cfg
    else if eq_bytes key (codes "max_files")
    then put_number (stoul val) (λ n. record sizes { max_files = u32 n }) cfg
    else if eq_bytes key (codes "max_users")
    then put_number (stoul val) (λ n. record sizes { max_users = u32 n }) cfg
    else if eq_bytes key (codes "admin_username")
    then some (record cfg { admin_username = unquoted val })
    else if eq_bytes key (codes "admin_password")
    then some (record cfg { admin_password = unquoted val })
    else some cfg

unfoldable pub load_line : (Bytes → Option ℕ) → (Bytes → Option ℕ) → Bytes → Config → Option Config
load_line stoull stoul line cfg = elim (cut_equals line) [
  | none ↦ some cfg
  | some (key, val) ↦ load_entry stoull stoul (trim key) (trim val) cfg
]

-- The lines that `getline` gives; `line` is what has been read of the present one.
unfoldable pub lines_of : Bytes → Bytes → List Bytes
lines_of line [] = elim line [ [] ↦ [] | c ∷ s ↦ (c ∷ s) ∷ [] ]
lines_of line (c ∷ s) = elim (c == 10) [
  | true ↦ line ∷ lines_of [] s
  | false ↦ lines_of (line ++ (c ∷ [])) s
]

unfoldable pub load_lines :
    (Bytes → Option ℕ) → (Bytes → Option ℕ) → List Bytes → Config → Option Config
load_lines stoull stoul [] cfg = some cfg
load_lines stoull stoul (line ∷ lines) cfg = elim (load_line stoull stoul line cfg) [
  | none ↦ none
  | some cfg' ↦ load_lines stoull stoul lines cfg'
]

-- The configuration from the content of the file, if there is a file that opens; `none` where a
-- conversion throws.
unfoldable pub load : (Bytes → Option ℕ) → (Bytes → Option ℕ) → Option Bytes → Option Config
load stoull stoul none = some default_config
load stoull stoul (some text) = load_lines stoull stoul (lines_of [] text) default_config
