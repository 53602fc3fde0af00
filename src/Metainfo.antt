-- ===== src/Metainfo.antt =====
-- src/metainfo.c and, for the cleaning of names, src/utils.c: the files of a torrent's info dictionary. A
-- C string is its bytes up to the first zero; a string of a variant may have more. A text is shorter
-- than 2 ^ 31 bytes.
pub mod Components
pub mod Paths
mod Tests
use mathlib.Core.Option
use libtransmission.Prelude.{
  ℕ, zero, suc, ◌+◌, ◌-◌, ◌%◌, ◌^◌, Bool, true, false, not, ◌&&◌, ◌||◌, List, [], ◌∷◌, ◌++◌, Option,
  none, some, if◌then◌else◌, ◌==◌, length, take, drop, u64,
}
use libtransmission.Variant.{
  ℤ, pos, negsuc, Variant, int, bool, real, str, items, dict, Items, nil, cons, Entries, end, entry,
}
use libtransmission.Variant.Dict.{get_int, same_key, dict_find_int, dict_find_list}

-- The C string at the start of some bytes.
pub c_string : List ℕ → List ℕ
c_string [] = []
c_string (x ∷ xs) = if x == 0 then [] else x ∷ c_string xs

pub has_char : ℕ → List ℕ → Bool
has_char c [] = false
has_char c (x ∷ xs) = (x == c) || has_char c xs

pub is_empty_text : List ℕ → Bool
is_empty_text [] = true
is_empty_text (x ∷ xs) = false

-- `path_component_is_suspicious`, of a string that is there, where `/` alone delimits.
pub path_component_is_suspicious : List ℕ → Bool
path_component_is_suspicious s =
    is_empty_text s || has_char b'/' s || same_key s (b'.' ∷ []) || same_key s (b'.' ∷ b'.' ∷ [])

-- A signed number stored in 64 bits.
pub to_u64 : ℤ → ℕ
to_u64 (pos n) = u64 n
to_u64 (negsuc n) = (2 ^ 64 - 1) - n % 2 ^ 64

pub data ParseError : Type 0 where
  error_path : ParseError
  error_files : ParseError
  error_length : ParseError

pub record File : Type 0 where
  pub length_of : ℕ
  pub name : Option (List ℕ)

-- The fields of `tr_info` that the files are in.
pub record Info : Type 0 where
  pub info_name : List ℕ
  pub is_multifile : Bool
  pub total_size : ℕ
  pub files : List File

abbrev pub blank_file : File
blank_file = record { length_of = 0; name = none }

-- The zeroed files that are left.
pub blank_files : Items → List File
blank_files nil = []
blank_files (cons v vs) = blank_file ∷ blank_files vs

-- The single-file mode of `parseFiles`.
pub parse_single : Info → Option Variant → Info × Option ParseError
parse_single inf len = elim (get_int len) [
  | none ↦ (record inf { total_size = 0 }, some error_length)
  | some n ↦
      let one : File = record { length_of = to_u64 n; name = some inf.info_name } in
      if path_component_is_suspicious inf.info_name
      then (record inf { total_size = 0 }, some error_path)
      else (record inf { is_multifile = false; total_size = to_u64 n; files = one ∷ [] }, none)
]

-- `tr_utf8_validate`, with the number of good bytes where it fails, and the conversion by `iconv` from
-- the first of the encodings that takes the text.
pub record Unicode : Type 0 where
  pub utf8_validate : List ℕ → Option ℕ
  pub iconv : List ℕ → Option (List ℕ)

-- The list of the path: the name that UTF-8 has precedence for.
abbrev pub key_path : List ℕ
key_path = b'p' ∷ b'a' ∷ b't' ∷ b'h' ∷ []

abbrev pub key_path_utf8 : List ℕ
key_path_utf8 = key_path ++ b'.' ∷ b'u' ∷ b't' ∷ b'f' ∷ b'-' ∷ b'8' ∷ []

abbrev pub key_length : List ℕ
key_length = b'l' ∷ b'e' ∷ b'n' ∷ b'g' ∷ b't' ∷ b'h' ∷ []

pub find_path : Variant → Option Items
find_path file = elim (dict_find_list file key_path_utf8) [
  | some xs ↦ some xs
  | none ↦ dict_find_list file key_path
]

-- The loop of `getfile`: the text that is built, as long as no component is refused.
pub add_components : List ℕ → Items → Option (List ℕ)
add_components buf nil = some buf
add_components buf (cons (str s) xs) =
    let rest = add_components (buf ++ b'/' ∷ s) xs in
    if path_component_is_suspicious (c_string s) then none else rest
add_components buf (cons _ xs) = none

module _ (u : Unicode) where
  -- The loop of `strip_non_utf8`, on fuel: each round drops a byte.
  pub strip_loop : ℕ → List ℕ → List ℕ
  strip_loop zero s = s
  strip_loop (suc fuel) s = elim (u.utf8_validate s) [
    | none ↦ s
    | some good ↦ take good s ++ b'?' ∷ strip_loop fuel (drop (good + 1) s)
  ]

  -- `to_utf8`
  pub to_utf8 : List ℕ → List ℕ
  to_utf8 s = elim (u.iconv s) [ some out ↦ out | none ↦ strip_loop (length s + 1) s ]

  -- `tr_utf8clean`: a C string.
  pub utf8clean : List ℕ → List ℕ
  utf8clean s = c_string (elim (u.utf8_validate s) [ none ↦ s | some good ↦ to_utf8 s ])

  -- `getfile`
  pub getfile : List ℕ → Items → Option (List ℕ)
  getfile root path = Option.map utf8clean (add_components root path)

  -- One round of the loop of `parseFiles`: the file as it is left, and the error.
  pub parse_file : List ℕ → Variant → File × Option ParseError
  parse_file root (dict es) = elim (find_path (dict es)) [
    | none ↦ (blank_file, some error_path)
    | some path ↦ elim (getfile root path) [
      | none ↦ (blank_file, some error_path)
      | some name ↦ elim (dict_find_int (dict es) key_length) [
        | none ↦ (record blank_file { name = some name }, some error_length)
        | some len ↦ (record { length_of = to_u64 len; name = some name }, none)
      ]
    ]
  ]
  parse_file root _ = (blank_file, some error_files)

  -- The loop: the files, the total size and the error.
  pub parse_each : List ℕ → Items → ℕ → List File × ℕ × Option ParseError
  parse_each root nil total = ([], total, none)
  parse_each root (cons v vs) total =
      let (file, error) = parse_file root v in
      let (rest, total', error') = parse_each root vs (u64 (total + file.length_of)) in
      elim error [
        | some e ↦ (file ∷ blank_files vs, total, some e)
        | none ↦ (file ∷ rest, total', error')
      ]

  -- `parseFiles`: the info that is left, and the error.
  pub parse_files : Info → Option Variant → Option Variant → Info × Option ParseError
  parse_files inf (some (items vs)) len =
      let (fs, total, error) = parse_each inf.info_name vs 0 in
      if path_component_is_suspicious inf.info_name
      then (record inf { total_size = 0 }, some error_path)
      else (record inf { is_multifile = true; total_size = total; files = fs }, error)
  parse_files inf files len = parse_single inf len
