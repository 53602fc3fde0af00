-- ===== src/Metainfo/Tests.antt =====
-- Runs of the parser of files, and its property at a concrete input.
use libtransmission.Prelude.{ℕ, ◌≡◌, refl, true, false, List, [], ◌∷◌, Option, none, some}
use libtransmission.Variant.{ℤ, pos, negsuc, Variant, int, str, items, dict, nil, cons, end, entry}
use libtransmission.Variant.Dict.{
  get_int, same_key, dict_index_of, value_at, dict_find, dict_find_int, dict_find_list,
}
use libtransmission.Metainfo.{
  Unicode, Info, ParseError, error_path, has_char, is_empty_text, c_string,
  path_component_is_suspicious, to_u64, find_path, add_components, utf8clean, getfile, parse_file,
  parse_each, parse_single, parse_files, key_path, key_length,
}
use libtransmission.Metainfo.Paths.{AllSafe, total_length, parse_files_safe}

-- Every text is valid.
abbrev ascii : Unicode
ascii = record { utf8_validate = λ _. none; iconv = λ _. none }

abbrev unnamed : List ℕ → Info
unnamed name = record { info_name = name; is_multifile = false; total_size = 0; files = [] }

abbrev a_file : List ℕ → ℤ → Variant
a_file last n = dict (
    entry key_length (int n)
      (entry key_path (items (cons (str (b'd' ∷ [])) (cons (str last) nil))) end))

abbrev two_files : Variant
two_files =
    items (cons (a_file (b'x' ∷ []) (pos 700)) (cons (a_file (b'y' ∷ b'.' ∷ []) (pos 24)) nil))

abbrev parsed : Info × Option ParseError
parsed = parse_files ascii (unnamed (b't' ∷ [])) (some two_files) none

two_files_accepted : parsed ≡ (
  record {
    info_name = b't' ∷ [];
    is_multifile = true;
    total_size = 724;
    files =
        record { length_of = 700; name = some (b't' ∷ b'/' ∷ b'd' ∷ b'/' ∷ b'x' ∷ []) }
        ∷ (record { length_of = 24; name = some (b't' ∷ b'/' ∷ b'd' ∷ b'/' ∷ b'y' ∷ b'.' ∷ []) }
            ∷ []);
  },
  none,
)
unfolding parse_files parse_single parse_each parse_file getfile utf8clean c_string find_path
    add_components path_component_is_suspicious is_empty_text has_char to_u64 same_key get_int
    dict_index_of value_at dict_find dict_find_int dict_find_list
two_files_accepted = refl

parent_directory_refused :
    (parse_files ascii
      (unnamed (b't' ∷ []))
      (some (items (cons (a_file (b'.' ∷ b'.' ∷ []) (pos 700)) nil)))
      none).1
    ≡ some error_path
unfolding parse_files parse_single parse_each parse_file getfile utf8clean c_string find_path
    add_components path_component_is_suspicious is_empty_text has_char to_u64 same_key get_int
    dict_index_of value_at dict_find dict_find_int dict_find_list
parent_directory_refused = refl

-- A negative length is taken.
negative_length :
    (parse_files ascii (unnamed (b't' ∷ [])) none (some (int (negsuc 0)))).0.total_size
    ≡ 18446744073709551615
unfolding parse_files parse_single parse_each parse_file getfile utf8clean c_string find_path
    add_components path_component_is_suspicious is_empty_text has_char to_u64 same_key get_int
    dict_index_of value_at dict_find dict_find_int dict_find_list
negative_length = refl

parse_files_safe_example :
    AllSafe ascii parsed.0.files × (parsed.0.total_size ≡ total_length ascii parsed.0.files 0)
unfolding parse_files parse_single parse_each parse_file getfile utf8clean c_string find_path
    add_components path_component_is_suspicious is_empty_text has_char to_u64 same_key get_int
    dict_index_of value_at dict_find dict_find_int dict_find_list
parse_files_safe_example =
    parse_files_safe ascii (unnamed (b't' ∷ [])) (some two_files) none refl refl
