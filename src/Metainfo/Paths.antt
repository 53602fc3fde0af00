-- ===== src/Metainfo/Paths.antt =====
-- What the files of an accepted torrent are called, and how long they are.
use libtransmission.Prelude.{
  ℕ, ◌+◌, ◌≡◌, refl, ap, ◌∙◌, arith, true, false, List, [], ◌∷◌, ◌++◌, Option, none, some,
  Bool-cases, inl, inr, Option-cases, ◌⊎◌, u64,
}
use libtransmission.Variant.{
  ℤ, pos, negsuc, Variant, int, bool, real, str, items, dict, Items, nil, cons,
}
use libtransmission.Variant.Dict.{dict_find_int, get_int}
use libtransmission.Metainfo.{
  Unicode, File, Info, ParseError, error_path, error_length, c_string, has_char,
  path_component_is_suspicious, add_components, utf8clean, getfile, find_path, parse_file,
  parse_each, parse_files, parse_single, key_length, blank_files, to_u64,
}
use libtransmission.Metainfo.Components.{is_plain_path, plain_grows, name_plain}

add_components_plain :
    (path : Items) (buf text : List ℕ)
    → is_plain_path (c_string buf) ≡ true
    → add_components buf path ≡ some text
    → is_plain_path (c_string text) ≡ true
unfolding add_components
add_components_plain nil buf text plain h = ground (arith, plain, h)
add_components_plain (cons (str s) xs) buf text plain h =
    let fine : path_component_is_suspicious (c_string s) ≡ false = ground (arith, h) in
    add_components_plain xs (buf ++ b'/' ∷ s) text (plain_grows buf s plain fine)
      (ground (arith, h))
add_components_plain (cons (int n) xs) buf text plain h = ground (arith, h)
add_components_plain (cons (bool n) xs) buf text plain h = ground (arith, h)
add_components_plain (cons (real n) xs) buf text plain h = ground (arith, h)
add_components_plain (cons (items n) xs) buf text plain h = ground (arith, h)
add_components_plain (cons (dict n) xs) buf text plain h = ground (arith, h)

fits_lem : (n : ℤ) → to_u64 n ≡ u64 (0 + to_u64 n)
unfolding to_u64
fits_lem (pos n) = omega arith
fits_lem (negsuc n) = omega arith

module _ (u : Unicode) where
  -- The file is called by a path of plain components, up to the cleaning of its UTF-8.
  abbrev pub IsSafe : File → Type 0
  IsSafe f =
      (text : List ℕ) × ((f.name ≡ some text) ⊎ (f.name ≡ some (utf8clean u text)))
      × (is_plain_path (c_string text) ≡ true)

  abbrev pub AllSafe : List File → Type 0
  AllSafe [] = Unit {0}
  AllSafe (f ∷ fs) = IsSafe f × AllSafe fs

  -- The sum of the lengths, in 64 bits.
  pub total_length : List File → ℕ → ℕ
  total_length [] total = total
  total_length (f ∷ fs) total = total_length fs (u64 (total + f.length_of))

  module _ (root : List ℕ) (plain : is_plain_path (c_string root) ≡ true) where
    getfile_safe :
        (path : Items) (name : List ℕ)
        → getfile u root path ≡ some name
        → (text : List ℕ) × (name ≡ utf8clean u text) × (is_plain_path (c_string text) ≡ true)
    unfolding getfile
    getfile_safe path name h = elim (Option-cases (add_components root path)) [
      | inl e ↦ ground (arith, e, h)
      | inr (text, e) ↦ (text, ground (arith, e, h), add_components_plain path root text plain e)
    ]

    parse_file_named :
        (v : Variant)
        → (parse_file u root v).1 ≡ none
        → (path : Items) × (name : List ℕ) × (getfile u root path ≡ some name)
          × ((parse_file u root v).0.name ≡ some name)
    unfolding parse_file
    parse_file_named (dict es) h = elim (Option-cases (find_path (dict es))) [
      | inl e ↦ ground (arith, e, h)
      | inr (path, e) ↦ elim (Option-cases (getfile u root path)) [
        | inl e' ↦ ground (arith, e, e', h)
        | inr (name, e') ↦ (
          path,
          name,
          e',
          ground (arith, e, e', h, Option-cases (dict_find_int (dict es) key_length)),
        )
      ]
    ]
    parse_file_named (int n) h = ground (arith, h)
    parse_file_named (bool n) h = ground (arith, h)
    parse_file_named (real n) h = ground (arith, h)
    parse_file_named (str n) h = ground (arith, h)
    parse_file_named (items n) h = ground (arith, h)

    parse_file-IsSafe :
        (v : Variant) → (parse_file u root v).1 ≡ none → IsSafe (parse_file u root v).0
    parse_file-IsSafe v h =
        let (path, name, got, named) = parse_file_named v h in
        let (text, cleaned, safe) = getfile_safe path name got in
        (text, inr (named ∙ ap some cleaned), safe)

    -- Unless there is an error, the files are safe and their lengths add up to the total.
    abbrev Accepted : ℕ → List File × ℕ × Option ParseError → Type 0
    Accepted total (fs, total', error) =
        error ≡ none → AllSafe fs × (total' ≡ total_length fs total)

    same-Accepted :
        (total : ℕ) (r r' : List File × ℕ × Option ParseError)
        → r ≡ r'
        → Accepted total r'
        → Accepted total r
    same-Accepted total r r' same ok = rw same ok

    parse_each_nil : (total : ℕ) → parse_each u root nil total ≡ ([], total, none)
    unfolding parse_each
    parse_each_nil total = refl

    parse_each_next :
        (v : Variant) (vs : Items) (total : ℕ)
        → (parse_file u root v).1 ≡ none
        → parse_each u root (cons v vs) total ≡ (
          (parse_file u root v).0
              ∷ (parse_each u root vs (u64 (total + (parse_file u root v).0.length_of))).0,
          (parse_each u root vs (u64 (total + (parse_file u root v).0.length_of))).1,
          (parse_each u root vs (u64 (total + (parse_file u root v).0.length_of))).2,
        )
    unfolding parse_each
    parse_each_next v vs total h = rw (h, parse_each) refl

    parse_each_error :
        (v : Variant) (vs : Items) (total : ℕ) (e : ParseError)
        → (parse_file u root v).1 ≡ some e
        → parse_each u root (cons v vs) total
          ≡ ((parse_file u root v).0 ∷ blank_files vs, total, some e)
    unfolding parse_each
    parse_each_error v vs total e h = rw (h, parse_each) refl

    pub parse_each-Accepted : (vs : Items) (total : ℕ) → Accepted total (parse_each u root vs total)
    unfolding total_length
    parse_each-Accepted nil total = same-Accepted total _ _ (parse_each_nil total) (λ _. (tt, refl))
    parse_each-Accepted (cons v vs) total = elim (Option-cases (parse_file u root v).1) [
      | inl h ↦ same-Accepted total _ _ (parse_each_next v vs total h) (λ ok.
          let (safe, sum) =
            parse_each-Accepted vs (u64 (total + (parse_file u root v).0.length_of)) ok in
          ((parse_file-IsSafe v h, safe), sum))
      | inr (e, h) ↦
          same-Accepted total _ _ (parse_each_error v vs total e h) (λ ok. ground (arith, ok))
    ]

  -- Unless there is an error, the files of the info are safe, and its total is their sum.
  abbrev pub AcceptedInfo : Info × Option ParseError → Type 0
  AcceptedInfo (inf, error) =
      error ≡ none → AllSafe inf.files × (inf.total_size ≡ total_length inf.files 0)

  same-AcceptedInfo : (r r' : Info × Option ParseError) → r ≡ r' → AcceptedInfo r' → AcceptedInfo r
  same-AcceptedInfo r r' same ok = rw same ok

  module _ (inf : Info) (is_text : has_char 0 inf.info_name ≡ false) where
    refused :
        (i : Info) (e : ParseError) (r : Info × Option ParseError)
        → r ≡ (i, some e)
        → AcceptedInfo r
    refused i e r same = same-AcceptedInfo r _ same (λ ok. ground (arith, ok))

    single_refused :
        (len : Option Variant)
        → get_int len ≡ none
        → parse_single inf len ≡ (record inf { total_size = 0 }, some error_length)
    unfolding parse_single
    single_refused len e = rw (e, parse_single) refl

    single_suspicious :
        (len : Option Variant) (n : ℤ)
        → get_int len ≡ some n
        → path_component_is_suspicious inf.info_name ≡ true
        → parse_single inf len ≡ (record inf { total_size = 0 }, some error_path)
    unfolding parse_single
    single_suspicious len n e bad = rw (e, parse_single) (rw bad refl)

    -- The one file of the single-file mode.
    abbrev one_file : ℤ → File
    one_file n = record { length_of = to_u64 n; name = some inf.info_name }

    single_fine :
        (len : Option Variant) (n : ℤ)
        → get_int len ≡ some n
        → path_component_is_suspicious inf.info_name ≡ false
        → parse_single inf len ≡ (
          record inf { is_multifile = false; total_size = to_u64 n; files = one_file n ∷ [] },
          none,
        )
    unfolding parse_single
    single_fine len n e fine = rw (e, parse_single) (rw fine refl)

    parse_single-AcceptedInfo : (len : Option Variant) → AcceptedInfo (parse_single inf len)
    unfolding total_length
    parse_single-AcceptedInfo len = elim (Option-cases (get_int len)) [
      | inl e ↦ refused _ _ _ (single_refused len e)
      | inr (n, e) ↦ elim (Bool-cases (path_component_is_suspicious inf.info_name)) [
        | inl bad ↦ refused _ _ _ (single_suspicious len n e bad)
        | inr fine ↦ same-AcceptedInfo _ _ (single_fine len n e fine) (λ _.
            (((inf.info_name, inl refl, name_plain inf.info_name is_text fine), tt), fits_lem n))
      ]
    ]

    multi_suspicious :
        (vs : Items) (len : Option Variant)
        → path_component_is_suspicious inf.info_name ≡ true
        → parse_files u inf (some (items vs)) len ≡ (record inf { total_size = 0 }, some error_path)
    unfolding parse_files
    multi_suspicious vs len bad = rw bad refl

    multi_fine :
        (vs : Items) (len : Option Variant)
        → path_component_is_suspicious inf.info_name ≡ false
        → parse_files u inf (some (items vs)) len ≡ (
          record inf {
            is_multifile = true;
            total_size = (parse_each u inf.info_name vs 0).1;
            files = (parse_each u inf.info_name vs 0).0;
          },
          (parse_each u inf.info_name vs 0).2,
        )
    unfolding parse_files
    multi_fine vs len fine = rw fine refl

    parse_files-AcceptedInfo :
        (files len : Option Variant) → AcceptedInfo (parse_files u inf files len)
    unfolding parse_files
    parse_files-AcceptedInfo (some (items vs)) len =
        elim (Bool-cases (path_component_is_suspicious inf.info_name)) [
          | inl bad ↦ refused _ _ _ (multi_suspicious vs len bad)
          | inr fine ↦
              same-AcceptedInfo _ _ (multi_fine vs len fine)
                (parse_each-Accepted inf.info_name (name_plain inf.info_name is_text fine) vs 0)
        ]
    parse_files-AcceptedInfo (some (dict vs)) len = parse_single-AcceptedInfo len
    parse_files-AcceptedInfo (some (int vs)) len = parse_single-AcceptedInfo len
    parse_files-AcceptedInfo (some (bool vs)) len = parse_single-AcceptedInfo len
    parse_files-AcceptedInfo (some (real vs)) len = parse_single-AcceptedInfo len
    parse_files-AcceptedInfo (some (str vs)) len = parse_single-AcceptedInfo len
    parse_files-AcceptedInfo none len = parse_single-AcceptedInfo len

-- For an info name that is a C string, when parseFiles accepts, every file is called by a text,
-- cleaned by tr_utf8clean or not, whose components up to the first zero are not empty, "." or
-- "..", and the total size is the sum of the files' lengths in 64 bits.
pub parse_files_safe :
    (u : Unicode) (inf : Info) (files len : Option Variant)
    → has_char 0 inf.info_name ≡ false
    → (parse_files u inf files len).1 ≡ none
    → AllSafe u (parse_files u inf files len).0.files
      × ((parse_files u inf files len).0.total_size
          ≡ total_length u (parse_files u inf files len).0.files 0)
parse_files_safe u inf files len is_text ok = parse_files-AcceptedInfo u inf is_text files len ok
