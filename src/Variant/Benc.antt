-- ===== src/Variant/Benc.antt =====
-- src/variant-benc.c: bencoded text, printed and parsed. `strtoll`, `strtoul` and the formats of `printf`
-- are the C library's.
pub mod Strings
pub mod Decimal
pub mod Rounds
pub mod Steps
pub mod RoundTrip
pub mod Ends
pub mod Keys
mod Tests
use mathlib.Core.Option
use libtransmission.Prelude.{
  ℕ, zero, suc, ◌+◌, ◌-◌, ◌%◌, ◌^◌, Bool, true, false, not, ◌&&◌, ◌||◌, List, [], ◌∷◌, ◌++◌, Option,
  none, some, if◌then◌else◌, ltb, leb, ◌==◌, length, take, drop,
}
use libtransmission.Variant.{
  ℤ, pos, Variant, int, str, items, dict, Items, nil, Entries, end, list_add, dict_add,
}
use libtransmission.Variant.Walk.{WalkFuncs, variant_walk}

-- `strtoll` and `strtoul` in base 10, `none` where they set `errno`, and otherwise the value and the
-- number of bytes up to `endptr`; `%PRId64` and `%zu`.
pub record Numbers : Type 0 where
  pub strtoll : List ℕ → Option (ℤ × ℕ)
  pub strtoul : List ℕ → Option (ℕ × ℕ)
  pub print_int : ℤ → List ℕ
  pub print_size : ℕ → List ℕ
  -- The bytes behind the array of 128 that a real is printed into.
  pub behind : List ℕ

-- `memchr`, by the index.
pub index_of : ℕ → List ℕ → Option ℕ
index_of c [] = none
index_of c (x ∷ xs) = if x == c then some 0 else Option.map suc (index_of c xs)

abbrev pub is_digit : ℕ → Bool
is_digit c = leb b'0' c && leb c b'9'

pub is_zero : ℤ → Bool
is_zero (pos n) = n == 0
is_zero _ = false

pub starts_with_zero : List ℕ → Bool
starts_with_zero [] = false
starts_with_zero (c ∷ cs) = c == b'0'

unfoldable pub is_empty : List ℕ → Bool
is_empty [] = true
is_empty (x ∷ xs) = false

-- The containers that are open, the innermost first, each with the key that it is stored under.
pub data Frame : Type 0 where
  open_list : List ℕ → Items → Frame
  open_dict : List ℕ → Entries → Frame

pub record Parser : Type 0 where
  pub stack : List Frame
  pub key : List ℕ
  pub top : Option Variant

abbrev pub start : Parser
start = record { stack = []; key = []; top = none }

-- `get_node`: the key that the new value goes under, or the error.
unfoldable pub node_key : List Frame → List ℕ → Option (List ℕ)
node_key [] key = some []
node_key (open_list slot xs ∷ st) key = some []
node_key (open_dict slot es ∷ st) key = if is_empty key then none else some key

-- The key that `get_node` leaves.
unfoldable pub key_after : List Frame → List ℕ → List ℕ
key_after (open_dict slot es ∷ st) key = []
key_after st key = key

-- The value in its node.
unfoldable pub fill : Parser → List ℕ → Variant → Parser
fill p slot v = elim p.stack [
  | [] ↦ record p { top = some v }
  | f ∷ st ↦ elim f [
    | open_list s xs ↦ record p { stack = open_list s (list_add xs v) ∷ st }
    | open_dict s es ↦ record p { stack = open_dict s (dict_add es slot v) ∷ st }
  ]
]

unfoldable pub put_value : Parser → Variant → Option Parser
put_value p v =
    Option.map (λ slot. fill (record p { key = key_after p.stack p.key }) slot v)
      (node_key p.stack p.key)

unfoldable pub open_container : Parser → (List ℕ → Frame) → Option Parser
open_container p frame =
    Option.map (λ slot. record p { key = key_after p.stack p.key; stack = frame slot ∷ p.stack })
      (node_key p.stack p.key)

-- The end of a container: it is popped, and stored where it was opened.
unfoldable pub close_container : Parser → Option Parser
close_container p = elim p.stack [
  | [] ↦ none
  | f ∷ st ↦
      let closed = elim f as (λ _. Parser) [
        | open_list slot xs ↦ fill (record p { stack = st }) slot (items xs)
        | open_dict slot es ↦ fill (record p { stack = st }) slot (dict es)
      ] in
      if is_empty p.key then some closed else none
]

unfoldable pub is_in_dict : List Frame → Bool
is_in_dict (open_dict slot es ∷ st) = true
is_in_dict _ = false

-- `tr_variantInitStr` takes an int: a length of 2 ^ 32 or more wraps, and a negative one means the text up
-- to a zero byte, which may lie behind the buffer.
unfoldable pub int_bytes : List ℕ → Option (List ℕ)
int_bytes s = if ltb (length s % 2 ^ 32) (2 ^ 31) then some (take (length s % 2 ^ 32) s) else none

-- A string is a key where a dictionary is open and no key is pending. `tr_strndup` takes an int too,
-- and a key whose copy is shorter than its length is read behind its end.
pub put_string : Parser → List ℕ → Option Parser
put_string p s =
    if is_empty p.key && is_in_dict p.stack
    then if ltb (length s) (2 ^ 31) then some (record p { key = s }) else none
    else elim (int_bytes s) [ none ↦ none | some s' ↦ put_value p (str s') ]

module _ (num : Numbers) where
  -- `tr_bencParseInt`, on the text after the `i`: the value and the text after the `e`.
  pub parse_int : List ℕ → Option (ℤ × List ℕ)
  parse_int rest = elim (index_of b'e' rest) [
    | none ↦ none
    | some end_at ↦ elim (num.strtoll rest) [
      | none ↦ none
      | some (val, endptr) ↦
          if not (endptr == end_at) || (not (is_zero val) && starts_with_zero rest)
          then none
          else some (val, drop (end_at + 1) rest)
    ]
  ]

  -- `tr_bencParseStr`: the string and the text after it.
  pub parse_str : List ℕ → Option (List ℕ × List ℕ)
  parse_str buf = elim (index_of b':' buf) [
    | none ↦ none
    | some colon ↦ elim (num.strtoul buf) [
      | none ↦ none
      | some (len, ulend) ↦
          let data_bytes = drop (colon + 1) buf in
          if not (ulend == colon) || ltb (length data_bytes) len
          then none
          else some (take len data_bytes, drop len data_bytes)
    ]
  ]

  -- One round of the loop, at the first byte and the text after it.
  unfoldable pub parse_step : Parser → ℕ → List ℕ → Option (Parser × List ℕ)
  parse_step p c rest =
      if c == b'i'
      then elim (parse_int rest) [
        | none ↦ none
        | some (val, rest') ↦ Option.map (λ p'. (p', rest')) (put_value p (int val))
      ]
      else if c == b'l'
      then Option.map (λ p'. (p', rest)) (open_container p (λ slot. open_list slot nil))
      else if c == b'd'
      then Option.map (λ p'. (p', rest)) (open_container p (λ slot. open_dict slot end))
      else if c == b'e'
      then Option.map (λ p'. (p', rest)) (close_container p)
      else if is_digit c
      then elim (parse_str (c ∷ rest)) [
        | none ↦ none
        | some (s, rest') ↦ Option.map (λ p'. (p', rest')) (put_string p s)
      ]
      else some (p, rest)

  unfoldable pub no_frames : List Frame → Bool
  no_frames [] = true
  no_frames (f ∷ st) = false

  -- After the loop: a value, all containers closed, and the text that is left.
  unfoldable pub finish : Parser → List ℕ → Option (Variant × List ℕ)
  finish p buf = if no_frames p.stack then Option.map (λ v. (v, buf)) p.top else none

  -- The loop, on fuel.
  unfoldable pub parse_loop : ℕ → Parser → List ℕ → Option (Variant × List ℕ)
  parse_loop zero p buf = none
  parse_loop (suc fuel) p [] = finish p []
  parse_loop (suc fuel) p (c ∷ rest) = elim (parse_step p c rest) [
    | none ↦ none
    | some (p', rest') ↦ elim (no_frames p'.stack) [
      | true ↦ finish p' rest'
      | false ↦ parse_loop fuel p' rest'
    ]
  ]

  -- `tr_variantParseBenc`
  unfoldable pub parse_benc : List ℕ → Option (Variant × List ℕ)
  parse_benc buf = parse_loop (length buf + 1) start buf

  -- The functions that write.
  abbrev pub save_string : List ℕ → List ℕ
  save_string s = num.print_size (length s) ++ b':' ∷ s

  -- `saveRealFunc`, on the text of the real: the array holds 127 bytes of it and a zero, but as many
  -- bytes are written as the whole text has.
  unfoldable pub save_real : List ℕ → List ℕ
  save_real t =
      let held = if ltb (length t) 128 then t else take 127 t ++ 0 ∷ num.behind in
      num.print_size (length t) ++ b':' ∷ take (length t) held

  abbrev pub benc_funcs : WalkFuncs
  benc_funcs = record {
    int_func = λ n. b'i' ∷ num.print_int n ++ b'e' ∷ [];
    bool_func = λ b. if b then b'i' ∷ b'1' ∷ b'e' ∷ [] else b'i' ∷ b'0' ∷ b'e' ∷ [];
    real_func = save_real;
    string_func = save_string;
    dict_begin = b'd' ∷ [];
    list_begin = b'l' ∷ [];
    container_end = b'e' ∷ [];
  }

  pub to_buf_benc : (Entries → Entries) → Variant → Option (List ℕ)
  to_buf_benc sort v = variant_walk benc_funcs sort v
