-- ===== src/Variant/Benc/Tests.antt =====
-- Bencoded text at concrete trees, with the numbers of base 10.
use libtransmission.Prelude.{
  ℕ, ◌≤◌, length, ◌≡◌, refl, arith, true, List, [], ◌∷◌, ◌++◌, none, some,
}
use libtransmission.Variant.{
  pos, negsuc, Variant, int, bool, str, items, dict, nil, cons, Entries, end, entry, list_add,
  dict_add, is_container,
}
use libtransmission.Variant.Walk.{
  variant_walk, walk_loop, rounds, visited, node_construct, begin_func, child_text, child_stack,
}
use libtransmission.Variant.Benc.{
  start, index_of, is_zero, starts_with_zero, is_empty, node_key, key_after, fill, put_value,
  open_container, close_container, is_in_dict, int_bytes, put_string, parse_int, parse_str,
  parse_step, no_frames, finish, parse_loop, parse_benc, save_string, to_buf_benc,
}
use libtransmission.Variant.Benc.Decimal.{
  digits, scan, read_nat, read_int, print_int, negated, decimal, decimal-IsDecimal,
}
use libtransmission.Variant.Benc.Rounds.{normal}
use libtransmission.Variant.Benc.Ends.{Runs, parse_benc-Runs}
use libtransmission.Variant.Benc.Keys.{parse_benc_empty_key}

abbrev unsorted : Entries → Entries
unsorted es = es

-- d1:al i-3e e 2:bc 4:spam e
abbrev tree : Variant
tree = dict (
    entry (b'a' ∷ []) (items (cons (int (negsuc 2)) (cons (bool true) nil)))
      (entry (b'b' ∷ b'c' ∷ []) (str (b's' ∷ b'p' ∷ [])) end))

abbrev text : List ℕ
text =
    b'd' ∷ b'1' ∷ b':' ∷ b'a' ∷ b'l' ∷ b'i' ∷ b'-' ∷ b'3' ∷ b'e' ∷ b'i' ∷ b'1' ∷ b'e' ∷ b'e' ∷ b'2'
    ∷ b':' ∷ b'b' ∷ b'c' ∷ b'2' ∷ b':' ∷ b's' ∷ b'p' ∷ b'e' ∷ []

printed : to_buf_benc decimal unsorted tree ≡ some text
unfolding to_buf_benc variant_walk walk_loop rounds visited node_construct begin_func child_text
    child_stack is_container decimal print_int digits
printed = refl

parsed : parse_benc decimal (text ++ b'x' ∷ []) ≡ some (normal tree, b'x' ∷ [])
unfolding parse_benc parse_loop parse_step parse_int parse_str put_string int_bytes put_value
    open_container close_container fill node_key key_after is_in_dict is_empty no_frames finish
    index_of is_zero starts_with_zero list_add dict_add normal decimal read_nat read_int negated
    scan
parsed = refl

parse_benc-Runs_example :
    (k : ℕ) × (k ≤ length text) × Runs decimal start text k (parse_benc decimal text)
parse_benc-Runs_example = parse_benc-Runs decimal text

parse_benc_empty_key_example :
    parse_benc decimal
      (b'd' ∷ (save_string decimal [] ++ b'i' ∷ (decimal.print_int (pos 7) ++ b'e' ∷ b'e' ∷ [])))
    ≡ none
parse_benc_empty_key_example =
    parse_benc_empty_key decimal decimal-IsDecimal (pos 7) (omega arith) (b'e' ∷ [])
