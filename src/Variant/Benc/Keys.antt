-- ===== src/Variant/Benc/Keys.antt =====
-- A dictionary with an empty key.
use libtransmission.Prelude.{
  ℕ, suc, ◌+◌, ◌≡◌, refl, ◌∙◌, arith, List, [], ◌∷◌, ◌++◌, none, length, length-append,
}
use libtransmission.Variant.{ℤ, end}
use libtransmission.Variant.Benc.{
  Numbers, start, node_key, put_value, is_empty, save_string, parse_step, parse_loop, parse_benc,
}
use libtransmission.Variant.Benc.Strings.{IsDecimal, InInt64, parse_int-print}
use libtransmission.Variant.Benc.Steps.{open_dict_round, key_round, at_key}
use libtransmission.Variant.Benc.RoundTrip.{start-Expects}

module _ (num : Numbers) (d : IsDecimal num) (n : ℤ) (small : InInt64 n) (rest : List ℕ) where
  -- The text of a number, and what follows it.
  abbrev number_text : List ℕ
  number_text = num.print_int n ++ b'e' ∷ rest

  refused : parse_step num (at_key num d start [] end []) b'i' number_text ≡ none
  unfolding parse_step put_value node_key is_empty
  refused = rw (parse_int-print num d n rest small) refl

  loop_refused :
      (fuel : ℕ)
      → parse_loop num (suc fuel) (at_key num d start [] end []) (b'i' ∷ number_text) ≡ none
  unfolding parse_loop
  loop_refused fuel = rw (refused, parse_loop) refl

  -- tr_variantParseBenc refuses a dictionary whose first key is the empty string and whose
  -- first value is a number of 64 bits, for numbers that are read as they are printed.
  pub parse_benc_empty_key :
      parse_benc num (b'd' ∷ (save_string num [] ++ b'i' ∷ number_text)) ≡ none
  unfolding parse_benc
  parse_benc_empty_key =
      let size : length (b'd' ∷ (save_string num [] ++ b'i' ∷ number_text)) + 1
          ≡ suc (suc (suc (length number_text + length (num.print_size 0) + 1))) =
        omega (
          arith,
          length-append (save_string num []) (b'i' ∷ number_text),
          length-append (num.print_size 0) (b':' ∷ []),
        ) in
      rw size (
        open_dict_round num d _ start [] _ (start-Expects num d)
        ∙ key_round num d _ start [] _ end [] (omega arith)
        ∙ loop_refused _)
