-- ===== src/Variant/Benc/RoundTrip.antt =====
-- What is printed is parsed back.
use mathlib.Core.List.{append_assoc}
use libtransmission.Prelude.{
  ℕ, suc, ◌+◌, ◌^◌, ◌≤◌, ◌<◌, ◌≡◌, refl, ap, ap₂, sym, ◌∙◌, arith, Bool, true, false, List, [], ◌∷◌,
  ◌++◌, some, length, length-append, ltb, take-length,
}
use libtransmission.Variant.{
  Variant, int, bool, real, str, items, dict, Items, nil, cons, Entries, end, entry, list_add,
  dict_add, pos, ℤ,
}
use libtransmission.Variant.Walk.Print.{print, print_items, print_entries}
use libtransmission.Variant.Benc.{
  Numbers, Parser, start, node_key, key_after, fill, is_empty, no_frames, parse_loop, benc_funcs,
  save_real, save_string, parse_int,
}
use libtransmission.Variant.Benc.Strings.{IsDecimal, InInt64, parse_int-print}
use libtransmission.Variant.Benc.Rounds.{
  normal, normal_items, normal_entries, IsPrintable, IsPrintableItems, IsPrintableEntries, steps,
  steps_items, steps_entries, join_items, join_entries, join_items-add, join_entries-add,
  join_items-nil, join_entries-end, after, filled, Expects, int_round, string_round,
  put_string-filled,
}
use libtransmission.Variant.Benc.Steps.{
  in_list, in_entries, at_key, open_list_round, open_dict_round, close_list_round, close_dict_round,
  key_round, item_expected, entry_expected,
}

module _ (num : Numbers) (d : IsDecimal num) where
  abbrev Reads : Variant → Type 0
  Reads v =
      (n k : ℕ) (p : Parser) (slot rest : List ℕ)
      → n ≡ steps v + k
      → Expects num d p slot
      → parse_loop num n p (print (benc_funcs num) v ++ rest)
        ≡ after num d k (filled num d p slot (normal v)) rest

  abbrev ReadsItems : Items → Type 0
  ReadsItems xs =
      (n k : ℕ) (p : Parser) (slot : List ℕ) (before : Items) (rest : List ℕ)
      → n ≡ steps_items xs + k
      → parse_loop num n (in_list num d p slot before) (print_items (benc_funcs num) xs ++ rest)
        ≡ parse_loop num k (in_list num d p slot (join_items before (normal_items xs))) rest

  abbrev ReadsEntries : Entries → Type 0
  ReadsEntries es =
      (n k : ℕ) (p : Parser) (slot : List ℕ) (before : Entries) (rest : List ℕ)
      → n ≡ steps_entries es + k
      → parse_loop num n (in_entries num d p slot before)
          (print_entries (benc_funcs num) es ++ rest)
        ≡ parse_loop num k (in_entries num d p slot (join_entries before (normal_entries es))) rest

  list-Reads : (xs : Items) → ReadsItems xs → Reads (items xs)
  unfolding print steps normal join_items
  list-Reads xs r n k p slot rest e x =
      let e' : n ≡ suc (steps_items xs + suc k) = omega arith in
      rw (e', append_assoc (print_items (benc_funcs num) xs) (b'e' ∷ []) rest)
        (open_list_round num d _ p slot _ x
          ∙ r _ (suc k) p slot nil (b'e' ∷ rest) refl
          ∙ close_list_round num d k p slot rest (normal_items xs))

  dict-Reads : (es : Entries) → ReadsEntries es → Reads (dict es)
  unfolding print steps normal join_entries
  dict-Reads es r n k p slot rest e x =
      let e' : n ≡ suc (steps_entries es + suc k) = omega arith in
      rw (e', append_assoc (print_entries (benc_funcs num) es) (b'e' ∷ []) rest)
        (open_dict_round num d _ p slot _ x
          ∙ r _ (suc k) p slot end (b'e' ∷ rest) refl
          ∙ close_dict_round num d k p slot rest (normal_entries es))

  cons-Reads : (x : Variant) (xs : Items) → Reads x → ReadsItems xs → ReadsItems (cons x xs)
  unfolding print steps normal after no_frames fill
  cons-Reads x xs r rs n k p slot before rest e =
      rw (append_assoc (print (benc_funcs num) x) (print_items (benc_funcs num) xs) rest) (
        r n (steps_items xs + k) (in_list num d p slot before) [] _ (omega arith)
          (item_expected num d p slot before)
        ∙ rs _ k p slot (list_add before (normal x)) rest refl
        ∙ ap (λ ys. parse_loop num k (in_list num d p slot ys) rest)
            (join_items-add before (normal_items xs) (normal x)))

  entry-Reads :
      (j : List ℕ) (x : Variant) (es : Entries)
      → is_empty j ≡ false
      → length j < 2 ^ 31
      → Reads x
      → ReadsEntries es
      → ReadsEntries (entry j x es)
  unfolding print steps normal after no_frames fill
  entry-Reads j x es some_key short r rs n k p slot before rest e =
      let e' : n ≡ suc (steps x + (steps_entries es + k)) = omega arith in
      rw
        (
          e',
          append_assoc (save_string num j)
              (print (benc_funcs num) x ++ print_entries (benc_funcs num) es) rest,
          append_assoc (print (benc_funcs num) x) (print_entries (benc_funcs num) es) rest,
        )
        (key_round num d _ p slot _ before j short
          ∙ r _ (steps_entries es + k) (at_key num d p slot before j) j _ refl
              (entry_expected num d p slot j before some_key)
          ∙ rs _ k p slot (dict_add before j (normal x)) rest refl
          ∙ ap (λ fs. parse_loop num k (in_entries num d p slot fs) rest)
              (join_entries-add before (normal_entries es) j (normal x)))

  text_read :
      (n : ℤ) (rest : List ℕ)
      → InInt64 n
      → parse_int num ((num.print_int n ++ b'e' ∷ []) ++ rest) ≡ some (n, rest)
  text_read n rest h =
      rw (append_assoc (num.print_int n) (b'e' ∷ []) rest) (parse_int-print num d n rest h)

  one_round :
      (n k : ℕ) (p : Parser) (rest : List ℕ)
      → n ≡ 1 + k
      → parse_loop num n p rest ≡ parse_loop num (suc k) p rest
  one_round n k p rest e = ap (λ m. parse_loop num m p rest) (omega arith)

  bool-Reads : (b : Bool) → Reads (bool b)
  unfolding print steps normal
  bool-Reads true n k p slot rest e x =
      one_round n k p _ e
      ∙ int_round num d k p slot (pos 1) (b'1' ∷ b'e' ∷ []) rest
          (rw d.one_text at (text_read (pos 1) rest (omega arith))) x
  bool-Reads false n k p slot rest e x =
      one_round n k p _ e
      ∙ int_round num d k p slot (pos 0) (b'0' ∷ b'e' ∷ []) rest
          (rw d.zero_text at (text_read (pos 0) rest (omega arith))) x

  save_real_short : (t : List ℕ) → length t < 128 → save_real num t ≡ save_string num t
  unfolding save_real
  save_real_short t h =
      let fits : ltb (length t) 128 ≡ true = ground (arith, h) in rw fits (rw (take-length t) refl)

  mutual
    unfolding IsPrintable print steps normal

    reads : (v : Variant) → IsPrintable v → Reads v
    reads (int i) h = λ n k p slot rest e x.
        one_round n k p _ e
        ∙ int_round num d k p slot i (num.print_int i ++ b'e' ∷ []) rest (text_read i rest h) x
    reads (bool b) h = bool-Reads b
    reads (real t) h = λ n k p slot rest e x.
        one_round n k p _ e
        ∙ ap (λ text. parse_loop num (suc k) p (text ++ rest)) (save_real_short t h)
        ∙ string_round num d k p _ t rest (omega (arith, h))
            (put_string-filled num d p slot t (omega (arith, h)) x)
    reads (str s) h = λ n k p slot rest e x.
        one_round n k p _ e
        ∙ string_round num d k p _ s rest (omega (arith, h)) (put_string-filled num d p slot s h x)
    reads (items xs) h = list-Reads xs (reads_items xs h)
    reads (dict es) h = dict-Reads es (reads_entries es h)

    reads_items : (xs : Items) → IsPrintableItems xs → ReadsItems xs
    reads_items nil h = λ n k p slot before rest e.
        ap₂ (λ m ys. parse_loop num m (in_list num d p slot ys) rest) (omega arith)
          (sym (join_items-nil before))
    reads_items (cons x xs) h = cons-Reads x xs (reads x h.0) (reads_items xs h.1)

    reads_entries : (es : Entries) → IsPrintableEntries es → ReadsEntries es
    reads_entries end h = λ n k p slot before rest e.
        ap₂ (λ m es. parse_loop num m (in_entries num d p slot es) rest) (omega arith)
          (sym (join_entries-end before))
    reads_entries (entry j x es) h = entry-Reads j x es h.0 h.1 (reads x h.2) (reads_entries es h.3)

  print_pos : (s : List ℕ) → 0 < length (save_string num s)
  print_pos s = omega (arith, length-append (num.print_size (length s)) (b':' ∷ s))

  real_pos : (t : List ℕ) → 0 < length (save_real num t)
  unfolding save_real
  real_pos t = omega (arith, length-append (num.print_size (length t)) (b':' ∷ _))

  mutual
    unfolding print steps

    steps-le-length : (v : Variant) → steps v ≤ length (print (benc_funcs num) v)
    steps-le-length (int i) = omega arith
    steps-le-length (bool true) = omega arith
    steps-le-length (bool false) = omega arith
    steps-le-length (real t) = real_pos t
    steps-le-length (str s) = print_pos s
    steps-le-length (items xs) = omega (
      arith,
      steps_items-le-length xs,
      length-append (print_items (benc_funcs num) xs) (b'e' ∷ []),
    )
    steps-le-length (dict es) = omega (
      arith,
      steps_entries-le-length es,
      length-append (print_entries (benc_funcs num) es) (b'e' ∷ []),
    )

    steps_items-le-length : (xs : Items) → steps_items xs ≤ length (print_items (benc_funcs num) xs)
    steps_items-le-length nil = omega arith
    steps_items-le-length (cons x xs) = omega (
      arith,
      steps-le-length x,
      steps_items-le-length xs,
      length-append (print (benc_funcs num) x) (print_items (benc_funcs num) xs),
    )

    steps_entries-le-length :
        (es : Entries) → steps_entries es ≤ length (print_entries (benc_funcs num) es)
    steps_entries-le-length end = omega arith
    steps_entries-le-length (entry j x es) = omega (
      arith,
      print_pos j,
      steps-le-length x,
      steps_entries-le-length es,
      length-append (save_string num j)
          (print (benc_funcs num) x ++ print_entries (benc_funcs num) es),
      length-append (print (benc_funcs num) x) (print_entries (benc_funcs num) es),
    )

  pub start-Expects : Expects num d start []
  unfolding node_key key_after
  start-Expects = record { due = refl; clear = refl }
