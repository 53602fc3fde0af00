-- ===== src/Variant/Benc/Rounds.antt =====
-- The rounds of the parser's loop on printed text, and what a tree becomes.
use libtransmission.Prelude.{
  ℕ, suc, ◌+◌, ◌^◌, ◌<◌, ◌≡◌, refl, ap, arith, true, false, ◌&&◌, List, [], ◌∷◌, ◌++◌, Option, some,
  if◌then◌else◌, length, ltb, ◌%◌, take-length,
}
use libtransmission.Variant.{
  ℤ, pos, Variant, int, bool, real, str, items, dict, Items, nil, cons, Entries, end, entry,
  list_add, dict_add,
}
use libtransmission.Variant.Benc.{
  Numbers, Parser, Frame, open_list, open_dict, node_key, key_after, is_digit, fill, put_value,
  is_in_dict, is_empty, int_bytes, put_string, parse_int, parse_str, parse_step, no_frames, finish,
  parse_loop, save_string,
}
use libtransmission.Variant.Benc.Strings.{all_of, IsDecimal, InInt64, parse_str-print}

-- A bool comes back as a number, a real number as its text.
unfoldable mutual
  pub normal : Variant → Variant
  normal (int n) = int n
  normal (bool b) = int (pos (if b then 1 else 0))
  normal (real t) = str t
  normal (str s) = str s
  normal (items xs) = items (normal_items xs)
  normal (dict es) = dict (normal_entries es)

  pub normal_items : Items → Items
  normal_items nil = nil
  normal_items (cons x xs) = cons (normal x) (normal_items xs)

  pub normal_entries : Entries → Entries
  normal_entries end = end
  normal_entries (entry k x es) = entry k (normal x) (normal_entries es)

-- Numbers of 64 bits, strings and keys whose length fits an int, reals whose text fits saveRealFunc's
-- array, and no empty key.
unfoldable mutual
  pub IsPrintable : Variant → Type 0
  IsPrintable (int n) = InInt64 n
  IsPrintable (bool b) = Unit {0}
  IsPrintable (real t) = length t < 128
  IsPrintable (str s) = length s < 2 ^ 31
  IsPrintable (items xs) = IsPrintableItems xs
  IsPrintable (dict es) = IsPrintableEntries es

  pub IsPrintableItems : Items → Type 0
  IsPrintableItems nil = Unit {0}
  IsPrintableItems (cons x xs) = IsPrintable x × IsPrintableItems xs

  pub IsPrintableEntries : Entries → Type 0
  IsPrintableEntries end = Unit {0}
  IsPrintableEntries (entry k x es) =
      (is_empty k ≡ false) × (length k < 2 ^ 31) × IsPrintable x × IsPrintableEntries es

-- The rounds that a printed value takes.
unfoldable mutual
  pub steps : Variant → ℕ
  steps (items xs) = 2 + steps_items xs
  steps (dict es) = 2 + steps_entries es
  steps _ = 1

  pub steps_items : Items → ℕ
  steps_items nil = 0
  steps_items (cons x xs) = steps x + steps_items xs

  pub steps_entries : Entries → ℕ
  steps_entries end = 0
  steps_entries (entry k x es) = 1 + (steps x + steps_entries es)

-- Lists and dictionaries end to end.
unfoldable pub join_items : Items → Items → Items
join_items nil ys = ys
join_items (cons x xs) ys = cons x (join_items xs ys)

unfoldable pub join_entries : Entries → Entries → Entries
join_entries end fs = fs
join_entries (entry k x es) fs = entry k x (join_entries es fs)

pub join_items-add :
    (xs ys : Items) (v : Variant) → join_items (list_add xs v) ys ≡ join_items xs (cons v ys)
unfolding join_items list_add
join_items-add nil ys v = refl
join_items-add (cons x xs) ys v = ap (cons x) (join_items-add xs ys v)

pub join_entries-add :
    (es fs : Entries) (k : List ℕ) (v : Variant)
    → join_entries (dict_add es k v) fs ≡ join_entries es (entry k v fs)
unfolding join_entries dict_add
join_entries-add end fs k v = refl
join_entries-add (entry j x es) fs k v = ap (entry j x) (join_entries-add es fs k v)

pub join_items-nil : (xs : Items) → join_items xs nil ≡ xs
unfolding join_items
join_items-nil nil = refl
join_items-nil (cons x xs) = ap (cons x) (join_items-nil xs)

pub join_entries-end : (es : Entries) → join_entries es end ≡ es
unfolding join_entries
join_entries-end end = refl
join_entries-end (entry k x es) = ap (entry k x) (join_entries-end es)

-- Where a value is due, a string is no key.
no_key_due :
    (st : List Frame) (key slot : List ℕ)
    → node_key st key ≡ some slot
    → (is_empty key && is_in_dict st) ≡ false
unfolding node_key is_in_dict is_empty
no_key_due [] key slot h = ground arith
no_key_due (open_list j xs ∷ st) key slot h = ground arith
no_key_due (open_dict j es ∷ st) key slot h = ground arith

digits_start :
    (xs : List ℕ)
    → is_empty xs ≡ false
    → all_of is_digit xs ≡ true
    → (c : ℕ) × (cs : List ℕ) × (xs ≡ c ∷ cs) × (is_digit c ≡ true)
unfolding is_empty
digits_start [] h k = cc (h)
digits_start (c ∷ cs) h k = (c, cs, refl, ground arith)

module _ (num : Numbers) (d : IsDecimal num) where
  -- The loop after a round.
  unfoldable pub after : ℕ → Parser → List ℕ → Option (Variant × List ℕ)
  after fuel p buf = elim (no_frames num p.stack) [
    | true ↦ finish num p buf
    | false ↦ parse_loop num fuel p buf
  ]

  pub round_lem :
      (fuel : ℕ) (p p' : Parser) (c : ℕ) (rest rest' : List ℕ)
      → parse_step num p c rest ≡ some (p', rest')
      → parse_loop num (suc fuel) p (c ∷ rest) ≡ after fuel p' rest'
  unfolding parse_loop after
  round_lem fuel p p' c rest rest' h = rw (h, parse_loop) refl

  -- The parser once a value that is due has been read.
  abbrev pub filled : Parser → List ℕ → Variant → Parser
  filled p slot v = fill (record p { key = [] }) slot v

  -- A value may come next, under the key `slot`.
  pub record Expects (p : Parser) (slot : List ℕ) : Type 0 where
    pub due : node_key p.stack p.key ≡ some slot
    pub clear : key_after p.stack p.key ≡ []

  put_value-filled :
      (p : Parser) (slot : List ℕ) (v : Variant)
      → Expects p slot
      → put_value p v ≡ some (filled p slot v)
  unfolding put_value
  put_value-filled p slot v e = rw (e.due, e.clear) refl

  int_bytes_short : (s : List ℕ) → length s < 2 ^ 31 → int_bytes s ≡ some s
  unfolding int_bytes
  int_bytes_short s h =
      let small : length s % 2 ^ 32 ≡ length s = omega (arith, h) in
      let fits : ltb (length s) (2 ^ 31) ≡ true = ground (arith, h) in
      rw small (rw fits (ap some (take-length s)))

  pub put_string-filled :
      (p : Parser) (slot s : List ℕ)
      → length s < 2 ^ 31
      → Expects p slot
      → put_string p s ≡ some (filled p slot (str s))
  unfolding put_string
  put_string-filled p slot s h e =
      rw (no_key_due p.stack p.key slot e.due, int_bytes_short s h)
        (put_value-filled p slot (str s) e)

  pub int_round :
      (fuel : ℕ) (p : Parser) (slot : List ℕ) (n : ℤ) (text rest : List ℕ)
      → parse_int num (text ++ rest) ≡ some (n, rest)
      → Expects p slot
      → parse_loop num (suc fuel) p (b'i' ∷ (text ++ rest))
        ≡ after fuel (filled p slot (int n)) rest
  unfolding parse_step
  int_round fuel p slot n text rest h e =
      round_lem fuel p (filled p slot (int n)) b'i' (text ++ rest) rest
        (rw (h, put_value-filled p slot (int n) e) refl)

  string_step :
      (p p' : Parser) (s : List ℕ) (c : ℕ) (text rest : List ℕ)
      → is_digit c ≡ true
      → parse_str num (c ∷ text) ≡ some (s, rest)
      → put_string p s ≡ some p'
      → parse_step num p c text ≡ some (p', rest)
  unfolding parse_step
  string_step p p' s c text rest digit h e = ground arith

  pub string_round :
      (fuel : ℕ) (p p' : Parser) (s rest : List ℕ)
      → length s < 2 ^ 64
      → put_string p s ≡ some p'
      → parse_loop num (suc fuel) p (save_string num s ++ rest) ≡ after fuel p' rest
  string_round fuel p p' s rest h e =
      let (c, cs, eq, digit) =
        digits_start (num.print_size (length s)) (d.size_some (length s))
          (d.size_chars (length s)) in
      let read = rw eq at (parse_str-print num d s rest h) in
      rw eq (round_lem fuel p p' c _ rest (string_step p p' s c _ rest digit read e))
