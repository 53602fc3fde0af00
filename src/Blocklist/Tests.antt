-- ===== src/Blocklist/Tests.antt =====
-- A blocklist set from three lines, with an insertion sort and a linear search for the library's, and
-- lines whose text is the numbers themselves.
use Prim.Native.Nat.{Ordering, gt}
use libtransmission.Prelude.{
  ℕ, ◌≡◌, ◌≢◌, refl, arith, true, false, List, [], ◌∷◌, Option, none, some, Bool, length,
  Bool-cases, inl, inr,
}
use libtransmission.Blocklist.{
  Range, Blocklist, ipv4, Scanner, readable, compare_address_to_range, compare_by_first_address,
  extend, merge_from, merge, cut, zap_linefeed, after_last_colon, quads_range, parse_line1,
  parse_line2, parse_line, load_lines, close, load, ensure_loaded, set_content, find_rule,
  has_address,
}
use libtransmission.Blocklist.Merge.{LiesApart}
use libtransmission.Blocklist.Lookup.{
  count, InOrder, IsSort, Partitioned, is_eq, any, IsSearch, line_blocks, some_line,
  has_address-set_content, set_content-LiesApart,
}

abbrev is_gt : Ordering → Bool
is_gt gt = true
is_gt _ = false

abbrev put_sorted : (Range → Range → Ordering) → Range → List Range → List Range
put_sorted cmp r [] = r ∷ []
put_sorted cmp r (x ∷ xs) = elim (is_gt (cmp r x)) [
  | true ↦ x ∷ put_sorted cmp r xs
  | false ↦ r ∷ x ∷ xs
]

abbrev insertion_sort : (Range → Range → Ordering) → List Range → List Range
insertion_sort cmp [] = []
insertion_sort cmp (r ∷ rs) = put_sorted cmp r (insertion_sort cmp rs)

abbrev linear_search : (ℕ → Range → Ordering) → ℕ → List Range → Option Range
linear_search cmp a [] = none
linear_search cmp a (r ∷ rs) = elim (is_eq (cmp a r)) [
  | true ↦ some r
  | false ↦ linear_search cmp a rs
]

abbrev number_pair : List ℕ → Option (ℕ × ℕ)
number_pair (a ∷ b ∷ []) = some (a, b)
number_pair _ = none

abbrev one_number : List ℕ → Option ℕ
one_number (n ∷ []) = some n
one_number _ = none

abbrev numbers : Scanner
numbers = record {
  Quad = ℕ;
  scan_p2p = number_pair;
  scan_dat = number_pair;
  print_quad = λ n. n ∷ [];
  address_from_string = one_number;
}

abbrev fresh : Blocklist
fresh = record { is_enabled = true; file = none; rules = none }

abbrev lines : List (List ℕ)
lines =
    (b'a' ∷ b':' ∷ 70 ∷ 80 ∷ b'\n' ∷ []) ∷ (20 ∷ 30 ∷ b'\r' ∷ []) ∷ (1 ∷ []) ∷ (25 ∷ 40 ∷ []) ∷ []

lookups :
    ((set_content insertion_sort numbers fresh (readable lines) true).1 ≡ 2)
    × ((has_address linear_search
          (set_content insertion_sort numbers fresh (readable lines) true).0
          (ipv4 35)).1
        ≡ true)
    × ((has_address linear_search
          (set_content insertion_sort numbers fresh (readable lines) true).0
          (ipv4 41)).1
        ≡ false)
unfolding compare_address_to_range compare_by_first_address extend merge_from merge cut zap_linefeed
    after_last_colon quads_range parse_line1 parse_line2 parse_line load_lines close load
    ensure_loaded set_content find_rule has_address
lookups = (refl, refl, refl)

put-count :
    (p : Range → Bool) (r : Range) (rs : List Range)
    → count p (put_sorted compare_by_first_address r rs) ≡ count p (r ∷ rs)
put-count p r [] = refl
put-count p r (x ∷ xs) = ground (arith, put-count p r xs)

sort-count :
    (p : Range → Bool) (rs : List Range)
    → count p (insertion_sort compare_by_first_address rs) ≡ count p rs
sort-count p [] = refl
sort-count p (r ∷ rs) =
    ground (arith, sort-count p rs, put-count p r (insertion_sort compare_by_first_address rs))

not_gt :
    (r x : Range) → is_gt (compare_by_first_address r x) ≡ true → compare_by_first_address x r ≢ gt
unfolding compare_by_first_address
not_gt r x h e = ground arith

is_gt_lem : (o : Ordering) → is_gt o ≡ false → o ≢ gt
is_gt_lem o h e = cc (h, e)

put-InOrder_after :
    (x r : Range) (ys : List Range)
    → compare_by_first_address x r ≢ gt
    → InOrder compare_by_first_address (x ∷ ys)
    → InOrder compare_by_first_address (x ∷ put_sorted compare_by_first_address r ys)
put-InOrder_after x r [] h s = (h, tt)
put-InOrder_after x r (y ∷ ys) h s = elim (Bool-cases (is_gt (compare_by_first_address r y))) [
  | inl e ↦ rw (e, put_sorted) (s.0, put-InOrder_after y r ys (not_gt r y e) s.1)
  | inr e ↦ rw (e, put_sorted) (h, (is_gt_lem (compare_by_first_address r y) e, s.1))
]

put-InOrder :
    (r : Range) (rs : List Range)
    → InOrder compare_by_first_address rs
    → InOrder compare_by_first_address (put_sorted compare_by_first_address r rs)
put-InOrder r [] s = tt
put-InOrder r (x ∷ rs) s = elim (Bool-cases (is_gt (compare_by_first_address r x))) [
  | inl e ↦ rw (e, put_sorted) (put-InOrder_after x r rs (not_gt r x e) s)
  | inr e ↦ rw (e, put_sorted) (is_gt_lem (compare_by_first_address r x) e, s)
]

sort-InOrder :
    (rs : List Range)
    → InOrder compare_by_first_address (insertion_sort compare_by_first_address rs)
sort-InOrder [] = tt
sort-InOrder (r ∷ rs) = put-InOrder r (insertion_sort compare_by_first_address rs) (sort-InOrder rs)

search-found :
    (cmp : ℕ → Range → Ordering) (a : ℕ) (rs : List Range) (r : Range)
    → Partitioned cmp a rs
    → linear_search cmp a rs ≡ some r
    → any (λ x. is_eq (cmp a x)) rs ≡ true
search-found cmp a [] r p h = cc h
search-found cmp a (x ∷ rs) r p h = ground (arith, search-found cmp a rs r p.2)

search-missing :
    (cmp : ℕ → Range → Ordering) (a : ℕ) (rs : List Range)
    → Partitioned cmp a rs
    → linear_search cmp a rs ≡ none
    → any (λ x. is_eq (cmp a x)) rs ≡ false
search-missing cmp a [] p h = refl
search-missing cmp a (x ∷ rs) p h = ground (arith, search-missing cmp a rs p.2)

sorts : IsSort insertion_sort
sorts = record { ordered = sort-InOrder; same = sort-count }

searches : IsSearch linear_search
searches = record { found = search-found; missing = search-missing }

has_address-set_content_example :
    (has_address linear_search
      (set_content insertion_sort numbers fresh (readable lines) true).0
      (ipv4 35)).1
    ≡ some_line (line_blocks numbers 35) lines
has_address-set_content_example =
    has_address-set_content insertion_sort sorts numbers fresh lines linear_search searches refl 35

set_content-LiesApart_example :
    (rs : List Range) × ((set_content insertion_sort numbers fresh (readable lines) true).0.rules
      ≡ some rs)
    × ((set_content insertion_sort numbers fresh (readable lines) true).1 ≡ length rs)
    × LiesApart rs
set_content-LiesApart_example = set_content-LiesApart insertion_sort sorts numbers fresh lines
