-- ===== src/Blocklist/Lookup.antt =====
-- The lookup of an address in a list that has been set from text.
use Prim.Native.Nat.{Ordering, lt, eq, gt}
use libtransmission.Prelude.{
  ℕ, ◌+◌, ◌≡◌, ◌≢◌, refl, ap, sym, ◌∙◌, arith, Bool, true, false, ◌||◌, List, [], ◌∷◌, Option, none,
  some, ltb, Option-cases, inl, inr, bit, length, if◌then◌else◌, ◌==◌,
}
use libtransmission.Blocklist.{
  Range, Blocklist, ipv4, Scanner, readable, compare_address_to_range, compare_by_first_address,
  merge, parse_line, zap_linefeed, load_lines, set_content, has_address, find_rule, load, close,
  ensure_loaded,
}
use libtransmission.Blocklist.Merge.{
  contains, covers, LiesApart, IsAscending, Ascends, Apart, merge-covers, merge-LiesApart,
}

-- The number of ranges with a property.
abbrev pub count : (Range → Bool) → List Range → ℕ
count p [] = 0
count p (r ∷ rs) = bit (p r) + count p rs

-- Every two neighbours are in order.
abbrev pub InOrder : (Range → Range → Ordering) → List Range → Type 0
InOrder cmp [] = Unit {0}
InOrder cmp (r ∷ []) = Unit {0}
InOrder cmp (r ∷ s ∷ rs) = (cmp r s ≢ gt) × InOrder cmp (s ∷ rs)

-- `qsort` puts the elements in order and keeps each as often as it was.
pub record IsSort (qsort : (Range → Range → Ordering) → List Range → List Range) : Type 0 where
  pub ordered :
      (rs : List Range) → InOrder compare_by_first_address (qsort compare_by_first_address rs)
  pub same :
      (p : Range → Bool) (rs : List Range)
      → count p (qsort compare_by_first_address rs) ≡ count p rs

-- Every comparison is below, and none is above.
abbrev pub AllLt : (ℕ → Range → Ordering) → ℕ → List Range → Type 0
AllLt cmp a [] = Unit {0}
AllLt cmp a (r ∷ rs) = (cmp a r ≡ lt) × AllLt cmp a rs

abbrev pub NoneGt : (ℕ → Range → Ordering) → ℕ → List Range → Type 0
NoneGt cmp a [] = Unit {0}
NoneGt cmp a (r ∷ rs) = (cmp a r ≢ gt) × NoneGt cmp a rs

-- The array that `bsearch` asks for: first the elements below the key, then those equal to it, then
-- those above it.
abbrev pub Partitioned : (ℕ → Range → Ordering) → ℕ → List Range → Type 0
Partitioned cmp a [] = Unit {0}
Partitioned cmp a (r ∷ rs) =
    (cmp a r ≡ lt → AllLt cmp a rs) × (cmp a r ≡ eq → NoneGt cmp a rs) × Partitioned cmp a rs

abbrev pub is_eq : Ordering → Bool
is_eq lt = false
is_eq eq = true
is_eq gt = false

abbrev pub any : (Range → Bool) → List Range → Bool
any p [] = false
any p (r ∷ rs) = p r || any p rs

-- On such an array `bsearch` finds an element exactly if one is equal to the key.
pub record IsSearch (bsearch : (ℕ → Range → Ordering) → ℕ → List Range → Option Range)
    : Type 0 where
  pub found :
      (cmp : ℕ → Range → Ordering) (a : ℕ) (rs : List Range) (r : Range)
      → Partitioned cmp a rs
      → bsearch cmp a rs ≡ some r
      → any (λ x. is_eq (cmp a x)) rs ≡ true
  pub missing :
      (cmp : ℕ → Range → Ordering) (a : ℕ) (rs : List Range)
      → Partitioned cmp a rs
      → bsearch cmp a rs ≡ none
      → any (λ x. is_eq (cmp a x)) rs ≡ false

abbrev cmp : ℕ → Range → Ordering
cmp = compare_address_to_range

all_lt : (a : ℕ) (r : Range) (rs : List Range) → cmp a r ≡ lt → Apart r rs → AllLt cmp a rs
unfolding compare_address_to_range
all_lt a r [] h p = tt
all_lt a r (s ∷ rs) h p = (ground arith, all_lt a s rs (ground arith) p.2)

none_gt : (a : ℕ) (r : Range) (rs : List Range) → cmp a r ≡ eq → Apart r rs → AllLt cmp a rs
unfolding compare_address_to_range
none_gt a r [] h p = tt
none_gt a r (s ∷ rs) h p = (ground arith, all_lt a s rs (ground arith) p.2)

lt-NoneGt : (a : ℕ) (rs : List Range) → AllLt cmp a rs → NoneGt cmp a rs
lt-NoneGt a [] h = tt
lt-NoneGt a (r ∷ rs) h = ((λ e. cc (h.0, e)), lt-NoneGt a rs h.1)

Apart-Partitioned : (a : ℕ) (r : Range) (rs : List Range) → Apart r rs → Partitioned cmp a (r ∷ rs)
Apart-Partitioned a r [] p = ((λ _. tt), (λ _. tt), tt)
Apart-Partitioned a r (s ∷ rs) p = (
  (λ h. all_lt a r (s ∷ rs) h p),
  (λ h. lt-NoneGt a (s ∷ rs) (none_gt a r (s ∷ rs) h p)),
  Apart-Partitioned a s rs p.2,
)

-- Ranges that lie apart are partitioned by every address.
LiesApart-Partitioned : (a : ℕ) (rs : List Range) → LiesApart rs → Partitioned cmp a rs
LiesApart-Partitioned a [] p = tt
LiesApart-Partitioned a (r ∷ rs) p = Apart-Partitioned a r rs p

contains_eq : (a : ℕ) (r : Range) → is_eq (cmp a r) ≡ contains a r
unfolding compare_address_to_range
contains_eq a r = ground arith

any-covers : (a : ℕ) (rs : List Range) → any (λ x. is_eq (cmp a x)) rs ≡ covers rs a
any-covers a [] = refl
any-covers a (r ∷ rs) = cc (contains_eq a r, any-covers a rs)

count-covers : (a : ℕ) (rs : List Range) → covers rs a ≡ ltb 0 (count (contains a) rs)
count-covers a [] = refl
count-covers a (r ∷ rs) = ground (arith, count-covers a rs)

ascends :
    (r : Range) (rs : List Range) → InOrder compare_by_first_address (r ∷ rs) → Ascends r.begin rs
unfolding compare_by_first_address
ascends r [] s = tt
ascends r (x ∷ rs) s = (ground (arith, s.0), ascends x rs s.1)

InOrder-IsAscending : (rs : List Range) → InOrder compare_by_first_address rs → IsAscending rs
InOrder-IsAscending [] s = tt
InOrder-IsAscending (r ∷ rs) s = ascends r rs s

-- A line that is parsed as a range with the address in it.
abbrev pub line_blocks : Scanner → ℕ → List ℕ → Bool
line_blocks s a line = elim (parse_line s (zap_linefeed line)) [
  | none ↦ false
  | some r ↦ contains a r
]

abbrev pub some_line : (List ℕ → Bool) → List (List ℕ) → Bool
some_line p [] = false
some_line p (line ∷ lines) = p line || some_line p lines

load_lines-covers :
    (s : Scanner) (a : ℕ) (lines : List (List ℕ))
    → covers (load_lines s lines) a ≡ some_line (line_blocks s a) lines
unfolding load_lines
load_lines-covers s a [] = refl
load_lines-covers s a (line ∷ lines) = ground (arith, load_lines-covers s a lines)

empty-covers : (rs : List Range) (a : ℕ) → length rs ≡ 0 → covers rs a ≡ false
empty-covers [] a h = refl
empty-covers (r ∷ rs) a h = absurd (omega arith)

module _ (bsearch : (ℕ → Range → Ordering) → ℕ → List Range → Option Range)
    (searches : IsSearch bsearch) where
  find_rule-covers : (rs : List Range) (a : ℕ) → LiesApart rs → find_rule bsearch rs a ≡ covers rs a
  unfolding find_rule
  find_rule-covers rs a p = elim (Option-cases (bsearch cmp a rs)) [
    | inl e ↦
        rw (e, find_rule)
          (sym (sym (any-covers a rs) ∙ searches.missing cmp a rs (LiesApart-Partitioned a rs p) e))
    | inr (r, e) ↦
        rw (e, find_rule)
          (sym (sym (any-covers a rs) ∙ searches.found cmp a rs r (LiesApart-Partitioned a rs p) e))
  ]

module _ (qsort : (Range → Range → Ordering) → List Range → List Range) (sorts : IsSort qsort) where
  sort-covers :
      (rs : List Range) (a : ℕ) → covers (qsort compare_by_first_address rs) a ≡ covers rs a
  sort-covers rs a =
      count-covers a (qsort compare_by_first_address rs)
      ∙ ap (λ n. ltb 0 n) (sorts.same (contains a) rs)
      ∙ sym (count-covers a rs)

  module _ (s : Scanner) (b : Blocklist) (lines : List (List ℕ)) where
    rules : List Range
    rules = merge (qsort compare_by_first_address (load_lines s lines))

    rules-covers : (a : ℕ) → covers rules a ≡ some_line (line_blocks s a) lines
    unfolding rules
    rules-covers a =
        let sorted = sorts.ordered (load_lines s lines) in
        merge-covers _ a (InOrder-IsAscending _ sorted)
        ∙ sort-covers (load_lines s lines) a
        ∙ load_lines-covers s a lines

    rules-LiesApart : LiesApart rules
    unfolding rules
    rules-LiesApart = merge-LiesApart _ (InOrder-IsAscending _ (sorts.ordered (load_lines s lines)))

    -- For a qsort that sorts, tr_blocklistFileSetContent with the lines of a file loads rules
    -- and returns their number, and each rule begins after the end of the one before it.
    pub set_content-LiesApart :
        (rs : List Range) × ((set_content qsort s b (readable lines) true).0.rules ≡ some rs)
        × ((set_content qsort s b (readable lines) true).1 ≡ length rs)
        × LiesApart rs
    unfolding set_content load close rules
    set_content-LiesApart = (rules, refl, refl, rules-LiesApart)

    module _ (bsearch : (ℕ → Range → Ordering) → ℕ → List Range → Option Range)
        (searches : IsSearch bsearch) (on : b.is_enabled ≡ true) where
      lookup_rules :
          (a : ℕ)
          → (has_address bsearch (set_content qsort s b (readable lines) true).0 (ipv4 a)).1
            ≡ (if length rules == 0 then false else find_rule bsearch rules a)
      unfolding has_address set_content load close ensure_loaded rules
      lookup_rules a = rw on refl

      -- For an enabled list, a qsort that sorts and a bsearch that searches, after
      -- tr_blocklistFileSetContent with the lines of a file tr_blocklistFileHasAddress
      -- accepts an IPv4 address exactly if it lies in the range of some line that parses.
      pub has_address-set_content :
          (a : ℕ)
          → (has_address bsearch (set_content qsort s b (readable lines) true).0 (ipv4 a)).1
            ≡ some_line (line_blocks s a) lines
      has_address-set_content a = ground (
        arith,
        lookup_rules a,
        rules-covers a,
        find_rule-covers bsearch searches rules a rules-LiesApart,
        empty-covers rules a,
      )
