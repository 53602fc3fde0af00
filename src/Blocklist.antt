-- ===== src/Blocklist.antt =====
-- src/blocklist.c: `tr_blocklistFile`, the list of blocked IPv4 ranges in a file. Addresses and the
-- ends of a range are in host byte order. What the C library does is a parameter: `qsort`, `bsearch`,
-- `sscanf` and the conversion of an address from its text.
pub mod Merge
pub mod Lookup
mod Tests
use Prim.Native.Nat.{Ordering, lt, eq, gt, compare}
use libtransmission.Prelude.{
  ℕ, ◌||◌, Bool, true, false, List, [], ◌∷◌, Option, none, some, if◌then◌else◌, ltb, leb, ◌==◌,
  ◌&&◌, not, length,
}

-- `struct tr_ipv4_range`
pub record Range : Type 0 where
  pub begin : ℕ
  pub end : ℕ

-- `file` is what the file at `filename` holds, `rules` the mapped rules. Mapping an empty file fails,
-- which the code takes for a list of no rules.
pub record Blocklist : Type 0 where
  pub is_enabled : Bool
  pub file : Option (List Range)
  pub rules : Option (List Range)

-- `tr_address`
pub data Address : Type 0 where
  ipv4 : ℕ → Address
  ipv6 : List ℕ → Address

pub close : Blocklist → Blocklist
close b = record b { rules = none }

pub load : Blocklist → Blocklist
load b = record (close b) { rules = b.file }

pub ensure_loaded : Blocklist → Blocklist
ensure_loaded b = elim b.rules [ none ↦ load b | some r ↦ b ]

pub delete : Blocklist → Blocklist
delete b = record (close b) { file = none }

-- `tr_blocklistFileNew`, over what the file holds
pub new_file : Option (List Range) → Bool → Blocklist
new_file file is_enabled = record { is_enabled = is_enabled; file = file; rules = none }

pub exists_file : Blocklist → Bool
exists_file b = elim b.file [ none ↦ false | some r ↦ true ]

pub get_rule_count : Blocklist → Blocklist × ℕ
get_rule_count b = (ensure_loaded b, elim (ensure_loaded b).rules [ none ↦ 0 | some r ↦ length r ])

pub set_enabled : Blocklist → Bool → Blocklist
set_enabled b is_enabled = record b { is_enabled = is_enabled }

-- The sign of the comparison functions: `lt` for -1.
pub compare_address_to_range : ℕ → Range → Ordering
compare_address_to_range a r = if ltb a r.begin then lt else if ltb r.end a then gt else eq

pub compare_by_first_address : Range → Range → Ordering
compare_by_first_address a b =
    if not (a.begin == b.begin) then (if ltb a.begin b.begin then lt else gt) else eq

pub extend : Range → Range → Range
extend keep r = if ltb keep.end r.end then record keep { end = r.end } else keep

-- The merging loop: `keep` is the last range kept.
pub merge_from : Range → List Range → List Range
merge_from keep [] = keep ∷ []
merge_from keep (r ∷ rs) = elim (ltb keep.end r.begin) [
  | true ↦ keep ∷ merge_from r rs
  | false ↦ merge_from (extend keep r) rs
]

pub merge : List Range → List Range
merge [] = []
merge (r ∷ rs) = merge_from r rs

-- The text before the first `c`: `strchr` and a zero written there.
pub cut : ℕ → List ℕ → List ℕ
cut c [] = []
cut c (x ∷ xs) = if x == c then [] else x ∷ cut c xs

pub zap_linefeed : List ℕ → List ℕ
zap_linefeed line = cut b'\n' (cut b'\r' line)

-- The text after the last `:`, as `strrchr` finds it.
pub after_last_colon : List ℕ → Option (List ℕ)
after_last_colon [] = none
after_last_colon (x ∷ xs) = elim (after_last_colon xs) [
  | some rest ↦ some rest
  | none ↦ if x == b':' then some xs else none
]

-- `sscanf` with the two formats (`Quad` is four of its integers), `tr_snprintf` of four integers, and
-- `tr_address_from_string`.
pub record Scanner : Type 1 where
  pub Quad : Type 0
  pub scan_p2p : List ℕ → Option (Quad × Quad)
  pub scan_dat : List ℕ → Option (Quad × Quad)
  pub print_quad : Quad → List ℕ
  pub address_from_string : List ℕ → Option ℕ

module _ (s : Scanner) where
  pub quads_range : s.Quad × s.Quad → Option Range
  quads_range (b, e) = elim (s.address_from_string (s.print_quad b)) [
    | none ↦ none
    | some begin ↦ elim (s.address_from_string (s.print_quad e)) [
      | none ↦ none
      | some end ↦ some (record { begin = begin; end = end })
    ]
  ]

  pub parse_line1 : List ℕ → Option Range
  parse_line1 line = elim (after_last_colon line) [
    | none ↦ none
    | some walk ↦ elim (s.scan_p2p walk) [ none ↦ none | some quads ↦ quads_range quads ]
  ]

  pub parse_line2 : List ℕ → Option Range
  parse_line2 line = elim (s.scan_dat line) [ none ↦ none | some quads ↦ quads_range quads ]

  pub parse_line : List ℕ → Option Range
  parse_line line = elim (parse_line1 line) [ some r ↦ some r | none ↦ parse_line2 line ]

  -- The loading loop, over the lines that `fgets` reads.
  pub load_lines : List (List ℕ) → List Range
  load_lines [] = []
  load_lines (line ∷ lines) =
      let rest = load_lines lines in
      elim (parse_line (zap_linefeed line)) [ none ↦ rest | some r ↦ r ∷ rest ]

-- The argument of `tr_blocklistFileSetContent`: no file name, a file that does not open, or its lines.
pub data Source : Type 0 where
  no_filename : Source
  unreadable : Source
  readable : List (List ℕ) → Source

module _ (qsort : (Range → Range → Ordering) → List Range → List Range) (s : Scanner) where
  -- `writable` says whether the list's own file opens for writing; what is written to it arrives.
  pub set_content : Blocklist → Source → Bool → Blocklist × ℕ
  set_content b no_filename writable = (delete b, 0)
  set_content b unreadable writable = (b, 0)
  set_content b (readable lines) writable =
      let ranges = merge (qsort compare_by_first_address (load_lines s lines)) in
      if not writable then (close b, 0) else (load (record b { file = some ranges }), length ranges)

module _ (bsearch : (ℕ → Range → Ordering) → ℕ → List Range → Option Range) where
  find_rule : List Range → ℕ → Bool
  find_rule rules needle = elim (bsearch compare_address_to_range needle rules) [
    | none ↦ false
    | some r ↦ true
  ]

  pub has_address : Blocklist → Address → Blocklist × Bool
  has_address b (ipv6 bytes) = (b, false)
  has_address b (ipv4 needle) =
      let b' = ensure_loaded b in
      let found : Bool = elim b'.rules [
        | none ↦ false
        | some rules ↦ if length rules == 0 then false else find_rule rules needle
      ] in
      if not b.is_enabled then (b, false) else (b', found)
