-- ===== src/Blocklist/Merge.antt =====
-- Merging sorted ranges keeps the addresses they cover and leaves ranges that lie apart.
use libtransmission.Prelude.{
  ℕ, ◌≤◌, ◌<◌, ◌≡◌, refl, ap, ◌∙◌, arith, Bool, true, false, ◌||◌, ◌&&◌, List, [], ◌∷◌, leb, ltb,
  Bool-cases, inl, inr,
}
use libtransmission.Blocklist.{Range, extend, merge_from, merge}

abbrev pub contains : ℕ → Range → Bool
contains a r = leb r.begin a && leb a r.end

abbrev pub covers : List Range → ℕ → Bool
covers [] a = false
covers (r ∷ rs) a = contains a r || covers rs a

-- The ranges begin in ascending order, none before `b`.
abbrev pub Ascends : ℕ → List Range → Type 0
Ascends b [] = Unit {0}
Ascends b (r ∷ rs) = (b ≤ r.begin) × Ascends r.begin rs

-- Each range begins after the end of the one before it, and not before its begin.
abbrev pub Apart : Range → List Range → Type 0
Apart last [] = Unit {0}
Apart last (r ∷ rs) = (last.end < r.begin) × (last.begin ≤ r.begin) × Apart r rs

abbrev pub LiesApart : List Range → Type 0
LiesApart [] = Unit {0}
LiesApart (r ∷ rs) = Apart r rs

extend_lem :
    (keep r : Range) (a : ℕ)
    → keep.begin ≤ r.begin
    → r.begin ≤ keep.end
    → contains a (extend keep r) ≡ (contains a keep || contains a r)
unfolding extend
extend_lem keep r a h k = ground arith

begin-extend : (keep r : Range) → (extend keep r).begin ≡ keep.begin
unfolding extend
begin-extend keep r = ground arith

Ascends-from : (b c : ℕ) (rs : List Range) → b ≤ c → Ascends c rs → Ascends b rs
Ascends-from b c [] h s = tt
Ascends-from b c (r ∷ rs) h s = (omega (arith, s.0), s.1)

merge_from_apart :
    (keep r : Range) (rs : List Range)
    → ltb keep.end r.begin ≡ true
    → merge_from keep (r ∷ rs) ≡ keep ∷ merge_from r rs
unfolding merge_from
merge_from_apart keep r rs h = rw (h, merge_from) refl

merge_from_meets :
    (keep r : Range) (rs : List Range)
    → ltb keep.end r.begin ≡ false
    → merge_from keep (r ∷ rs) ≡ merge_from (extend keep r) rs
unfolding merge_from
merge_from_meets keep r rs h = rw (h, merge_from) refl

module _ (keep r : Range) (rs : List Range) (s : Ascends keep.begin (r ∷ rs)) where
  extended : Ascends (extend keep r).begin rs
  extended = rw (begin-extend keep r) (Ascends-from keep.begin r.begin rs s.0 s.1)

merge_from-covers :
    (keep : Range) (rs : List Range) (a : ℕ)
    → Ascends keep.begin rs
    → covers (merge_from keep rs) a ≡ (contains a keep || covers rs a)
unfolding merge_from
merge_from-covers keep [] a s = refl
merge_from-covers keep (r ∷ rs) a s = elim (Bool-cases (ltb keep.end r.begin)) [
  | inl apart ↦ rw (merge_from_apart keep r rs apart) (ground (arith, merge_from-covers r rs a s.1))
  | inr meets ↦ rw (merge_from_meets keep r rs meets) (
      ground (
        arith,
        merge_from-covers (extend keep r) rs a (extended keep r rs s),
        extend_lem keep r a s.0 (ground arith),
      ))
]

abbrev StartsAt : ℕ → List Range → Type 0
StartsAt b rs = (k : Range) × (rest : List Range) × (rs ≡ k ∷ rest) × (k.begin ≡ b) × Apart k rest

merge_from-StartsAt :
    (keep : Range) (rs : List Range)
    → Ascends keep.begin rs
    → StartsAt keep.begin (merge_from keep rs)
unfolding merge_from
merge_from-StartsAt keep [] s = (keep, [], refl, refl, tt)
merge_from-StartsAt keep (r ∷ rs) s = elim (Bool-cases (ltb keep.end r.begin)) [
  | inl apart ↦
      let (k, rest, e, b, p) = merge_from-StartsAt r rs s.1 in
      (
        keep,
        k ∷ rest,
        rw (merge_from_apart keep r rs apart) (ap (λ l. keep ∷ l) e),
        refl,
        (ground (arith, b, s.0), ground (arith, b, s.0), p),
      )
  | inr meets ↦
      let (k, rest, e, b, p) = merge_from-StartsAt (extend keep r) rs (extended keep r rs s) in
      (k, rest, merge_from_meets keep r rs meets ∙ e, b ∙ begin-extend keep r, p)
]

-- The ranges start with their own first begin.
abbrev pub IsAscending : List Range → Type 0
IsAscending [] = Unit {0}
IsAscending (r ∷ rs) = Ascends r.begin rs

-- Merging ranges in ascending order keeps the addresses that they cover.
pub merge-covers : (rs : List Range) (a : ℕ) → IsAscending rs → covers (merge rs) a ≡ covers rs a
unfolding merge
merge-covers [] a s = refl
merge-covers (r ∷ rs) a s = merge_from-covers r rs a s

-- Merged ranges lie apart.
pub merge-LiesApart : (rs : List Range) → IsAscending rs → LiesApart (merge rs)
unfolding merge
merge-LiesApart [] s = tt
merge-LiesApart (r ∷ rs) s = let (k, rest, e, b, p) = merge_from-StartsAt r rs s in rw e p
