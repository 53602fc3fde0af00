-- ===== src/Metadata/Needed.antt =====
-- The list of the needed pieces, and writing a piece of the metadata.
use libtransmission.Prelude.{
  ℕ, zero, suc, ◌+◌, ◌-◌, ◌≤◌, ◌≡◌, ◌≢◌, refl, ap, arith, false, List, [], ◌∷◌, ◌++◌, if◌then◌else◌,
  ltb, leb, ◌&&◌, ◌==◌, length, Bool-cases, inl, inr, get_or, drop, length-memcpy, get_or-memcpy,
}
use libtransmission.Metadata.{MetadataNode, all_needed, is_needed, remove_needed, memcpy_at}

-- No piece is there twice.
abbrev pub Distinct : List MetadataNode → Type 0
Distinct [] = Unit {0}
Distinct (n ∷ ns) = (is_needed n.piece ns ≡ false) × Distinct ns

pub is_needed-all_needed : (q i n : ℕ) → is_needed q (all_needed i n) ≡ (leb i q && ltb q (i + n))
unfolding is_needed all_needed
is_needed-all_needed q i zero = ground arith
is_needed-all_needed q i (suc n) = ground (arith, is_needed-all_needed q (i + 1) n)

pub all_needed-Distinct : (i n : ℕ) → Distinct (all_needed i n)
unfolding all_needed
all_needed-Distinct i zero = tt
all_needed-Distinct i (suc n) =
    (ground (arith, is_needed-all_needed i (i + 1) n), all_needed-Distinct (i + 1) n)

-- A node that is moved to the end.
pub is_needed-rotate :
    (q t : ℕ) (n : MetadataNode) (ns : List MetadataNode)
    → is_needed q (ns ++ record { requested_at = t; piece = n.piece } ∷ []) ≡ is_needed q (n ∷ ns)
unfolding is_needed
is_needed-rotate q t n [] = refl
is_needed-rotate q t n (x ∷ ns) = ground (arith, is_needed-rotate q t n ns)

pub append-Distinct :
    (n : MetadataNode) (ns : List MetadataNode)
    → is_needed n.piece ns ≡ false
    → Distinct ns
    → Distinct (ns ++ n ∷ [])
unfolding is_needed
append-Distinct n [] h d = (refl, tt)
append-Distinct n (x ∷ ns) h (new, d) = (
  ground (arith, is_needed-rotate x.piece n.requested_at n ns, h, new),
  append-Distinct n ns (ground (arith, h)) d,
)

pub remove_needed_gone :
    (q : ℕ) (ns : List MetadataNode) → Distinct ns → is_needed q (remove_needed q ns) ≡ false
unfolding is_needed remove_needed
remove_needed_gone q [] d = refl
remove_needed_gone q (x ∷ ns) (new, d) = elim (Bool-cases (x.piece == q)) [
  | inl h ↦ let same : x.piece ≡ q = ground (arith, h) in let gone = rw same at new in rw h gone
  | inr h ↦ rw h (rw h (remove_needed_gone q ns d))
]

pub is_needed-remove_needed :
    (q r : ℕ) (ns : List MetadataNode) → q ≢ r → is_needed r (remove_needed q ns) ≡ is_needed r ns
unfolding is_needed remove_needed
is_needed-remove_needed q r [] ne = refl
is_needed-remove_needed q r (x ∷ ns) ne = elim (Bool-cases (x.piece == q)) [
  | inl h ↦ let other : (x.piece == r) ≡ false = ground (arith, h, ne) in rw h (rw other refl)
  | inr h ↦ rw h (ground (arith, is_needed-remove_needed q r ns ne))
]

remove_needed_less :
    (q r : ℕ) (ns : List MetadataNode)
    → is_needed r ns ≡ false
    → is_needed r (remove_needed q ns) ≡ false
unfolding is_needed remove_needed
remove_needed_less q r [] h = refl
remove_needed_less q r (x ∷ ns) h = elim (Bool-cases (x.piece == q)) [
  | inl e ↦ rw e (ground (arith, h))
  | inr e ↦ rw e (ground (arith, h, remove_needed_less q r ns))
]

pub remove_needed-Distinct :
    (q : ℕ) (ns : List MetadataNode) → Distinct ns → Distinct (remove_needed q ns)
unfolding is_needed remove_needed
remove_needed-Distinct q [] d = tt
remove_needed-Distinct q (x ∷ ns) (new, d) = elim (Bool-cases (x.piece == q)) [
  | inl e ↦ rw e d
  | inr e ↦ rw e (remove_needed_less q x.piece ns new, remove_needed-Distinct q ns d)
]

pub length-memcpy_at :
    (xs : List ℕ) (off : ℕ) (ys : List ℕ) (n : ℕ) → length (memcpy_at xs off ys n) ≡ length xs
unfolding memcpy_at
length-memcpy_at xs zero ys n = length-memcpy xs ys n
length-memcpy_at [] (suc off) ys n = refl
length-memcpy_at (x ∷ xs) (suc off) ys n = ap suc (length-memcpy_at xs off ys n)

pub get_or-memcpy_at :
    (xs : List ℕ) (off : ℕ) (ys : List ℕ) (n j : ℕ)
    → off + n ≤ length xs
    → n ≤ length ys
    → get_or (memcpy_at xs off ys n) j 0
      ≡ (if leb off j && ltb j (off + n) then get_or ys (j - off) 0 else get_or xs j 0)
unfolding memcpy_at
get_or-memcpy_at xs zero ys n j h k =
    let same : j - 0 ≡ j = omega arith in
    rw same (ground (arith, get_or-memcpy xs ys n j 0 (omega (arith, h)) k))
get_or-memcpy_at [] (suc off) ys n j h k = absurd (omega (arith, h))
get_or-memcpy_at (x ∷ xs) (suc off) ys n zero h k = ground arith
get_or-memcpy_at (x ∷ xs) (suc off) ys n (suc j) h k =
    let same : suc j - suc off ≡ j - off = omega arith in
    rw same (ground (arith, get_or-memcpy_at xs off ys n j (omega (arith, h)) k))

pub get_or-drop : (n : ℕ) (xs : List ℕ) (j : ℕ) → get_or (drop n xs) j 0 ≡ get_or xs (n + j) 0
get_or-drop zero xs j = let same : 0 + j ≡ j = omega arith in rw same refl
get_or-drop (suc n) [] j = refl
get_or-drop (suc n) (x ∷ xs) j =
    let same : suc n + j ≡ suc (n + j) = omega arith in rw same (get_or-drop n xs j)

pub same_elements :
    (xs ys : List ℕ) → length xs ≡ length ys → ((j : ℕ) → get_or xs j 0 ≡ get_or ys j 0) → xs ≡ ys
same_elements [] [] l h = refl
same_elements [] (y ∷ ys) l h = absurd (omega (arith, l))
same_elements (x ∷ xs) [] l h = absurd (omega (arith, l))
same_elements (x ∷ xs) (y ∷ ys) l h =
    let first : x ≡ y = h 0 in
    let rest = same_elements xs ys (omega (arith, l)) (λ j. h (suc j)) in rw first (rw rest refl)
