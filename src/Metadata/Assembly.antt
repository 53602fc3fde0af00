-- ===== src/Metadata/Assembly.antt =====
-- What the metadata holds when pieces of a text have arrived.
use libtransmission.Prelude.{
  ℕ, ◌+◌, ◌-◌, ◌*◌, ◌/◌, ◌≤◌, ◌<◌, min, ◌≡◌, ◌≢◌, ◌⊎◌, refl, ap, sym, ◌∙◌, arith, Bool, true, false,
  List, [], ◌∷◌, if◌then◌else◌, ltb, leb, ◌&&◌, ◌==◌, length, Bool-cases, inl, inr, get_or, take,
  drop, length-take, length-drop, get_or-take, get_or_beyond,
}
use mathlib.Core.Path.{subst}
use libtransmission.Metadata.{
  MetadataNode, is_needed, remove_needed, memcpy_at, metadata_piece_size,
}
use libtransmission.Metadata.Needed.{
  Distinct, remove_needed_gone, is_needed-remove_needed, remove_needed-Distinct, length-memcpy_at,
  get_or-memcpy_at, get_or-drop, same_elements,
}

-- Piece q of a text.
abbrev pub piece_of : ℕ → List ℕ → List ℕ
piece_of q text = take metadata_piece_size (drop (q * metadata_piece_size) text)

abbrev pub has_arrived : ℕ → List ℕ → Bool
has_arrived q [] = false
has_arrived q (p ∷ ps) = if p == q then true else has_arrived q ps

-- A piece's place holds the text's bytes.
abbrev pub Agrees : ℕ → List ℕ → List ℕ → Type 0
Agrees q md text =
    (j : ℕ)
    → q * metadata_piece_size ≤ j
    → j < q * metadata_piece_size + metadata_piece_size
    → get_or md j 0 ≡ get_or text j 0

pub record Gathers (text qs md : List ℕ) (ns : List MetadataNode) : Type 0 where
  pub length_is : length md ≡ length text
  pub distinct : Distinct ns
  pub in_range : (q : ℕ) → is_needed q ns ≡ true → q * metadata_piece_size < length text
  pub arrived_lem : (q : ℕ) → has_arrived q qs ≡ true → is_needed q ns ≡ false
  pub agrees : (q : ℕ) → is_needed q ns ≡ false → Agrees q md text

if_true : (b : Bool) (x y : ℕ) → b ≡ true → (if b then x else y) ≡ x
if_true b x y h = rw h refl

if_false : (b : Bool) (x y : ℕ) → b ≡ false → (if b then x else y) ≡ y
if_false b x y h = rw h refl

within_lem : (o l j : ℕ) → o ≤ j → j < o + l → (leb o j && ltb j (o + l)) ≡ true
within_lem o l j from to = ground arith

outside_lem : (o l j : ℕ) → (j < o) ⊎ (o + l ≤ j) → (leb o j && ltb j (o + l)) ≡ false
outside_lem o l j (inl h) = ground arith
outside_lem o l j (inr h) = ground arith

before_or_after : (o j : ℕ) → (j < o) ⊎ (o ≤ j)
before_or_after o j = elim (Bool-cases (ltb j o)) [
  | inl h ↦ inl (ground (arith, h))
  | inr h ↦ inr (ground (arith, h))
]

-- A byte of another piece.
apart :
    (q r j l : ℕ)
    → q ≢ r
    → l ≤ metadata_piece_size
    → r * metadata_piece_size ≤ j
    → j < r * metadata_piece_size + metadata_piece_size
    → (j < q * metadata_piece_size) ⊎ (q * metadata_piece_size + l ≤ j)
apart q r j l ne short from to = elim (before_or_after (q * metadata_piece_size) j) [
  | inl h ↦ inl h
  | inr h ↦ inr (omega (arith, h, ne, short, from, to))
]

pub length-piece_of :
    (q : ℕ) (text : List ℕ)
    → length (piece_of q text) ≡ min metadata_piece_size (length text - q * metadata_piece_size)
length-piece_of q text =
    length-take metadata_piece_size (drop (q * metadata_piece_size) text)
    ∙ ap (λ n. min metadata_piece_size n) (length-drop (q * metadata_piece_size) text)

get_or-piece_of :
    (q i : ℕ) (text : List ℕ)
    → i < metadata_piece_size
    → get_or (piece_of q text) i 0 ≡ get_or text (q * metadata_piece_size + i) 0
get_or-piece_of q i text h =
    get_or-take metadata_piece_size (drop (q * metadata_piece_size) text) i 0
    ∙ if_true (ltb i metadata_piece_size) _ _ (ground (arith, h))
    ∙ get_or-drop (q * metadata_piece_size) text i

module _ (text qs md : List ℕ) (ns : List MetadataNode) (q : ℕ) (g : Gathers text qs md ns) where
  pub arrive_idle : is_needed q ns ≡ false → Gathers text (q ∷ qs) md ns
  arrive_idle h = record {
    length_is = g.length_is;
    distinct = g.distinct;
    in_range = g.in_range;
    arrived_lem = λ r a. elim (Bool-cases (q == r)) [
      | inl same ↦ let is : q ≡ r = ground (arith, same) in rw is at h
      | inr other ↦ g.arrived_lem r (rw other at a)
    ];
    agrees = g.agrees;
  }

  unfoldable pub new_metadata : List ℕ
  new_metadata = memcpy_at md (q * metadata_piece_size) (piece_of q text) (length (piece_of q text))

  stored_at :
      (j : ℕ)
      → q * metadata_piece_size < length text
      → get_or new_metadata j 0 ≡ (
          if leb (q * metadata_piece_size) j
            && ltb j (q * metadata_piece_size + length (piece_of q text))
          then get_or (piece_of q text) (j - q * metadata_piece_size) 0
          else get_or md j 0)
  unfolding new_metadata
  stored_at j inside =
      get_or-memcpy_at md (q * metadata_piece_size) (piece_of q text) (length (piece_of q text)) j
        (omega (arith, length-piece_of q text, g.length_is, inside)) (omega arith)

  -- A byte of the piece, and one past the end of the text.
  stored-Agrees_self : q * metadata_piece_size < length text → Agrees q new_metadata text
  unfolding new_metadata
  stored-Agrees_self inside j from to = elim (before_or_after (length text) j) [
    | inl h ↦
        let within : (leb (q * metadata_piece_size) j
              && ltb j (q * metadata_piece_size + length (piece_of q text)))
            ≡ true =
          within_lem (q * metadata_piece_size) (length (piece_of q text)) j from
            (omega (arith, length-piece_of q text, from, to, h)) in
        let sum : q * metadata_piece_size + (j - q * metadata_piece_size) ≡ j =
          omega (arith, from) in
        stored_at j inside
        ∙ if_true
            (leb (q * metadata_piece_size) j
              && ltb j (q * metadata_piece_size + length (piece_of q text)))
            _ _ within
        ∙ get_or-piece_of q (j - q * metadata_piece_size) text (omega (arith, from, to))
        ∙ ap (λ i. get_or text i 0) sum
    | inr past ↦
        get_or_beyond new_metadata j 0 (
          omega (
            arith,
            past,
            g.length_is,
            length-memcpy_at md (q * metadata_piece_size) (piece_of q text)
                (length (piece_of q text)),
          ))
        ∙ sym (get_or_beyond text j 0 past)
  ]

  stored-Agrees :
      (r : ℕ)
      → q ≢ r
      → q * metadata_piece_size < length text
      → Agrees r md text
      → Agrees r new_metadata text
  stored-Agrees r ne inside a j from to =
      let outside : (leb (q * metadata_piece_size) j
            && ltb j (q * metadata_piece_size + length (piece_of q text)))
          ≡ false =
        outside_lem (q * metadata_piece_size) (length (piece_of q text)) j (
          apart q r j (length (piece_of q text)) ne (omega (arith, length-piece_of q text)) from
            to) in
      stored_at j inside
      ∙ if_false
          (leb (q * metadata_piece_size) j
            && ltb j (q * metadata_piece_size + length (piece_of q text)))
          _ _ outside
      ∙ a j from to

  -- What is gathered after a needed piece is stored.
  pub arrive_needed :
      is_needed q ns ≡ true → Gathers text (q ∷ qs) new_metadata (remove_needed q ns)
  unfolding new_metadata
  arrive_needed h = record {
    length_is =
        length-memcpy_at md (q * metadata_piece_size) (piece_of q text) (length (piece_of q text))
        ∙ g.length_is;
    distinct = remove_needed-Distinct q ns g.distinct;
    in_range = λ r a. elim (Bool-cases (q == r)) [
      | inl same ↦
          let is : q ≡ r = ground (arith, same) in
          subst (λ x. x * metadata_piece_size < length text) is (g.in_range q h)
      | inr other ↦
          let ne : q ≢ r = ground (arith, other) in
          g.in_range r (sym (is_needed-remove_needed q r ns ne) ∙ a)
    ];
    arrived_lem = λ r a. elim (Bool-cases (q == r)) [
      | inl same ↦
          let is : q ≡ r = ground (arith, same) in
          subst (λ x. is_needed x (remove_needed q ns) ≡ false) is
            (remove_needed_gone q ns g.distinct)
      | inr other ↦
          let ne : q ≢ r = ground (arith, other) in
          is_needed-remove_needed q r ns ne ∙ g.arrived_lem r (rw other at a)
    ];
    agrees = λ r a. elim (Bool-cases (q == r)) [
      | inl same ↦
          let is : q ≡ r = ground (arith, same) in
          subst (λ x. Agrees x new_metadata text) is (stored-Agrees_self (g.in_range q h))
      | inr other ↦
          let ne : q ≢ r = ground (arith, other) in
          stored-Agrees r ne (g.in_range q h)
            (g.agrees r (sym (is_needed-remove_needed q r ns ne) ∙ a))
    ];
  }

-- With no piece needed the metadata is the text.
pub complete_lem : (text qs md : List ℕ) → Gathers text qs md [] → md ≡ text
unfolding is_needed
complete_lem text qs md g =
    same_elements md text g.length_is
      (λ j. g.agrees (j / metadata_piece_size) refl j (omega arith) (omega arith))
