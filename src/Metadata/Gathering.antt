-- ===== src/Metadata/Gathering.antt =====
-- Metadata whose pieces arrive in any order is the text that they are pieces of.
use libtransmission.Prelude.{
  ℕ, ◌+◌, ◌*◌, ◌≤◌, ◌<◌, ◌≡◌, ◌⊎◌, refl, ap, sym, ◌∙◌, arith, Bool, true, false, List, [], ◌∷◌,
  ◌++◌, Option, none, some, if◌then◌else◌, ltb, length, Bool-cases, inl, inr, if_lem, length-append,
}
use mathlib.Core.Path.{subst}
use libtransmission.Metadata.{
  MetadataNode, Incomplete, Magnet, Parts, is_needed, remove_needed, metadata_piece_size,
  is_success, finish_metadata, after_piece, store_piece, store_in, set_metadata_piece,
  start_incomplete, set_metadata_size_hint, request_first, request_from, get_next_metadata_request,
  min_repeat_interval_secs,
}
use libtransmission.Metadata.Needed.{is_needed-rotate, append-Distinct}
use libtransmission.Metadata.Assembly.{
  piece_of, Gathers, arrive_idle, arrive_needed, new_metadata, complete_lem, length-piece_of,
}

-- A run in which the pieces of the text arrive, the last of them listed first, between requests and hints.
pub data Gathering (e : Parts) (text : List ℕ) (m : Magnet) : List ℕ → Magnet → Type 0 where
  begin : Gathering e text m [] m
  arrive :
      {qs : List ℕ} {m' : Magnet}
      → Gathering e text m qs m'
      → (q : ℕ) → Gathering e text m (q ∷ qs) (set_metadata_piece e q (piece_of q text) m')
  request :
      {qs : List ℕ} {m' m'' : Magnet}
      → Gathering e text m qs m'
      → (now p : ℕ) → get_next_metadata_request now m' ≡ some (p, m'')
      → Gathering e text m qs m''
  hint :
      {qs : List ℕ} {m' : Magnet}
      → Gathering e text m qs m'
      → (fresh : List ℕ) (size : ℕ) → Gathering e text m qs (set_metadata_size_hint fresh size m')

-- The metadata is complete, or some pieces are needed.
abbrev pub IsDone : Magnet → Type 0
IsDone m =
    (m.incomplete ≡ none)
    × (m.has_metadata ≡ true)
    × (m.is_stopping ≡ true)
    × (m.magnet_verify ≡ true)
    × (m.start_after_verify ≡ true)

abbrev pub Stage : List ℕ → List ℕ → Magnet → Type 0
Stage text qs m =
    IsDone m
    ⊎ ((inc : Incomplete) × (m.incomplete ≡ some inc)
        × (inc.metadata_size ≡ length text)
        × (0 < length inc.pieces_needed)
        × Gathers text qs inc.metadata inc.pieces_needed)

if_then : (b : Bool) (x y : Magnet) → b ≡ true → (if b then x else y) ≡ x
if_then b x y h = rw h refl

pub if_else : (b : Bool) (x y : Magnet) → b ≡ false → (if b then x else y) ≡ y
if_else b x y h = rw h refl

-- The piece that was stored was the last, or others are needed.
after_piece-Stage :
    (e : Parts) (text qs : List ℕ) (inc : Incomplete) (ns : List MetadataNode) (m : Magnet)
    → is_success e text ≡ true
    → inc.metadata_size ≡ length text
    → Gathers text qs inc.metadata ns
    → Stage text qs (after_piece e inc ns m)
unfolding after_piece finish_metadata
after_piece-Stage e text qs inc [] m good size g =
    let done : is_success e inc.metadata ≡ true =
      ap (λ t. is_success e t) (complete_lem text qs inc.metadata g) ∙ good in
    rw done (inl (refl, refl, refl, refl, refl))
after_piece-Stage e text qs inc (n ∷ ns) m good size g = inr (_, refl, size, omega arith, g)

idle-Stage :
    (text qs : List ℕ) (q : ℕ) (inc : Incomplete) (m : Magnet)
    → m.incomplete ≡ some inc
    → inc.metadata_size ≡ length text
    → 0 < length inc.pieces_needed
    → Gathers text qs inc.metadata inc.pieces_needed
    → is_needed q inc.pieces_needed ≡ false
    → Stage text (q ∷ qs) m
idle-Stage text qs q inc m here size left g h =
    inr (inc, here, size, left, arrive_idle text qs inc.metadata inc.pieces_needed q g h)

ltb_beyond : (a b : ℕ) → b ≤ a → ltb a b ≡ false
ltb_beyond a b h = ground arith

store_piece-Stage :
    (e : Parts) (text qs : List ℕ) (q : ℕ) (inc : Incomplete) (m : Magnet)
    → is_success e text ≡ true
    → m.incomplete ≡ some inc
    → inc.metadata_size ≡ length text
    → 0 < length inc.pieces_needed
    → Gathers text qs inc.metadata inc.pieces_needed
    → Stage text (q ∷ qs) (store_piece e q (piece_of q text) inc m)
unfolding store_piece new_metadata
store_piece-Stage e text qs q inc m good here size left g =
    elim (Bool-cases (is_needed q inc.pieces_needed)) [
      | inr h ↦
          let idle = idle-Stage text qs q inc m here size left g h in
          if_lem (λ x. Stage text (q ∷ qs) x) (ltb inc.metadata_size _) _ _ idle (rw h idle)
      | inl h ↦
          let fits : ltb inc.metadata_size (q * metadata_piece_size + length (piece_of q text))
              ≡ false =
            ltb_beyond inc.metadata_size (q * metadata_piece_size + length (piece_of q text))
              (omega (arith, size, g.in_range q h, length-piece_of q text)) in
          rw fits (
            rw h (
              after_piece-Stage e text (q ∷ qs) _ (remove_needed q inc.pieces_needed) m good size
                (arrive_needed text qs inc.metadata inc.pieces_needed q g h)))
    ]

set_metadata_piece-Stage :
    (e : Parts) (text qs : List ℕ) (q : ℕ) (m : Magnet)
    → is_success e text ≡ true
    → Stage text qs m
    → Stage text (q ∷ qs) (set_metadata_piece e q (piece_of q text) m)
unfolding set_metadata_piece store_in
set_metadata_piece-Stage e text qs q m good (inl d) =
    subst (λ x. Stage text (q ∷ qs) x) (sym (ap (store_in e q (piece_of q text) m) d.0)) (inl d)
set_metadata_piece-Stage e text qs q m good (inr (inc, here, size, left, g)) =
    subst (λ x. Stage text (q ∷ qs) x) (sym (ap (store_in e q (piece_of q text) m) here))
      (store_piece-Stage e text qs q inc m good here size left g)

set_metadata_size_hint-Stage :
    (text qs fresh : List ℕ) (size : ℕ) (m : Magnet)
    → Stage text qs m
    → Stage text qs (set_metadata_size_hint fresh size m)
unfolding set_metadata_size_hint start_incomplete
set_metadata_size_hint-Stage text qs fresh size m (inl d) =
    subst (λ x. Stage text qs x) (sym (if_then m.has_metadata m _ d.1)) (inl d)
set_metadata_size_hint-Stage text qs fresh size m (inr w) =
    if_lem (λ x. Stage text qs x) m.has_metadata _ _ (inr w)
      (subst (λ x. Stage text qs x) (sym (ap (start_incomplete _ m) w.1)) (inr w))

-- The nodes after the first one was moved to the end.
rotate-Gathers :
    (text qs md : List ℕ) (now : ℕ) (n : MetadataNode) (ns : List MetadataNode)
    → Gathers text qs md (n ∷ ns)
    → Gathers text qs md (ns ++ record { requested_at = now; piece = n.piece } ∷ [])
rotate-Gathers text qs md now n ns g =
    let (new, rest) = g.distinct in
    record {
      length_is = g.length_is;
      distinct = append-Distinct (record { requested_at = now; piece = n.piece }) ns new rest;
      in_range = λ q a. g.in_range q (sym (is_needed-rotate q now n ns) ∙ a);
      arrived_lem = λ q a. is_needed-rotate q now n ns ∙ g.arrived_lem q a;
      agrees = λ q a. g.agrees q (sym (is_needed-rotate q now n ns) ∙ a);
    }

abbrev answer_magnet : Magnet → Option (ℕ × Magnet) → Magnet
answer_magnet d none = d
answer_magnet d (some (p, m)) = m

request_first-Stage :
    (text qs : List ℕ) (now p : ℕ) (inc : Incomplete) (ns : List MetadataNode) (m m' : Magnet)
    → inc.metadata_size ≡ length text
    → Gathers text qs inc.metadata ns
    → request_first now inc ns m ≡ some (p, m')
    → Stage text qs m'
unfolding request_first
request_first-Stage text qs now p inc [] m m' size g r = absurd (ground (arith, r))
request_first-Stage text qs now p inc (n ∷ ns) m m' size g r =
    elim (Bool-cases (ltb (n.requested_at + min_repeat_interval_secs) now)) [
      | inr early ↦ let r' = rw early at r in absurd (ground (arith, r'))
      | inl due ↦
          let r' = rw due at r in
          let moved = ns ++ record { requested_at = now; piece = n.piece } ∷ [] in
          subst (λ x. Stage text qs x) (ap (λ o. answer_magnet m' o) r')
            (inr (
              _,
              refl,
              size,
              omega (arith, length-append ns (record { requested_at = now; piece = n.piece } ∷ [])),
              rotate-Gathers text qs inc.metadata now n ns g,
            ))
    ]

get_next_metadata_request-Stage :
    (text qs : List ℕ) (now p : ℕ) (m m' : Magnet)
    → Stage text qs m
    → get_next_metadata_request now m ≡ some (p, m')
    → Stage text qs m'
unfolding get_next_metadata_request request_from
get_next_metadata_request-Stage text qs now p m m' (inl d) r =
    let r' = sym (ap (request_from now m) d.0) ∙ r in absurd (ground (arith, r'))
get_next_metadata_request-Stage text qs now p m m' (inr (inc, here, size, left, g)) r =
    request_first-Stage text qs now p inc inc.pieces_needed m m' size g
      (sym (ap (request_from now m) here) ∙ r)

pub Gathering-Stage :
    {e : Parts} {text : List ℕ} {m : Magnet} {qs : List ℕ} {m' : Magnet}
    → is_success e text ≡ true
    → Stage text [] m
    → Gathering e text m qs m'
    → Stage text qs m'
Gathering-Stage good st begin = st
Gathering-Stage {e} {text} good st (arrive {qs = qs} {m' = m'} t q) =
    set_metadata_piece-Stage e text qs q m' good (Gathering-Stage good st t)
Gathering-Stage {e} {text} good st (request {qs = qs} {m' = m'} {m'' = m''} t now p r) =
    get_next_metadata_request-Stage text qs now p m' m'' (Gathering-Stage good st t) r
Gathering-Stage {e} {text} good st (hint {qs = qs} {m' = m'} t fresh size) =
    set_metadata_size_hint-Stage text qs fresh size m' (Gathering-Stage good st t)
