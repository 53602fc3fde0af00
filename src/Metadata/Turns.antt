-- ===== src/Metadata/Turns.antt =====
-- The order in which the needed pieces are requested.
use libtransmission.Prelude.{
  ℕ, suc, ◌+◌, ◌≤◌, ◌≡◌, ◌≢◌, refl, ap, sym, ◌∙◌, arith, Bool, true, false, List, [], ◌∷◌, ◌++◌,
  Option, none, some, if◌then◌else◌, ltb, not, ◌&&◌, ◌==◌, Bool-cases, inl, inr, if_lem,
}
use mathlib.Core.Path.{subst}
use libtransmission.Metadata.{
  MetadataNode, Incomplete, Magnet, Parts, is_needed, remove_needed, set_metadata_size_hint,
  after_piece, store_piece, set_metadata_piece, request_first, request_from,
  get_next_metadata_request, store_in, start_incomplete, min_repeat_interval_secs,
}

-- How many nodes stand before the piece's first.
abbrev pub ahead : ℕ → List MetadataNode → ℕ
ahead q [] = 0
ahead q (n ∷ ns) = if n.piece == q then 0 else suc (ahead q ns)

-- Every node was last requested long enough before now.
abbrev pub all_due : ℕ → List MetadataNode → Bool
all_due now [] = true
all_due now (n ∷ ns) = ltb (n.requested_at + min_repeat_interval_secs) now && all_due now ns

-- A run in which the piece is neither requested nor received, with the number of its requests.
pub data Turns (e : Parts) (q : ℕ) (m : Magnet) : ℕ → Magnet → Type 0 where
  begin : Turns e q m 0 m
  request :
      {k : ℕ} {m' m'' : Magnet}
      → Turns e q m k m'
      → (now p : ℕ) → p ≢ q
      → get_next_metadata_request now m' ≡ some (p, m'')
      → Turns e q m (suc k) m''
  arrive :
      {k : ℕ} {m' : Magnet}
      → Turns e q m k m'
      → (p : ℕ) → p ≢ q
      → (bytes : List ℕ) → Turns e q m k (set_metadata_piece e p bytes m')
  hint :
      {k : ℕ} {m' : Magnet}
      → Turns e q m k m'
      → (fresh : List ℕ) (size : ℕ) → Turns e q m k (set_metadata_size_hint fresh size m')

-- The piece is needed, with i nodes before it.
abbrev pub Waits : ℕ → ℕ → Magnet → Type 0
Waits q i m =
    (inc : Incomplete) × (m.incomplete ≡ some inc)
    × (is_needed q inc.pieces_needed ≡ true)
    × (ahead q inc.pieces_needed ≡ i)

ahead-append :
    (q : ℕ) (ns ms : List MetadataNode)
    → is_needed q ns ≡ true
    → (is_needed q (ns ++ ms) ≡ true) × (ahead q (ns ++ ms) ≡ ahead q ns)
unfolding is_needed
ahead-append q [] ms h = absurd (ground (arith, h))
ahead-append q (n ∷ ns) ms h = elim (Bool-cases (n.piece == q)) [
  | inl same ↦ (rw same refl, rw same refl)
  | inr other ↦
      let (needed, before) = ahead-append q ns ms (rw other at h) in
      (rw other needed, rw other (ap suc before))
]

ahead-remove_needed :
    (p q : ℕ) (ns : List MetadataNode)
    → p ≢ q
    → is_needed q ns ≡ true
    → (is_needed q (remove_needed p ns) ≡ true) × (ahead q (remove_needed p ns) ≤ ahead q ns)
unfolding is_needed remove_needed
ahead-remove_needed p q [] ne h = absurd (ground (arith, h))
ahead-remove_needed p q (n ∷ ns) ne h = elim (Bool-cases (n.piece == q)) [
  | inl same ↦
      let other : (n.piece == p) ≡ false = ground (arith, same, ne) in
      rw other (rw same (refl, omega arith))
  | inr other ↦
      let h' = rw other at h in
      let (needed, before) = ahead-remove_needed p q ns ne h' in
      elim (Bool-cases (n.piece == p)) [
        | inl found ↦ rw found (rw other (h', omega arith))
        | inr left ↦ rw left (rw other (needed, omega (arith, before)))
      ]
]

abbrev answer_piece : ℕ → Option (ℕ × Magnet) → ℕ
answer_piece d none = d
answer_piece d (some (p, m)) = p

abbrev answer_magnet : Magnet → Option (ℕ × Magnet) → Magnet
answer_magnet d none = d
answer_magnet d (some (p, m)) = m

-- A request of another piece lets the piece come forward.
request_first-Waits :
    (now p q : ℕ) (inc : Incomplete) (ns : List MetadataNode) (m m' : Magnet)
    → p ≢ q
    → is_needed q ns ≡ true
    → request_first now inc ns m ≡ some (p, m')
    → (j : ℕ) × Waits q j m' × (suc j ≡ ahead q ns)
unfolding request_first is_needed
request_first-Waits now p q inc [] m m' ne h r = absurd (ground (arith, h))
request_first-Waits now p q inc (n ∷ ns) m m' ne h r =
    elim (Bool-cases (ltb (n.requested_at + min_repeat_interval_secs) now)) [
      | inr early ↦ let r' = rw early at r in absurd (ground (arith, r'))
      | inl due ↦
          let r' = rw due at r in
          let same : n.piece ≡ p = ap (λ o. answer_piece p o) r' in
          let other : (n.piece == q) ≡ false = ground (arith, same, ne) in
          let (needed, before) =
            ahead-append q ns (record { requested_at = now; piece = n.piece } ∷ [])
              (rw other at h) in
          (
            ahead q ns,
            subst (λ x. Waits q (ahead q ns) x) (ap (λ o. answer_magnet m' o) r')
                (_, refl, needed, before),
            rw other refl,
          )
    ]

get_next_metadata_request-Waits :
    (now p q i : ℕ) (m m' : Magnet)
    → p ≢ q
    → Waits q i m
    → get_next_metadata_request now m ≡ some (p, m')
    → (j : ℕ) × Waits q j m' × (suc j ≡ i)
unfolding get_next_metadata_request request_from
get_next_metadata_request-Waits now p q i m m' ne (inc, here, needed, before) r =
    let r' = sym (ap (request_from now m) here) ∙ r in
    let (j, waits, sum) = request_first-Waits now p q inc inc.pieces_needed m m' ne needed r' in
    (j, waits, sum ∙ before)

-- What is stored leaves the other pieces needed.
after_piece-Waits :
    (e : Parts) (q : ℕ) (inc : Incomplete) (ns : List MetadataNode) (m : Magnet)
    → is_needed q ns ≡ true
    → Waits q (ahead q ns) (after_piece e inc ns m)
unfolding after_piece is_needed
after_piece-Waits e q inc [] m h = absurd (ground (arith, h))
after_piece-Waits e q inc (n ∷ ns) m h = (_, refl, h, refl)

abbrev Nearer : ℕ → ℕ → Magnet → Type 0
Nearer q i m = (j : ℕ) × Waits q j m × (j ≤ i)

set_metadata_piece-Waits :
    (e : Parts) (p q i : ℕ) (bytes : List ℕ) (m : Magnet)
    → p ≢ q
    → Waits q i m
    → Nearer q i (set_metadata_piece e p bytes m)
unfolding set_metadata_piece store_in store_piece
set_metadata_piece-Waits e p q i bytes m ne (inc, here, needed, before) =
    let (left, nearer) = ahead-remove_needed p q inc.pieces_needed ne needed in
    let stays : Nearer q i m = (i, (inc, here, needed, before), omega arith) in
    subst (λ x. Nearer q i x) (sym (ap (store_in e p bytes m) here))
      (if_lem (λ x. Nearer q i x) (ltb inc.metadata_size _) _ _ stays
        (if_lem (λ x. Nearer q i x) (not (is_needed p inc.pieces_needed)) _ _ stays
          (_, after_piece-Waits e q _ _ m left, omega (arith, nearer, before))))

set_metadata_size_hint-Waits :
    (q i : ℕ) (fresh : List ℕ) (size : ℕ) (m : Magnet)
    → Waits q i m
    → Waits q i (set_metadata_size_hint fresh size m)
unfolding set_metadata_size_hint start_incomplete
set_metadata_size_hint-Waits q i fresh size m w =
    if_lem (λ x. Waits q i x) m.has_metadata _ _ w
      (subst (λ x. Waits q i x) (sym (ap (start_incomplete _ m) w.1)) w)

Turns-Waits :
    {e : Parts} {q i : ℕ} {m : Magnet} {k : ℕ} {m' : Magnet}
    → Waits q i m
    → Turns e q m k m'
    → (j : ℕ) × Waits q j m' × (j + k ≤ i)
Turns-Waits {i = i} w begin = (i, w, omega arith)
Turns-Waits {q = q} w (request t now p ne r) =
    let (j, w', l) = Turns-Waits w t in
    let (j', w'', sum) = get_next_metadata_request-Waits now p q j _ _ ne w' r in
    (j', w'', omega (arith, l, sum))
Turns-Waits {e} {q} w (arrive t p ne bytes) =
    let (j, w', l) = Turns-Waits w t in
    let (j', w'', less) = set_metadata_piece-Waits e p q j bytes _ ne w' in
    (j', w'', omega (arith, l, less))
Turns-Waits {q = q} w (hint t fresh size) =
    let (j, w', l) = Turns-Waits w t in (j, set_metadata_size_hint-Waits q j fresh size _ w', l)

-- With all nodes due the first of them is requested.
request_first_due :
    (now : ℕ) (inc : Incomplete) (ns : List MetadataNode) (m : Magnet) (q : ℕ)
    → is_needed q ns ≡ true
    → all_due now ns ≡ true
    → (p : ℕ) × (m' : Magnet) × (request_first now inc ns m ≡ some (p, m'))
unfolding request_first is_needed
request_first_due now inc [] m q h due = absurd (ground (arith, h))
request_first_due now inc (n ∷ ns) m q h due =
    let first : ltb (n.requested_at + min_repeat_interval_secs) now ≡ true = ground (arith, due) in
    (n.piece, answer_magnet m (request_first now inc (n ∷ ns) m), rw first refl)

get_next_due :
    (now q j : ℕ) (m : Magnet)
    → (w : Waits q j m) → all_due now (w.0).pieces_needed ≡ true
    → (p : ℕ) × (m' : Magnet) × (get_next_metadata_request now m ≡ some (p, m'))
unfolding get_next_metadata_request request_from
get_next_due now q j m (inc, here, needed, before) due =
    let (p, m', asks) = request_first_due now inc inc.pieces_needed m q needed due in
    (p, m', ap (request_from now m) here ∙ asks)

-- While a needed piece of the metadata is neither requested nor received it stays needed, and
-- each request that is made brings it at least one place forward, so of those requests there are
-- no more than pieces stood before it; and a request is made at any time when the last requests
-- of all needed pieces are more than three seconds old.
pub turn_comes :
    (e : Parts) (q k : ℕ) (m m' : Magnet) (inc : Incomplete)
    → m.incomplete ≡ some inc
    → is_needed q inc.pieces_needed ≡ true
    → Turns e q m k m'
    → ((inc' : Incomplete) × (m'.incomplete ≡ some inc')
        × (is_needed q inc'.pieces_needed ≡ true)
        × (ahead q inc'.pieces_needed + k ≤ ahead q inc.pieces_needed)
        × ((now : ℕ)
            → all_due now inc'.pieces_needed ≡ true
            → (p : ℕ) × (m'' : Magnet) × (get_next_metadata_request now m' ≡ some (p, m''))))
turn_comes e q k m m' inc here needed t =
    let (j, w, l) = Turns-Waits (inc, here, needed, refl) t in
    (w.0, w.1, w.2, omega (arith, l, w.3), λ now due. get_next_due now q j m' w due)
