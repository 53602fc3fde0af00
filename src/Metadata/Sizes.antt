-- ===== src/Metadata/Sizes.antt =====
-- What a size hint of no bytes leaves to do.
use libtransmission.Prelude.{
  ℕ, ◌≡◌, refl, ap, sym, ◌∙◌, arith, false, List, [], Option, none, some, if_lem, ltb,
}
use mathlib.Core.Path.{subst}
use libtransmission.Metadata.Gathering.{if_else}
use libtransmission.Metadata.{
  Incomplete, Magnet, Parts, all_needed, is_needed, store_piece, store_in, set_metadata_piece,
  start_incomplete, set_metadata_size_hint, request_first, request_from, get_next_metadata_request,
}

abbrev zero_pieces : List ℕ → Incomplete
zero_pieces fresh = record {
  metadata = fresh;
  metadata_size = 0;
  piece_count = 0;
  pieces_needed = [];
}

-- A state in which nothing is needed.
abbrev Stuck : List ℕ → Magnet → Type 0
Stuck fresh m = m.incomplete ≡ some (zero_pieces fresh)

started_zero :
    (fresh : List ℕ) (m : Magnet) (o : Option Incomplete)
    → o ≡ none
    → Stuck fresh (start_incomplete (zero_pieces fresh) m o)
unfolding start_incomplete
started_zero fresh m none h = refl
started_zero fresh m (some inc) h = absurd (ground (arith, h))

zero_hint :
    (fresh : List ℕ) (m : Magnet)
    → m.has_metadata ≡ false
    → m.incomplete ≡ none
    → Stuck fresh (set_metadata_size_hint fresh 0 m)
unfolding set_metadata_size_hint all_needed
zero_hint fresh m new nothing =
    subst (λ x. Stuck fresh x) (sym (if_else m.has_metadata m _ new))
      (started_zero fresh m m.incomplete nothing)

Stuck-request :
    (fresh : List ℕ) (now : ℕ) (m : Magnet) → Stuck fresh m → get_next_metadata_request now m ≡ none
unfolding get_next_metadata_request request_from request_first
Stuck-request fresh now m here = ap (request_from now m) here

Stuck-piece :
    (e : Parts) (fresh : List ℕ) (q : ℕ) (bytes : List ℕ) (m : Magnet)
    → Stuck fresh m
    → set_metadata_piece e q bytes m ≡ m
unfolding set_metadata_piece store_in store_piece is_needed
Stuck-piece e fresh q bytes m here =
    ap (store_in e q bytes m) here ∙ if_lem (λ x. x ≡ m) (ltb 0 _) m m refl refl

Stuck-hint :
    (fresh fresh' : List ℕ) (size : ℕ) (m : Magnet)
    → Stuck fresh m
    → set_metadata_size_hint fresh' size m ≡ m
unfolding set_metadata_size_hint start_incomplete
Stuck-hint fresh fresh' size m here =
    if_lem (λ x. x ≡ m) m.has_metadata _ _ refl (ap (start_incomplete _ m) here)

-- For a torrent without metadata that gathers none, after the size hint 0 no request is ever
-- made, and every piece and every further size hint changes nothing.
pub zero_size_stuck :
    (fresh : List ℕ) (m : Magnet)
    → m.has_metadata ≡ false
    → m.incomplete ≡ none
    → ((now : ℕ) → get_next_metadata_request now (set_metadata_size_hint fresh 0 m) ≡ none)
      × ((e : Parts) (q : ℕ) (bytes : List ℕ)
          → set_metadata_piece e q bytes (set_metadata_size_hint fresh 0 m)
            ≡ set_metadata_size_hint fresh 0 m)
      × ((fresh' : List ℕ) (size : ℕ)
          → set_metadata_size_hint fresh' size (set_metadata_size_hint fresh 0 m)
            ≡ set_metadata_size_hint fresh 0 m)
zero_size_stuck fresh m new nothing =
    let here = zero_hint fresh m new nothing in
    (
      λ now. Stuck-request fresh now _ here,
      λ e q bytes. Stuck-piece e fresh q bytes _ here,
      λ fresh' size. Stuck-hint fresh fresh' size _ here,
    )
