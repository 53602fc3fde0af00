-- ===== src/Metadata/Whole.antt =====
-- When every piece of the text has arrived, the metadata is complete.
use libtransmission.Prelude.{
  ℕ, zero, suc, ◌+◌, ◌-◌, ◌*◌, ◌/◌, ◌≤◌, ◌<◌, ◌≡◌, refl, ap, sym, ◌∙◌, arith, true, false, List, [],
  ◌∷◌, none, ltb, leb, ◌&&◌, length, inl, inr, get_or_beyond,
}
use mathlib.Core.Path.{subst}
use libtransmission.Metadata.{
  MetadataNode, Magnet, Parts, all_needed, is_needed, metadata_piece_size, is_success,
  start_incomplete, set_metadata_size_hint,
}
use libtransmission.Metadata.Needed.{is_needed-all_needed, all_needed-Distinct}
use libtransmission.Metadata.Assembly.{has_arrived, Gathers}
use libtransmission.Metadata.Gathering.{Gathering, IsDone, Stage, Gathering-Stage, if_else}

count_lem :
    (q n : ℕ)
    → (leb 0 q && ltb q (0 + (n + (metadata_piece_size - 1)) / metadata_piece_size)) ≡ true
    → q * metadata_piece_size < n
count_lem q n h =
    let l : q < (n + (metadata_piece_size - 1)) / metadata_piece_size = ground (arith, h) in
    omega (arith, l)

beyond_lem :
    (q n : ℕ)
    → (leb 0 q && ltb q (0 + (n + (metadata_piece_size - 1)) / metadata_piece_size)) ≡ false
    → n ≤ q * metadata_piece_size
beyond_lem q n h =
    let l : (n + (metadata_piece_size - 1)) / metadata_piece_size ≤ q = ground (arith, h) in
    omega (arith, l)

length-all_needed : (i n : ℕ) → length (all_needed i n) ≡ n
unfolding all_needed
length-all_needed i zero = refl
length-all_needed i (suc n) = omega (arith, length-all_needed (i + 1) n)

started-Gathers :
    (text fresh : List ℕ)
    → length fresh ≡ length text
    → Gathers text [] fresh
        (all_needed 0 ((length text + (metadata_piece_size - 1)) / metadata_piece_size))
started-Gathers text fresh same =
    let n = (length text + (metadata_piece_size - 1)) / metadata_piece_size in
    record {
      length_is = same;
      distinct = all_needed-Distinct 0 n;
      in_range = λ q a. count_lem q (length text) (sym (is_needed-all_needed q 0 n) ∙ a);
      arrived_lem = λ q a. absurd (ground (arith, a));
      agrees = λ q a j from to.
          let past = beyond_lem q (length text) (sym (is_needed-all_needed q 0 n) ∙ a) in
          get_or_beyond fresh j 0 (omega (arith, past, from, same))
          ∙ sym (get_or_beyond text j 0 (omega (arith, past, from)));
    }

started-Stage :
    (text fresh : List ℕ) (m : Magnet)
    → m.has_metadata ≡ false
    → m.incomplete ≡ none
    → 0 < length text
    → length fresh ≡ length text
    → Stage text [] (set_metadata_size_hint fresh (length text) m)
unfolding set_metadata_size_hint start_incomplete
started-Stage text fresh m new nothing some_text same =
    let n = (length text + (metadata_piece_size - 1)) / metadata_piece_size in
    let counted : 0 < n = omega (arith, some_text) in
    subst (λ x. Stage text [] x) (sym (if_else m.has_metadata m _ new))
      (subst (λ x. Stage text [] x) (sym (ap (start_incomplete _ m) nothing))
        (inr (
          _,
          refl,
          refl,
          omega (arith, length-all_needed 0 n, counted),
          started-Gathers text fresh same,
        )))

first_needed : (ns : List MetadataNode) → 0 < length ns → (q : ℕ) × (is_needed q ns ≡ true)
unfolding is_needed
first_needed [] h = absurd (omega (arith, h))
first_needed (n ∷ ns) h = (n.piece, ground arith)

all_arrived :
    (text qs : List ℕ) (m : Magnet)
    → Stage text qs m
    → ((q : ℕ) → q * metadata_piece_size < length text → has_arrived q qs ≡ true)
    → IsDone m
all_arrived text qs m (inl d) h = d
all_arrived text qs m (inr (inc, here, size, left, g)) h =
    let (q, needed) = first_needed inc.pieces_needed left in
    absurd (ground (arith, needed, g.arrived_lem q (h q (g.in_range q needed))))

-- For a text whose checksum is the torrent's and that can be parsed and loaded, once its size was
-- given, and the pieces of the text have all arrived, in any order and any number of times,
-- between requests and further size hints, the metadata is complete: nothing is gathered any more
-- and the torrent is stopped to be verified and started.
pub Gathering-IsDone :
    (e : Parts) (text fresh qs : List ℕ) (m m' : Magnet)
    → is_success e text ≡ true
    → m.has_metadata ≡ false
    → m.incomplete ≡ none
    → 0 < length text
    → length fresh ≡ length text
    → Gathering e text (set_metadata_size_hint fresh (length text) m) qs m'
    → ((q : ℕ) → q * metadata_piece_size < length text → has_arrived q qs ≡ true)
    → IsDone m'
Gathering-IsDone e text fresh qs m m' good new nothing some_text same t h =
    all_arrived text qs m'
      (Gathering-Stage good (started-Stage text fresh m new nothing some_text same) t) h
