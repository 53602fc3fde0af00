-- ===== src/PeerMsgs/Reader/Outcomes.antt =====
-- A round of the reader in each state, on some bytes and on the same bytes with more behind them.
use libtransmission.Prelude.{
  ℕ, ◌-◌, ◌≤◌, ◌<◌, ◌≡◌, refl, sym, ◌∙◌, arith, List, [], ◌∷◌, ◌++◌, ltb, ◌==◌, Bool-cases, inl,
  inr, length, drop, length-append, length-drop,
}
use mathlib.Core.List.{append-nil}
use mathlib.Core.Path.{subst}
use libtransmission.PeerMsgs.{Env}
use libtransmission.PeerMsgs.Reader.{
  State, awaiting_length, awaiting_id, awaiting_message, awaiting_piece, Msgs, take_block,
  read_bt_piece, read_in_state, can_read,
}
use libtransmission.PeerMsgs.Reader.Rounds.{
  IsFramed, Went-as, Outcome, Outcome-as, Counts, length-Outcome, drop-append, header-Outcome,
}
use libtransmission.PeerMsgs.Reader.Messages.{message-Outcome, id-Outcome}
use libtransmission.PeerMsgs.Reader.Blocks.{
  taken, data_waits, data_fills, piece_data_lem, piece_header_lem, can_read_in, data_joins,
  taken-IsFramed, filled-append, finish-append, finish-Went,
}

-- A chunk that does not complete the block.
chunk_joins :
    (e : Env) (m : Msgs) (a b : List ℕ)
    → IsFramed m.incoming
    → m.incoming.state ≡ awaiting_piece
    → 0 < m.incoming.block_req.req_length
    → length a < m.incoming.block_req.req_length - length m.incoming.block
    → read_bt_piece e m (a ++ b) ≡ can_read e (record m { incoming = taken m.incoming a }) b
unfolding can_read read_in_state
chunk_joins e m a [] f here pos short =
    rw (append-nil a) (rw (piece_data_lem e m a pos) (data_waits e m f pos a short))
chunk_joins e m a (c ∷ b) f here pos short =
    let m' : Msgs = record m { incoming = taken m.incoming a } in
    piece_data_lem e m (a ++ c ∷ b) pos
    ∙ data_joins e m f pos a (c ∷ b) short
    ∙ sym (piece_data_lem e m' (c ∷ b) pos)
    ∙ sym (can_read_in e m' awaiting_piece (c ∷ b) here (omega arith))

data-Outcome :
    (e : Env) (m : Msgs) (a b : List ℕ)
    → IsFramed m.incoming
    → m.incoming.state ≡ awaiting_piece
    → 0 < m.incoming.block_req.req_length
    → 0 < length a
    → Outcome e m a b (read_bt_piece e m a) (read_bt_piece e m (a ++ b))
unfolding take_block
data-Outcome e m a b f here pos nonempty =
    let left = m.incoming.block_req.req_length - length m.incoming.block in
    elim (Bool-cases (ltb (length a) left)) [
      | inl h ↦
          let short : length a < left = ground (arith, h) in
          inr (
            inl (
              record m { incoming = taken m.incoming a },
              piece_data_lem e m a pos ∙ data_waits e m f pos a short,
              taken-IsFramed e m f pos a short,
              chunk_joins e m a b f here pos short,
            ))
      | inr h ↦
          let full : left ≤ length a = ground (arith, h) in
          let longer : left ≤ length (a ++ b) = omega (arith, length-append a b, full) in
          let r = piece_data_lem e m a pos ∙ data_fills e m f pos a full in
          let s = piece_data_lem e m (a ++ b) pos ∙ data_fills e m f pos (a ++ b) longer in
          inr (
            inr (
              rw r (
                  rw s (
                    rw (filled-append e m f pos a b full) (
                      rw (drop-append left a b full) (finish-append e m f pos (drop left a) b _)))),
              Went-as (length a) _ _ r (
                  finish-Went e m f pos (length a) (drop left a) _
                    (omega (arith, length-drop left a, nonempty, f.block_part pos)) f.length_fits),
            ))
    ]

piece-Outcome :
    (e : Env) (m : Msgs) (a b : List ℕ)
    → IsFramed m.incoming
    → m.incoming.state ≡ awaiting_piece
    → 0 < length a
    → Outcome e m a b (read_bt_piece e m a) (read_bt_piece e m (a ++ b))
piece-Outcome e m a b f here nonempty = elim (Bool-cases (m.incoming.block_req.req_length == 0)) [
  | inl h ↦
      let z : m.incoming.block_req.req_length ≡ 0 = ground (arith, h) in
      Outcome-as e m a b _ _ _ _ (piece_header_lem e m a z) (piece_header_lem e m (a ++ b) z)
        (header-Outcome e m a b f z)
  | inr h ↦ data-Outcome e m a b f here (ground (arith, h)) nonempty
]

Counts-at : (s t : State) (n : ℕ) → s ≡ t → Counts s n → Counts t n
Counts-at s t n same c = subst (λ x. Counts x n) same c

state-Outcome :
    (e : Env) (m : Msgs) (a b : List ℕ) (s : State)
    → IsFramed m.incoming
    → m.incoming.state ≡ s
    → 0 < length a
    → Outcome e m a b (read_in_state s e m a) (read_in_state s e m (a ++ b))
unfolding read_in_state
state-Outcome e m a b awaiting_length f here nonempty = length-Outcome e m a b f
state-Outcome e m a b awaiting_id f here nonempty =
    id-Outcome e m f a b nonempty (Counts-at _ _ _ here f.counts)
state-Outcome e m a b awaiting_message f here nonempty =
    message-Outcome e m f a b (Counts-at _ _ _ here f.counts)
state-Outcome e m a b awaiting_piece f here nonempty = piece-Outcome e m a b f here nonempty

pub can_read-Outcome :
    (e : Env) (m : Msgs) (a b : List ℕ)
    → IsFramed m.incoming
    → 0 < length a
    → Outcome e m a b (can_read e m a) (can_read e m (a ++ b))
can_read-Outcome e m a b f nonempty =
    Outcome-as e m a b _ _ _ _ (can_read_in e m m.incoming.state a refl nonempty)
      (can_read_in e m m.incoming.state (a ++ b) refl (omega (arith, length-append a b, nonempty)))
      (state-Outcome e m a b m.incoming.state f refl nonempty)
