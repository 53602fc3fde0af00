-- ===== src/PeerMsgs/Reader/Counted.antt =====
-- The bytes that a round of the reader uses, and those of them that are piece data.
use libtransmission.Prelude.{
  ℕ, ◌+◌, ◌^◌, ◌≤◌, ◌<◌, min, ◌≡◌, refl, ◌∙◌, arith, Bool, not, List, ◌∷◌, Option, none, some, ltb,
  ◌==◌, if_lem, Bool-cases, inl, inr, length, drop, length-drop, get_or, u32, u64, sub32, sub64,
}
use libtransmission.PeerMsgs.{Env, Peer, ReadState, read_now, read_later, read_err, read_abort}
use libtransmission.PeerMsgs.Messages.{message_length_is_correct}
use libtransmission.PeerMsgs.Reader.{
  State, awaiting_length, awaiting_id, awaiting_message, awaiting_piece, Incoming, Msgs, Round,
  start_message, read_bt_length, ends_message, read_bt_message, read_bt_id, block_header,
  read_block_header, after_save, finish_block, got_piece_data, take_block, after_block,
  read_block_data, read_bt_piece, read_in_state, can_read,
}
use libtransmission.PeerMsgs.Reader.Charges.{piece_in_state, piece_bytes}

-- A round leaves no more bytes than n less the piece data, and counts the piece data.
abbrev pub Counted : ℕ → ℕ → ℕ → Round → Type 0
Counted n piece total (m, rest, ret) =
    (length rest + piece ≤ n) × (m.incoming.downloaded_cur ≡ u64 (total + piece))

module _ (e : Env) (m : Msgs) (fits : m.incoming.downloaded_cur < 2 ^ 64) where
  abbrev Plain : Incoming → Type 0
  Plain i = i.downloaded_cur ≡ u64 (m.incoming.downloaded_cur + 0)

  plain : Plain m.incoming
  plain = omega (arith, fits)

  waits : (buf : List ℕ) → Counted (length buf) 0 m.incoming.downloaded_cur (m, buf, read_later)
  waits buf = (omega arith, plain)

  dropped : (n : ℕ) (buf : List ℕ) → length (drop n buf) + 0 ≤ length buf
  dropped n buf = omega (arith, length-drop n buf)

  length-Counted :
      (buf : List ℕ) → Counted (length buf) 0 m.incoming.downloaded_cur (read_bt_length m buf)
  unfolding read_bt_length start_message
  length-Counted buf =
      if_lem (λ r. Counted (length buf) 0 m.incoming.downloaded_cur r) (ltb (length buf) 4) _ _
        (waits buf) (dropped 4 buf, if_lem (λ i. Plain i) _ _ _ plain plain)

  header-Counted :
      (buf : List ℕ) → Counted (length buf) 0 m.incoming.downloaded_cur (read_block_header m buf)
  unfolding read_block_header block_header
  header-Counted buf =
      if_lem (λ r. Counted (length buf) 0 m.incoming.downloaded_cur r) (ltb (length buf) 8) _ _
        (waits buf) (dropped 8 buf, plain)

ended_lem :
    (ret : ReadState) (i : Incoming) → (ends_message ret i).downloaded_cur ≡ i.downloaded_cur
unfolding ends_message
ended_lem read_now i = refl
ended_lem read_later i = refl
ended_lem read_err i = refl
ended_lem read_abort i = refl

message-Counted :
    (e : Env) (m : Msgs) (n : ℕ) (buf : List ℕ)
    → m.incoming.downloaded_cur < 2 ^ 64
    → length buf ≤ n
    → Counted n 0 m.incoming.downloaded_cur (read_bt_message e m buf)
unfolding read_bt_message
message-Counted e m n buf fits l =
    let len = sub32 m.incoming.msg_length 1 in
    let same : Plain e m fits m.incoming = plain e m fits in
    if_lem (λ r. Counted n 0 m.incoming.downloaded_cur r) (ltb (length buf) len) _ _
      (omega (arith, l), same)
      (if_lem (λ r. Counted n 0 m.incoming.downloaded_cur r)
        (not (message_length_is_correct e m.peer m.incoming.id (u32 (len + 1)))) _ _
        (omega (arith, l), same)
        (omega (arith, l, length-drop len buf), ended_lem _ m.incoming ∙ same))

id-Counted :
    (e : Env) (m : Msgs) (buf : List ℕ)
    → m.incoming.downloaded_cur < 2 ^ 64
    → Counted (length buf) 0 m.incoming.downloaded_cur (read_bt_id e m buf)
unfolding read_bt_id
id-Counted e m buf fits =
    let P = λ (r : Round). Counted (length buf) 0 m.incoming.downloaded_cur r in
    let shorter = dropped e m fits 1 buf in
    if_lem P (ltb (length buf) 1) _ _ (waits e m fits buf) (
      if_lem P (get_or buf 0 0 == 7) _ _ (shorter, plain e m fits)
        (if_lem P (not (m.incoming.msg_length == 1)) _ _ (shorter, plain e m fits)
          (message-Counted e _ (length buf) (drop 1 buf) fits (omega (arith, shorter)))))

after_save-Counted :
    (n piece total : ℕ) (m : Msgs) (rest : List ℕ) (o : Option (Peer × Bool))
    → length rest + piece ≤ n
    → m.incoming.downloaded_cur ≡ u64 (total + piece)
    → Counted n piece total (after_save m rest o)
unfolding after_save
after_save-Counted n piece total m rest none l d = (l, d)
after_save-Counted n piece total m rest (some (p, failed)) l d = (l, d)

data-Counted :
    (e : Env) (m : Msgs) (buf : List ℕ)
    → Counted
        (length buf)
        (min (sub64 m.incoming.block_req.req_length (length m.incoming.block)) (length buf))
        m.incoming.downloaded_cur
        (read_block_data e m buf)
unfolding read_block_data after_block take_block got_piece_data finish_block
data-Counted e m buf =
    let n = min (sub64 m.incoming.block_req.req_length (length m.incoming.block)) (length buf) in
    let m' : Msgs = record m { incoming = take_block m.incoming n buf } in
    let l : length (drop n buf) + n ≤ length buf = omega (arith, length-drop n buf) in
    if_lem (λ r. Counted (length buf) n m.incoming.downloaded_cur r)
      (ltb (length m'.incoming.block) m'.incoming.block_req.req_length) _ _ (l, refl)
      (after_save-Counted (length buf) n m.incoming.downloaded_cur m' (drop n buf) _ l refl)

piece-Counted :
    (e : Env) (m : Msgs) (buf : List ℕ)
    → m.incoming.downloaded_cur < 2 ^ 64
    → Counted
        (length buf)
        (piece_in_state awaiting_piece m buf)
        m.incoming.downloaded_cur
        (read_bt_piece e m buf)
unfolding piece_in_state read_bt_piece
piece-Counted e m buf fits = elim (Bool-cases (m.incoming.block_req.req_length == 0)) [
  | inl h ↦ rw h (header-Counted e m fits buf)
  | inr h ↦ rw h (data-Counted e m buf)
]

state-Counted :
    (e : Env) (m : Msgs) (s : State) (buf : List ℕ)
    → m.incoming.downloaded_cur < 2 ^ 64
    → Counted
        (length buf)
        (piece_in_state s m buf)
        m.incoming.downloaded_cur
        (read_in_state s e m buf)
unfolding piece_in_state read_in_state
state-Counted e m awaiting_piece buf fits = piece-Counted e m buf fits
state-Counted e m awaiting_length buf fits = length-Counted e m fits buf
state-Counted e m awaiting_id buf fits = id-Counted e m buf fits
state-Counted e m awaiting_message buf fits =
    message-Counted e m (length buf) buf fits (omega arith)

pub can_read-Counted :
    (e : Env) (m : Msgs) (c : ℕ) (buf : List ℕ)
    → m.incoming.downloaded_cur < 2 ^ 64
    → Counted
        (length (c ∷ buf))
        (piece_bytes m (c ∷ buf))
        m.incoming.downloaded_cur
        (can_read e m (c ∷ buf))
unfolding can_read piece_bytes
can_read-Counted e m c buf fits = state-Counted e m m.incoming.state (c ∷ buf) fits
