-- ===== src/PeerMsgs/Reader/Short.antt =====
-- A piece message that is too short for its header.
use libtransmission.Prelude.{
  ℕ, zero, suc, ◌+◌, ◌-◌, ◌^◌, ◌<◌, ◌≡◌, refl, ap, ◌∙◌, arith, List, [], ◌∷◌, ◌++◌, some, length,
  drop, length-append, false, ◌==◌,
}
use mathlib.Core.Path.{subst}
use libtransmission.PeerMsgs.{Env, read_now, read_later, read_uint32}
use libtransmission.PeerMsgs.Reader.{
  State, awaiting_length, awaiting_id, awaiting_piece, Incoming, Msgs, can_read_wrapper,
  after_round, block_header, start_message, read_in_state,
}
use libtransmission.PeerMsgs.Reader.Rounds.{
  IsFramed, block_header-IsFramed, header_reads, length_reads, start_message-IsFramed,
}
use libtransmission.PeerMsgs.Reader.Messages.{id_piece}
use libtransmission.PeerMsgs.Reader.Blocks.{
  can_read_in, piece_header_lem, piece_data_lem, data_waits, taken,
}
use libtransmission.PeerMsgs.Reader.Chunks.{wrapper_round}

-- A round that goes on with some bytes.
round_on :
    (e : Env) (m m' : Msgs) (s : State) (buf rest : List ℕ) (c : ℕ)
    → IsFramed m.incoming
    → m.incoming.state ≡ s
    → 0 < length buf
    → read_in_state s e m buf ≡ (m', c ∷ rest, read_now)
    → can_read_wrapper e m buf ≡ can_read_wrapper e m' (c ∷ rest)
unfolding after_round
round_on e m m' s buf rest c f here nonempty h =
    wrapper_round e m buf f nonempty
    ∙ ap (after_round (can_read_wrapper e)) (can_read_in e m s buf here nonempty ∙ h)

drop_first_bytes : (a b : List ℕ) (n : ℕ) → length a ≡ n → drop n (a ++ b) ≡ b
drop_first_bytes [] b zero h = refl
drop_first_bytes [] b (suc n) h = absurd (omega (arith, h))
drop_first_bytes (x ∷ a) b zero h = absurd (omega (arith, h))
drop_first_bytes (x ∷ a) b (suc n) h = drop_first_bytes a b n (omega (arith, h))

no_bytes : (a : List ℕ) → length a ≡ 0 → a ≡ []
no_bytes [] h = refl
no_bytes (x ∷ a) h = absurd (omega (arith, h))

module _ (e : Env) (m : Msgs) (f : IsFramed m.incoming) (here : m.incoming.state ≡ awaiting_piece)
    (empty : m.incoming.block_req.req_length ≡ 0) (short : m.incoming.msg_length < 9)
    (header : List ℕ) (eight : length header ≡ 8) (c : ℕ) (bytes : List ℕ)
    (fits : length (c ∷ bytes) < 2 ^ 32 + m.incoming.msg_length - 9) where
  all_bytes : List ℕ
  all_bytes = header ++ c ∷ bytes

  -- The message with its header read.
  abbrev headed : Msgs
  headed = record m { incoming = block_header m.incoming all_bytes }

  headed_length : headed.incoming.block_req.req_length ≡ 2 ^ 32 + m.incoming.msg_length - 9
  unfolding block_header
  headed_length = omega (arith, short)

  headed-IsFramed : IsFramed headed.incoming
  headed-IsFramed = block_header-IsFramed e m all_bytes [] f empty

  headed_block : headed.incoming.block ≡ []
  unfolding block_header
  headed_block = no_bytes m.incoming.block (f.no_block empty)

  swallowed : Msgs
  swallowed = record headed { incoming = taken headed.incoming (c ∷ bytes) }

  header_round : can_read_wrapper e m all_bytes ≡ can_read_wrapper e headed (c ∷ bytes)
  unfolding read_in_state all_bytes
  header_round =
      round_on e m headed awaiting_piece all_bytes bytes c f here
        (omega (arith, eight, length-append header (c ∷ bytes)))
        (piece_header_lem e m all_bytes empty
          ∙ header_reads e m all_bytes [] f all_bytes
              (ground (arith, eight, length-append header (c ∷ bytes)))
          ∙ ap (λ (t : List ℕ). (headed, t, read_now))
              (drop_first_bytes header (c ∷ bytes) 8 eight))

  data_round : can_read_wrapper e headed (c ∷ bytes) ≡ some (swallowed, [], read_later)
  unfolding swallowed read_in_state block_header after_round
  data_round =
      let left : 0 < headed.incoming.block_req.req_length = omega (arith, headed_length, fits) in
      let missing : length (c ∷ bytes)
          < headed.incoming.block_req.req_length - length headed.incoming.block =
        omega (arith, headed_length, fits, ap length headed_block) in
      wrapper_round e headed (c ∷ bytes) headed-IsFramed (omega arith)
      ∙ ap (after_round (can_read_wrapper e)) (
          can_read_in e headed awaiting_piece (c ∷ bytes) here (omega arith)
          ∙ piece_data_lem e headed (c ∷ bytes) left
          ∙ data_waits e headed headed-IsFramed left (c ∷ bytes) missing)

  -- All the bytes are taken for the block's.
  swallow_lem :
      (m' : Msgs) × (can_read_wrapper e m all_bytes ≡ some (m', [], read_later))
      × (m'.peer ≡ m.peer)
      × (m'.incoming.state ≡ awaiting_piece)
      × (m'.incoming.block ≡ c ∷ bytes)
  unfolding swallowed block_header
  swallow_lem =
      (swallowed, header_round ∙ data_round, refl, here, ap (λ t. t ++ c ∷ bytes) headed_block)

-- A reader that awaits a length and has no block begun takes a piece message of length below 9:
-- after its header, all that arrives, up to nearly 2^32 bytes, is kept for its block, no message
-- of it is handled, and reading waits for more.
pub short_piece_swallows :
    (e : Env) (m : Msgs) (a b c d : ℕ) (header : List ℕ) (x : ℕ) (bytes : List ℕ)
    → IsFramed m.incoming
    → m.incoming.state ≡ awaiting_length
    → m.incoming.block_req.req_length ≡ 0
    → 0 < read_uint32 (a ∷ b ∷ c ∷ d ∷ [])
    → read_uint32 (a ∷ b ∷ c ∷ d ∷ []) < 9
    → length header ≡ 8
    → length (x ∷ bytes) < 2 ^ 32 + read_uint32 (a ∷ b ∷ c ∷ d ∷ []) - 9
    → (m' : Msgs) × (can_read_wrapper e m (a ∷ b ∷ c ∷ d ∷ 7 ∷ header ++ x ∷ bytes)
        ≡ some (m', [], read_later))
      × (m'.peer ≡ m.peer)
      × (m'.incoming.state ≡ awaiting_piece)
      × (m'.incoming.block ≡ x ∷ bytes)
unfolding read_in_state start_message read_uint32 all_bytes
short_piece_swallows e m a b c d [] x bytes f here empty nonzero short eight fits =
    absurd (omega (arith, eight))
short_piece_swallows e m a b c d (y ∷ header) x bytes f here empty nonzero short eight fits =
    let rest = (y ∷ header) ++ x ∷ bytes in
    let buf = a ∷ b ∷ c ∷ d ∷ 7 ∷ rest in
    let counted : Msgs = record m {
      incoming = record m.incoming {
        msg_length = read_uint32 (a ∷ b ∷ c ∷ d ∷ []);
        state = awaiting_id;
      };
    } in
    let named : Msgs = record counted {
      incoming = record counted.incoming { id = 7; state = awaiting_piece };
    } in
    let started : start_message m.incoming (read_uint32 buf) ≡ counted.incoming =
      let h : (read_uint32 (a ∷ b ∷ c ∷ d ∷ []) == 0) ≡ false = ground (arith, nonzero) in
      rw h refl in
    let counted_f : IsFramed counted.incoming =
      subst (λ i. IsFramed i) started (start_message-IsFramed e m buf [] f buf) in
    let named_f : IsFramed named.incoming = record {
      length_fits = counted_f.length_fits;
      request_fits = f.request_fits;
      counts = tt;
      no_block = f.no_block;
      block_part = f.block_part;
    } in
    let (m', reads, peer, state, block) =
      swallow_lem e named named_f refl empty short (y ∷ header) eight x bytes fits in
    (
      m',
      round_on e m counted awaiting_length buf (rest) 7 f here (omega arith) (
            length_reads e m buf [] f buf (ground arith)
            ∙ ap (λ (i : Incoming). (record m { incoming = i }, 7 ∷ rest, read_now)) started)
          ∙ round_on e counted named awaiting_id (7 ∷ rest) (header ++ x ∷ bytes) y counted_f refl
              (omega arith) (id_piece e counted counted_f (7 ∷ rest) (omega arith) refl)
          ∙ reads,
      peer,
      state,
      block,
    )
