-- ===== src/PeerMsgs/Reader.antt =====
-- src/peer-msgs.c and src/peer-io.c: cutting the bytes that arrive into messages. The bytes are
-- decrypted; what is left of them waits in the buffer for more.
pub mod Rounds
pub mod Messages
pub mod Blocks
pub mod Outcomes
pub mod Chunks
pub mod Short
pub mod Crash
pub mod Charges
pub mod Counted
pub mod Settled
use libtransmission.Prelude.{
  ℕ, zero, suc, ◌+◌, ◌-◌, min, Bool, true, false, not, ◌&&◌, ◌||◌, List, [], ◌∷◌, ◌++◌, Option,
  none, some, if◌then◌else◌, ltb, leb, ◌==◌, length, get_or, take, drop, u32, u64, sub32, sub64,
}
use libtransmission.PeerMsgs.{
  Request, Peer, Env, ReadState, read_now, read_later, read_err, read_abort, Call, call,
  error_message_size, new_peer, no_request, read_uint32,
}
use libtransmission.PeerMsgs.Messages.{message_length_is_correct, handle_message, client_got_block}

pub data State : Type 0 where
  awaiting_length : State
  awaiting_id : State
  awaiting_message : State
  awaiting_piece : State

-- The fields `state` and `incoming`, and the torrent's `downloadedCur`, a `uint64_t`.
pub record Incoming : Type 0 where
  pub state : State
  pub msg_length : ℕ
  pub id : ℕ
  pub block_req : Request
  pub block : List ℕ
  pub downloaded_cur : ℕ

pub record Msgs : Type 0 where
  pub incoming : Incoming
  pub peer : Peer

-- A round: what is left of the bytes, and how to go on.
abbrev pub Round : Type 0
Round = Msgs × List ℕ × ReadState

-- A length of 0 is a keepalive.
unfoldable pub start_message : Incoming → ℕ → Incoming
start_message i len = if len == 0 then i else record i { msg_length = len; state = awaiting_id }

unfoldable pub read_bt_length : Msgs → List ℕ → Round
read_bt_length m buf =
    if ltb (length buf) 4
    then (m, buf, read_later)
    else (record m { incoming = start_message m.incoming (read_uint32 buf) }, drop 4 buf, read_now)

unfoldable pub ends_message : ReadState → Incoming → Incoming
ends_message read_now i = record i { state = awaiting_length }
ends_message _ i = i

unfoldable pub read_bt_message : Env → Msgs → List ℕ → Round
read_bt_message e m buf =
    let i = m.incoming in
    let len = sub32 i.msg_length 1 in
    let (p, ret) = handle_message e i.id (take len buf) m.peer in
    if ltb (length buf) len
    then (m, buf, read_later)
    else if not (message_length_is_correct e m.peer i.id (u32 (len + 1)))
    then (record m { peer = call error_message_size m.peer }, buf, read_err)
    else (record { incoming = ends_message ret i; peer = p }, drop len buf, ret)

unfoldable pub read_bt_id : Env → Msgs → List ℕ → Round
read_bt_id e m buf =
    let id = get_or buf 0 0 in
    let m' = λ (s : State). record m { incoming = record m.incoming { id = id; state = s } } in
    if ltb (length buf) 1
    then (m, buf, read_later)
    else if id == 7
    then (m' awaiting_piece, drop 1 buf, read_now)
    else if not (m.incoming.msg_length == 1)
    then (m' awaiting_message, drop 1 buf, read_now)
    else read_bt_message e (m' m.incoming.state) (drop 1 buf)

-- The header of a block, and the bytes of one.
unfoldable pub block_header : Incoming → List ℕ → Incoming
block_header i buf = record i {
  block_req = record {
    req_index = read_uint32 buf;
    req_offset = read_uint32 (drop 4 buf);
    req_length = sub32 i.msg_length 9;
  };
}

unfoldable pub read_block_header : Msgs → List ℕ → Round
read_block_header m buf =
    if ltb (length buf) 8
    then (m, buf, read_later)
    else (record m { incoming = block_header m.incoming buf }, drop 8 buf, read_now)

-- The block is passed along, and what follows if that did not crash.
unfoldable pub after_save : Msgs → List ℕ → Option (Peer × Bool) → Round
after_save m rest none = (m, rest, read_abort)
after_save m rest (some (p, failed)) =
    let i = m.incoming in
    (
      record {
        incoming = record i {
          block = [];
          block_req = record i.block_req { req_length = 0 };
          state = awaiting_length;
        };
        peer = p;
      },
      rest,
      if failed then read_err else read_now,
    )

unfoldable pub finish_block : Env → Msgs → List ℕ → Round
finish_block e m rest =
    after_save m rest (client_got_block e m.incoming.block m.incoming.block_req m.peer)

-- `fireClientGotPieceData` and what its receiver, `peerCallbackFunc`, does to `downloadedCur`; the session's
-- statistics and the dates are left out.
unfoldable pub got_piece_data : ℕ → ℕ → ℕ
got_piece_data n downloaded = u64 (downloaded + n)

-- Another chunk of the block.
unfoldable pub take_block : Incoming → ℕ → List ℕ → Incoming
take_block i n buf = record i {
  block = i.block ++ take n buf;
  downloaded_cur = got_piece_data n i.downloaded_cur;
}

unfoldable pub after_block : Env → Msgs → List ℕ → Round
after_block e m rest =
    if ltb (length m.incoming.block) m.incoming.block_req.req_length
    then (m, rest, read_later)
    else finish_block e m rest

unfoldable pub read_block_data : Env → Msgs → List ℕ → Round
read_block_data e m buf =
    let i = m.incoming in
    let n = min (sub64 i.block_req.req_length (length i.block)) (length buf) in
    after_block e (record m { incoming = take_block i n buf }) (drop n buf)

unfoldable pub read_bt_piece : Env → Msgs → List ℕ → Round
read_bt_piece e m buf =
    if m.incoming.block_req.req_length == 0
    then read_block_header m buf
    else read_block_data e m buf

unfoldable pub read_in_state : State → Env → Msgs → List ℕ → Round
read_in_state awaiting_piece e m buf = read_bt_piece e m buf
read_in_state awaiting_length e m buf = read_bt_length m buf
read_in_state awaiting_id e m buf = read_bt_id e m buf
read_in_state awaiting_message e m buf = read_bt_message e m buf

-- `canRead`
unfoldable pub can_read : Env → Msgs → List ℕ → Round
can_read e m [] = (m, [], read_later)
can_read e m (c ∷ buf) = read_in_state m.incoming.state e m (c ∷ buf)

-- The switch in the loop of `canReadWrapper`. The bandwidth that the loop charges is left out.
unfoldable pub after_round : (Msgs → List ℕ → Option Round) → Round → Option Round
after_round again (m, [], read_now) = some (m, [], read_now)
after_round again (m, c ∷ cs, read_now) = again m (c ∷ cs)
after_round again (m, rest, read_later) = some (m, rest, read_later)
after_round again (m, rest, read_err) = some (m, rest, read_err)
after_round again (m, rest, read_abort) = some (m, rest, read_abort)

-- The loop, on fuel.
unfoldable pub read_loop : Env → ℕ → Msgs → List ℕ → Option Round
read_loop e zero m buf = none
read_loop e (suc fuel) m buf = after_round (read_loop e fuel) (can_read e m buf)

unfoldable pub can_read_wrapper : Env → Msgs → List ℕ → Option Round
can_read_wrapper e m buf = read_loop e (length buf + 1) m buf

-- The state that `tr_peerMsgsNew` starts with.
unfoldable pub new_msgs : Env → Msgs
new_msgs e = record {
  incoming = record {
    state = awaiting_length;
    msg_length = 0;
    id = 0;
    block_req = no_request;
    block = [];
    downloaded_cur = 0;
  };
  peer = new_peer e;
}
