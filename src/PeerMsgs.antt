-- ===== src/PeerMsgs.antt =====
-- src/peer-msgs.c: what a connected peer's messages do. Calls of other parts of the program are kept in
-- a log, newest first; what those parts answer may depend on the log, which is all that this peer did.
-- Debugging output, the PEX timer and our own requests are left out.
pub mod Requests
pub mod Messages
pub mod Reader
pub mod Queue
mod Tests
use libtransmission.Prelude.{
  ℕ, zero, suc, ◌+◌, ◌-◌, ◌*◌, ◌/◌, ◌^◌, Bool, true, false, not, ◌&&◌, ◌||◌, List, [], ◌∷◌, Option,
  none, some, if◌then◌else◌, ltb, leb, ◌==◌, beq, length, ◌++◌, get_or, drop, u32,
}
use libtransmission.Bitfield.{Bitfield, has}
use libtransmission.Bitfield.Update.{construct, add, set_raw, set_has_all, set_has_none}
use libtransmission.Torrent.{Torrent, block_of, block_count_bytes, req_is_valid}

-- `struct peer_request`
pub record Request : Type 0 where
  pub req_index : ℕ
  pub req_offset : ℕ
  pub req_length : ℕ

-- What is called of other parts: the events that are published to the peer manager, and other calls.
pub data Call : Type 0 where
  got_choke : Call
  got_have : ℕ → Call
  got_bitfield : Call
  got_have_all : Call
  got_have_none : Call
  got_suggest : ℕ → Call
  got_allowed_fast : ℕ → Call
  got_rej : Request → Call
  got_block : Request → Call
  got_ltep : List ℕ → Call
  error_message_size : Call
  error_range : Call
  add_dht_node : ℕ → Call
  count_cancel : Call
  update_active : Call
  update_progress : Call
  update_desired_count : Call
  write_block : Request → List ℕ → Call
  prefetch_block : Request → Call
  send_reject : Request → Call
  send_choke : Bool → Call

-- The fields of `tr_peerMsgs` and its `tr_peer` that messages change. The array of the requests is its
-- used part, of length `pendingReqsToClient`.
pub record Peer : Type 0 where
  pub client_is_choked : Bool
  pub peer_is_choked : Bool
  pub peer_is_interested : Bool
  pub choke_changed_at : ℕ
  pub have : Bitfield
  pub blame : Bitfield
  pub peer_asked_for : List Request
  pub prefetch_count : ℕ
  pub dht_port : ℕ
  pub metadata_size_hint : ℕ
  pub calls : List Call

-- What does not change while a peer is connected, and the answers of the other parts:
-- `tr_torrentPieceIsComplete`, `tr_peerMgrDidPeerRequest` and whether `tr_cacheWriteBlock` fails.
pub record Env : Type 0 where
  pub tor : Torrent
  pub has_metadata : Bool
  pub fext : Bool
  pub is_prefetch_enabled : Bool
  pub piece_is_complete : List Call → ℕ → Bool
  pub did_peer_request : List Call → ℕ → Bool
  pub write_fails : List Call → Request → List ℕ → Bool

abbrev pub reqq : ℕ
reqq = 512

abbrev pub prefetch_size : ℕ
prefetch_size = 18

abbrev pub min_choke_period_sec : ℕ
min_choke_period_sec = 10

pub call : Call → Peer → Peer
call c p = record p { calls = c ∷ p.calls }

-- `tr_peerIoReadUint32` and `tr_peerIoReadUint16`: numbers in network order.
pub read_uint32 : List ℕ → ℕ
read_uint32 s =
    u32 (((get_or s 0 0 * 256 + get_or s 1 0) * 256 + get_or s 2 0) * 256 + get_or s 3 0)

pub read_uint16 : List ℕ → ℕ
read_uint16 s = (get_or s 0 0 * 256 + get_or s 1 0)

pub read_request : List ℕ → Request
read_request s = record {
  req_index = read_uint32 s;
  req_offset = read_uint32 (drop 4 s);
  req_length = read_uint32 (drop 8 s);
}

abbrev pub no_request : Request
no_request = record { req_index = 0; req_offset = 0; req_length = 0 }

pub data ReadState : Type 0 where
  read_now : ReadState
  read_later : ReadState
  read_err : ReadState
  -- A failed assertion.
  read_abort : ReadState

-- `tr_peerMsgsNew` and `tr_peerConstruct`
pub new_peer : Env → Peer
new_peer e = record {
  client_is_choked = true;
  peer_is_choked = true;
  peer_is_interested = false;
  choke_changed_at = 0;
  have = construct e.tor.piece_count;
  blame = construct e.tor.block_count;
  peer_asked_for = [];
  prefetch_count = 0;
  dht_port = 0;
  metadata_size_hint = 0;
  calls = [];
}
