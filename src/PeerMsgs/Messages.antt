-- ===== src/PeerMsgs/Messages.antt =====
-- src/peer-msgs.c: the handlers of the messages of a peer, and of its blocks.
use libtransmission.Prelude.{
  Option, ℕ, ◌+◌, ◌/◌, Bool, true, false, not, ◌&&◌, ◌||◌, List, none, some, if◌then◌else◌, ltb,
  leb, ◌==◌, length, u32,
}
use libtransmission.Bitfield.{has}
use libtransmission.Bitfield.Update.{add, set_raw, set_has_all, set_has_none}
use libtransmission.Torrent.{tr_block, block_count_bytes}
use libtransmission.PeerMsgs.{
  Request, Peer, Env, call, read_uint32, read_uint16, read_request, ReadState, got_choke, got_have,
  got_bitfield, got_have_all, got_have_none, got_suggest, got_allowed_fast, got_rej, got_block,
  got_ltep, error_message_size, error_range, add_dht_node, count_cancel, update_active,
  update_progress, update_desired_count, write_block, read_now, read_err, read_abort,
}
use libtransmission.PeerMsgs.Requests.{request_is_valid, peer_made_request, remove_request}

-- `messageLengthIsCorrect`
unfoldable pub message_length_is_correct : Env → Peer → ℕ → ℕ → Bool
message_length_is_correct e p id len =
    if leb id 3 || (id == 14 || id == 15)
    then len == 1
    else if id == 4 || (id == 13 || id == 17)
    then len == 5
    else if id == 5
    then (if e.has_metadata
        then len == u32 (u32 (e.tor.piece_count + 7) / 8 + 1)
        else if ltb 0 p.metadata_size_hint
        then leb len p.metadata_size_hint
        else true)
    else if id == 6 || (id == 8 || id == 16)
    then len == 13
    else if id == 7
    then ltb 9 len && leb len 16393
    else if id == 9
    then len == 3
    else if id == 20
    then leb 2 len
    else false

unfoldable pub update_peer_progress : Peer → Peer
update_peer_progress p = call update_progress p

-- The cases of `readBtMessage`, on the bytes of the message after its id.
unfoldable pub got_have_message : Env → ℕ → Peer → Peer × ReadState
got_have_message e n p =
    let p' = if has p.have n then p else call (got_have n) (record p { have = add p.have n }) in
    if e.has_metadata && leb e.tor.piece_count n
    then (call error_range p, read_err)
    else (update_peer_progress p', read_now)

unfoldable pub got_bitfield_message : Env → List ℕ → Peer → Peer × ReadState
got_bitfield_message e raw p = elim (set_raw p.have raw (length raw) e.has_metadata) [
  | none ↦ (p, read_abort)
  | some bits ↦ (update_peer_progress (call got_bitfield (record p { have = bits })), read_now)
]

-- A message of the fast extension.
unfoldable pub with_fext : Env → Peer → Peer → Peer × ReadState
with_fext e p p' = if e.fext then (p', read_now) else (call error_message_size p, read_err)

unfoldable pub got_choke_message : Env → Peer → Peer
got_choke_message e p =
    let p' = record p { client_is_choked = true } in
    call update_active (if e.fext then p' else call got_choke p')

unfoldable pub got_port_message : ℕ → Peer → Peer
got_port_message port p =
    let p' = record p { dht_port = port } in if ltb 0 port then call (add_dht_node port) p' else p'

unfoldable pub handle_message : Env → ℕ → List ℕ → Peer → Peer × ReadState
handle_message e id payload p =
    let n = read_uint32 payload in
    let r = read_request payload in
    if id == 0
    then (got_choke_message e p, read_now)
    else if id == 1
    then (
      call update_desired_count (call update_active (record p { client_is_choked = false })),
      read_now,
    )
    else if id == 2
    then (call update_active (record p { peer_is_interested = true }), read_now)
    else if id == 3
    then (call update_active (record p { peer_is_interested = false }), read_now)
    else if id == 4
    then got_have_message e n p
    else if id == 5
    then got_bitfield_message e payload p
    else if id == 6
    then (peer_made_request e r p, read_now)
    else if id == 8
    then (
      record (call count_cancel p) { peer_asked_for = remove_request r p.peer_asked_for },
      read_now,
    )
    else if id == 7
    then (p, read_abort)
    else if id == 9
    then (got_port_message (read_uint16 payload) p, read_now)
    else if id == 13
    then with_fext e p (call (got_suggest n) p)
    else if id == 17
    then with_fext e p (call (got_allowed_fast n) p)
    else if id == 14
    then with_fext e p
        (update_peer_progress (call got_have_all (record p { have = set_has_all p.have })))
    else if id == 15
    then with_fext e p
        (update_peer_progress (call got_have_none (record p { have = set_has_none p.have })))
    else if id == 16
    then with_fext e p (call (got_rej r) p)
    else if id == 20
    then (call (got_ltep payload) p, read_now)
    else (p, read_now)

-- `clientGotBlock` from the tests on, for block n: the peer, and whether there was an error.
unfoldable pub save_block : Env → List ℕ → ℕ → Request → Peer → Peer × Bool
save_block e block n r p =
    let written = call (write_block r block) p in
    if not (request_is_valid e r)
    then (p, true)
    else if not (r.req_length == block_count_bytes e.tor n)
    then (p, true)
    else if not (e.did_peer_request p.calls n)
    then (p, false)
    else if e.piece_is_complete p.calls r.req_index
    then (p, false)
    else if e.write_fails p.calls r block
    then (written, true)
    else (call (got_block r) (record written { blame = add p.blame r.req_index }), false)

-- `clientGotBlock`, which first divides by the block size: 0 for a torrent without metadata.
unfoldable pub client_got_block : Env → List ℕ → Request → Peer → Option (Peer × Bool)
client_got_block e block r p = elim (tr_block e.tor r.req_index r.req_offset) [
  | none ↦ none
  | some n ↦ some (save_block e block n r p)
]
