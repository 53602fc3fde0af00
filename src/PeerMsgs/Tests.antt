-- ===== src/PeerMsgs/Tests.antt =====
-- A peer's messages at concrete inputs.
use libtransmission.Prelude.{
  ℕ, ◌<◌, ◌≡◌, refl, arith, true, false, List, [], ◌∷◌, ◌++◌, some, length,
}
use libtransmission.Torrent.{Torrent, req_is_valid, piece_count_bytes, piece_offset}
use libtransmission.Bitfield.Update.{construct}
use libtransmission.PeerMsgs.{
  Request, Peer, Env, call, send_choke, update_active, send_reject, prefetch_block, read_now,
  read_later, read_abort, new_peer, read_uint32, read_request, reqq,
}
use libtransmission.PeerMsgs.Requests.{
  request_is_valid, peer_made_request, is_allowed, prefetch_pieces, prefetch_loop, pop_next_request,
  set_choke, cancel_all_requests, cancel_loop,
}
use libtransmission.PeerMsgs.Messages.{handle_message, message_length_is_correct}
use libtransmission.PeerMsgs.Reader.{
  awaiting_length, awaiting_piece, Msgs, Round, start_message, read_bt_length, ends_message,
  read_bt_message, read_bt_id, read_in_state, can_read, after_round, read_loop, can_read_wrapper,
  new_msgs,
}
use libtransmission.PeerMsgs.Reader.Rounds.{IsFramed}
use libtransmission.PeerMsgs.Reader.Chunks.{and_then, can_read_wrapper-append}
use libtransmission.PeerMsgs.Reader.Crash.{complete_block_crashes}
use libtransmission.PeerMsgs.Reader.Short.{short_piece_swallows}
use libtransmission.PeerMsgs.Queue.Reach.{
  Reach, message, choking, here, next, Reach_bounded, Reach-pop_next_request,
}

-- Two pieces of two blocks, the last of them shorter.
abbrev torrent : Torrent
torrent = record {
  total_size = 60000;
  piece_size = 32768;
  piece_count = 2;
  block_size = 16384;
  block_count = 4;
  last_piece_size = 27232;
  last_block_size = 10848;
  block_count_in_piece = 2;
  block_count_in_last_piece = 2;
}

abbrev seeding : Env
seeding = record {
  tor = torrent;
  has_metadata = true;
  fext = true;
  is_prefetch_enabled = true;
  piece_is_complete = λ _ _. true;
  did_peer_request = λ _ _. true;
  write_fails = λ _ _ _. false;
}

abbrev start : Msgs
start = new_msgs seeding

start-IsFramed : IsFramed start.incoming
unfolding new_msgs
start-IsFramed = record {
  length_fits = omega arith;
  request_fits = omega arith;
  counts = tt;
  no_block = λ _. refl;
  block_part = λ h. absurd (omega (arith, h));
}

abbrev interested : List ℕ
interested = 0 ∷ 0 ∷ 0 ∷ 1 ∷ 2 ∷ []

-- A keepalive and then "interested".
interested_read :
    can_read_wrapper seeding start (0 ∷ 0 ∷ 0 ∷ 0 ∷ interested)
    ≡ some (
      record {
        incoming = record start.incoming { msg_length = 1; id = 2 };
        peer = call update_active (record (new_peer seeding) { peer_is_interested = true });
      },
      [],
      read_now,
    )
unfolding can_read_wrapper read_loop can_read read_in_state read_bt_length start_message read_bt_id
    read_bt_message ends_message handle_message message_length_is_correct read_uint32 new_msgs
    after_round
interested_read = refl

can_read_wrapper-append_example :
    (r : Round) × (can_read_wrapper seeding start (interested ++ 0 ∷ 0 ∷ []) ≡ some r)
    × (can_read_wrapper seeding start ((interested ++ 0 ∷ 0 ∷ []) ++ 0 ∷ 1 ∷ 3 ∷ [])
        ≡ and_then seeding (0 ∷ 1 ∷ 3 ∷ []) r)
can_read_wrapper-append_example =
    can_read_wrapper-append seeding start (interested ++ 0 ∷ 0 ∷ []) (0 ∷ 1 ∷ 3 ∷ []) start-IsFramed
      (omega arith)

abbrev zeros : List ℕ
zeros = 0 ∷ 0 ∷ 0 ∷ 0 ∷ 0 ∷ 0 ∷ 0 ∷ 0 ∷ []

-- A piece message of length 1 and then "interested".
start_waits : start.incoming.state ≡ awaiting_length
unfolding new_msgs
start_waits = refl

start_empty : start.incoming.block_req.req_length ≡ 0
unfolding new_msgs
start_empty = refl

one_is : read_uint32 (0 ∷ 0 ∷ 0 ∷ 1 ∷ []) ≡ 1
unfolding read_uint32
one_is = refl

short_piece_swallows_example :
    (m' : Msgs) × (can_read_wrapper seeding start (0 ∷ 0 ∷ 0 ∷ 1 ∷ 7 ∷ zeros ++ interested)
      ≡ some (m', [], read_later))
    × (m'.peer ≡ start.peer)
    × (m'.incoming.state ≡ awaiting_piece)
    × (m'.incoming.block ≡ interested)
short_piece_swallows_example =
    short_piece_swallows seeding start 0 0 0 1 zeros 0 (0 ∷ 0 ∷ 1 ∷ 2 ∷ []) start-IsFramed
      start_waits start_empty (omega (arith, one_is)) (omega (arith, one_is)) refl
      (omega (arith, one_is))

-- The request for a block of 16384 bytes at offset 16384 of piece 0.
abbrev a_request : List ℕ
a_request = 0 ∷ 0 ∷ 0 ∷ 0 ∷ 0 ∷ 0 ∷ 64 ∷ 0 ∷ 0 ∷ 0 ∷ 64 ∷ 0 ∷ []

abbrev wanted : Request
wanted = record { req_index = 0; req_offset = 16384; req_length = 16384 }

-- The peer is unchoked, asks for a block, and asks again.
abbrev unchoked : Peer
unchoked = set_choke seeding 100 false (new_peer seeding)

abbrev asked : Peer
asked = (handle_message seeding 6 a_request unchoked).0

abbrev asked_twice : Peer
asked_twice = (handle_message seeding 6 a_request asked).0

asked_reached : Reach seeding (new_peer seeding) asked
asked_reached = next (next here (choking 100 false)) (message 6 a_request)

abbrev asked_state : Peer
asked_state = record (new_peer seeding) {
  peer_is_choked = false;
  choke_changed_at = 100;
  peer_asked_for = wanted ∷ [];
  prefetch_count = 1;
  calls = prefetch_block wanted ∷ update_active ∷ send_choke false ∷ [];
}

asked_lem : asked ≡ asked_state
unfolding set_choke cancel_all_requests cancel_loop call handle_message read_request read_uint32
    peer_made_request is_allowed request_is_valid req_is_valid piece_count_bytes piece_offset
    prefetch_pieces prefetch_loop new_peer construct
asked_lem = refl

-- Choking the peer rejects what it asked for, but not within ten seconds.
choked_again :
    (set_choke seeding 109 true asked_state ≡ asked_state)
    × (set_choke seeding 110 true asked_state ≡ record asked_state {
      peer_is_choked = true;
      choke_changed_at = 110;
      peer_asked_for = [];
      calls = update_active ∷ send_choke true ∷ send_reject wanted ∷ asked_state.calls;
    })
unfolding set_choke cancel_all_requests cancel_loop call
choked_again = (refl, refl)

Reach_bounded_example : length asked_twice.peer_asked_for < reqq
Reach_bounded_example = Reach_bounded seeding asked_twice (next asked_reached (message 6 a_request))

asked_pops : pop_next_request asked ≡ some (wanted, record asked { peer_asked_for = [] })
unfolding pop_next_request
asked_pops = rw asked_lem refl

Reach-pop_next_request_example :
    (request_is_valid seeding wanted ≡ true) × (asked.peer_is_choked ≡ false)
Reach-pop_next_request_example =
    Reach-pop_next_request seeding asked (record asked { peer_asked_for = [] }) wanted asked_reached
      asked_pops

-- A magnet torrent, of which nothing is known, and a block of one byte whose header was read.
abbrev magnet : Env
magnet = record seeding {
  tor = record torrent { piece_size = 0; piece_count = 0; block_size = 0; block_count = 0 };
  has_metadata = false;
}

abbrev block_begun : Msgs
block_begun = record {
  incoming = record {
    state = awaiting_piece;
    msg_length = 10;
    id = 7;
    block_req = record { req_index = 0; req_offset = 0; req_length = 1 };
    block = [];
    downloaded_cur = 0;
  };
  peer = new_peer magnet;
}

block_begun-IsFramed : IsFramed block_begun.incoming
block_begun-IsFramed = record {
  length_fits = omega arith;
  request_fits = omega arith;
  counts = tt;
  no_block = λ h. refl;
  block_part = λ h. omega arith;
}

complete_block_crashes_example :
    (m' : Msgs) × (rest : List ℕ) × (can_read_wrapper magnet block_begun (5 ∷ [])
      ≡ some (m', rest, read_abort))
    × (m'.peer ≡ new_peer magnet)
complete_block_crashes_example =
    complete_block_crashes magnet block_begun (5 ∷ []) block_begun-IsFramed refl (omega arith)
      (omega arith) refl

-- Three bytes of a block of four, and nothing but them, are charged as piece data.
abbrev four_awaited : Msgs
four_awaited = record {
  incoming = record {
    state = awaiting_piece;
    msg_length = 13;
    id = 7;
    block_req = record { req_index = 0; req_offset = 0; req_length = 4 };
    block = [];
    downloaded_cur = 100;
  };
  peer = new_peer seeding;
}
