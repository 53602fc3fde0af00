-- ===== src/PeerMsgs/Requests.antt =====
-- src/peer-msgs.c: the queue of the requests of a peer, and choking it.
use libtransmission.Prelude.{
  ℕ, ◌+◌, Bool, not, ◌&&◌, List, [], ◌∷◌, Option, none, some, if◌then◌else◌, ltb, ◌==◌, beq, length,
  ◌++◌, drop,
}
use libtransmission.Torrent.{req_is_valid}
use libtransmission.PeerMsgs.{
  Request, Peer, Env, reqq, prefetch_size, min_choke_period_sec, call, update_active,
  prefetch_block, send_reject, send_choke,
}

unfoldable pub request_is_valid : Env → Request → Bool
request_is_valid e r = req_is_valid e.tor r.req_index r.req_offset r.req_length

unfoldable pub same_request : Request → Request → Bool
same_request a b =
    (a.req_index == b.req_index) && (a.req_offset == b.req_offset) && (a.req_length == b.req_length)

-- The loop of `prefetchPieces`, over the requests from index i on.
unfoldable pub prefetch_loop : Env → List Request → ℕ → Peer → Peer
prefetch_loop e [] i p = p
prefetch_loop e (r ∷ rs) i p =
    let p' =
      if request_is_valid e r
      then record (call (prefetch_block r) p) { prefetch_count = p.prefetch_count + 1 }
      else p in
    let rest = prefetch_loop e rs (i + 1) p' in if ltb i prefetch_size then rest else p

unfoldable pub prefetch_pieces : Env → Peer → Peer
prefetch_pieces e p =
    if e.is_prefetch_enabled
    then prefetch_loop e (drop p.prefetch_count p.peer_asked_for) p.prefetch_count p
    else p

-- What `peerMadeRequest` allows.
unfoldable pub is_allowed : Env → Peer → Request → Bool
is_allowed e p r =
    request_is_valid e r
    && (e.piece_is_complete p.calls r.req_index
        && (not p.peer_is_choked && ltb (length p.peer_asked_for + 1) reqq))

unfoldable pub peer_made_request : Env → Request → Peer → Peer
peer_made_request e r p =
    if is_allowed e p r
    then prefetch_pieces e (record p { peer_asked_for = p.peer_asked_for ++ r ∷ [] })
    else if e.fext
    then call (send_reject r) p
    else p

-- `popNextRequest`
unfoldable pub pop_next_request : Peer → Option (Request × Peer)
pop_next_request p = elim p.peer_asked_for [
  | [] ↦ none
  | r ∷ rs ↦ some (r, record p { peer_asked_for = rs })
]

-- The loop of `cancelAllRequestsToClient`, over the requests that are there.
unfoldable pub cancel_loop : Env → List Request → Peer → Peer
cancel_loop e [] p = p
cancel_loop e (r ∷ rs) p =
    let popped = record p { peer_asked_for = rs } in
    cancel_loop e rs (if e.fext then call (send_reject r) popped else popped)

unfoldable pub cancel_all_requests : Env → Peer → Peer
cancel_all_requests e p = cancel_loop e p.peer_asked_for p

-- `tr_peerMsgsSetChoke`
unfoldable pub set_choke : Env → ℕ → Bool → Peer → Peer
set_choke e now choke p =
    let p₁ = record p { peer_is_choked = choke } in
    let p₂ = if choke then cancel_all_requests e p₁ else p₁ in
    if ltb now (p.choke_changed_at + min_choke_period_sec)
    then p
    else if beq p.peer_is_choked choke
    then p
    else call update_active (record (call (send_choke choke) p₂) { choke_changed_at = now })

-- `tr_removeElementFromArray` at the first request that is the same.
unfoldable pub remove_request : Request → List Request → List Request
remove_request r [] = []
remove_request r (q ∷ qs) = if same_request q r then qs else q ∷ remove_request r qs
