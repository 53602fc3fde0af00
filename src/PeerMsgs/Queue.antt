-- ===== src/PeerMsgs/Queue.antt =====
-- The queue of the blocks that a peer has asked for.
pub mod Reach
use libtransmission.Prelude.{
  ℕ, zero, suc, ◌+◌, ◌-◌, ◌^◌, ◌≤◌, ◌<◌, ◌≡◌, ◌⊎◌, refl, ap, sym, ◌∙◌, arith, Bool, true, false,
  not, ◌&&◌, ◌||◌, List, [], ◌∷◌, ◌++◌, Option, none, some, if◌then◌else◌, ltb, leb, ◌==◌, beq,
  Bool-cases, Option-cases, if_lem, inl, inr, length, drop, length-append,
}
use libtransmission.Bitfield.Update.{set_raw}
use libtransmission.PeerMsgs.{
  Request, Call, Peer, Env, ReadState, read_now, read_later, read_err, read_abort, call, reqq,
  prefetch_size, read_uint32, read_uint16, read_request, prefetch_block, send_reject,
  min_choke_period_sec,
}
use libtransmission.PeerMsgs.Requests.{
  request_is_valid, same_request, prefetch_loop, prefetch_pieces, is_allowed, peer_made_request,
  pop_next_request, cancel_loop, cancel_all_requests, set_choke, remove_request,
}
use libtransmission.PeerMsgs.Messages.{
  got_have_message, got_bitfield_message, with_fext, got_choke_message, got_port_message,
  handle_message, client_got_block, update_peer_progress,
}

pub all_valid : Env → List Request → Bool
all_valid e [] = true
all_valid e (r ∷ rs) = request_is_valid e r && all_valid e rs

-- The queue fits its array, each request in it is valid, and it is empty while the peer is choked.
pub record IsServed (e : Env) (p : Peer) : Type 0 where
  pub few : length p.peer_asked_for < reqq
  pub valid : all_valid e p.peer_asked_for ≡ true
  pub choked : p.peer_is_choked ≡ true → length p.peer_asked_for ≡ 0

-- What the queue depends on is the same.
abbrev pub KeepsQueue : Peer → Peer → Type 0
KeepsQueue p p' = (p'.peer_asked_for ≡ p.peer_asked_for) × (p'.peer_is_choked ≡ p.peer_is_choked)

pub KeepsQueue-IsServed : (e : Env) (p p' : Peer) → KeepsQueue p p' → IsServed e p → IsServed e p'
KeepsQueue-IsServed e p p' (asked, choked) s = record {
  few = rw asked s.few;
  valid = rw asked s.valid;
  choked = λ h. rw asked (s.choked (sym choked ∙ h));
}

prefetch_loop-KeepsQueue :
    (e : Env) (rs : List Request) (i : ℕ) (p : Peer) → KeepsQueue p (prefetch_loop e rs i p)
unfolding prefetch_loop call
prefetch_loop-KeepsQueue e [] i p = (refl, refl)
prefetch_loop-KeepsQueue e (r ∷ rs) i p = elim (Bool-cases (ltb i prefetch_size)) [
  | inr h ↦ rw h (refl, refl)
  | inl h ↦ elim (Bool-cases (request_is_valid e r)) [
    | inl v ↦ rw (h, v) (prefetch_loop-KeepsQueue e rs (i + 1) _)
    | inr v ↦ rw (h, v) (prefetch_loop-KeepsQueue e rs (i + 1) p)
  ]
]

prefetch_pieces-KeepsQueue : (e : Env) (p : Peer) → KeepsQueue p (prefetch_pieces e p)
unfolding prefetch_pieces
prefetch_pieces-KeepsQueue e p =
    if_lem (λ x. KeepsQueue p x) e.is_prefetch_enabled _ _
      (prefetch_loop-KeepsQueue e (drop p.prefetch_count p.peer_asked_for) p.prefetch_count p)
      (refl, refl)

all_valid-append :
    (e : Env) (xs ys : List Request) → all_valid e (xs ++ ys) ≡ (all_valid e xs && all_valid e ys)
unfolding all_valid
all_valid-append e [] ys = refl
all_valid-append e (x ∷ xs) ys = ground (arith, all_valid-append e xs ys)

allowed_lem :
    (e : Env) (r : Request) (p : Peer)
    → IsServed e p
    → is_allowed e p r ≡ true
    → IsServed e (record p { peer_asked_for = p.peer_asked_for ++ r ∷ [] })
unfolding is_allowed all_valid
allowed_lem e r p s h = record {
  few = ground (arith, h, length-append p.peer_asked_for (r ∷ []));
  valid = ground (arith, h, all_valid-append e p.peer_asked_for (r ∷ []), s.valid);
  choked = λ c. ground (arith, h, c);
}

call_keeps : (c : Call) (p : Peer) → KeepsQueue p (call c p)
unfolding call
call_keeps c p = (refl, refl)

peer_made_request-IsServed :
    (e : Env) (r : Request) (p : Peer) → IsServed e p → IsServed e (peer_made_request e r p)
unfolding peer_made_request
peer_made_request-IsServed e r p s = elim (Bool-cases (is_allowed e p r)) [
  | inl h ↦
      rw h (KeepsQueue-IsServed e _ _ (prefetch_pieces-KeepsQueue e _) (allowed_lem e r p s h))
  | inr h ↦ rw h (
      if_lem (λ x. IsServed e x) e.fext _ _
        (KeepsQueue-IsServed e p _ (call_keeps (send_reject r) p) s) s)
]

remove_request_lem :
    (e : Env) (r : Request) (qs : List Request)
    → (length (remove_request r qs) ≤ length qs)
      × (all_valid e qs ≡ true → all_valid e (remove_request r qs) ≡ true)
unfolding remove_request all_valid
remove_request_lem e r [] = (omega arith, λ h. h)
remove_request_lem e r (q ∷ qs) = ground (arith, remove_request_lem e r qs)

removed_lem :
    (e : Env) (r : Request) (p p' : Peer)
    → IsServed e p
    → p'.peer_asked_for ≡ remove_request r p.peer_asked_for
    → p'.peer_is_choked ≡ p.peer_is_choked
    → IsServed e p'
removed_lem e r p p' s asked choked =
    let (shorter, still_valid) = remove_request_lem e r p.peer_asked_for in
    record {
      few = rw asked (omega (arith, shorter, s.few));
      valid = rw asked (still_valid s.valid);
      choked = λ h. rw asked (omega (arith, shorter, s.choked (sym choked ∙ h)));
    }

-- The handlers that do not touch the queue.
handlers_keep :
    (e : Env) (n : ℕ) (raw : List ℕ) (p : Peer)
    → KeepsQueue p (got_choke_message e p)
      × KeepsQueue p (got_port_message n p)
      × KeepsQueue p (got_have_message e n p).0
      × KeepsQueue p (got_bitfield_message e raw p).0
unfolding got_choke_message got_port_message got_have_message got_bitfield_message call
    update_peer_progress
handlers_keep e n raw p = (
  (ground arith, ground arith),
  (ground arith, ground arith),
  (ground arith, ground arith),
  (
    ground (arith, Option-cases (set_raw p.have raw (length raw) e.has_metadata)),
    ground (arith, Option-cases (set_raw p.have raw (length raw) e.has_metadata)),
  ),
)

with_fext-IsServed :
    (e : Env) (p p' : Peer) → KeepsQueue p p' → IsServed e p → IsServed e (with_fext e p p').0
unfolding with_fext call
with_fext-IsServed e p p' keeps s =
    if_lem (λ (x : Peer × ReadState). IsServed e x.0) e.fext _ _
      (KeepsQueue-IsServed e p p' keeps s) (KeepsQueue-IsServed e p _ (refl, refl) s)

pub handle_message-IsServed :
    (e : Env) (id : ℕ) (payload : List ℕ) (p : Peer)
    → IsServed e p
    → IsServed e (handle_message e id payload p).0
unfolding handle_message call update_peer_progress
handle_message-IsServed e id payload p s =
    let P = λ (x : Peer × ReadState). IsServed e x.0 in
    let keep = λ (p' : Peer) (k : KeepsQueue p p'). KeepsQueue-IsServed e p p' k s in
    let fext = λ (p' : Peer) (k : KeepsQueue p p'). with_fext-IsServed e p p' k s in
    let (on_choke, on_port, on_have, on_bitfield) =
      handlers_keep e (read_uint32 payload) payload p in
    let (_, on_port, _, _) = handlers_keep e (read_uint16 payload) payload p in
    let r = read_request payload in
    if_lem P (id == 0) _ _ (keep _ on_choke) (
      if_lem P (id == 1) _ _ (keep _ (refl, refl)) (
        if_lem P (id == 2) _ _ (keep _ (refl, refl)) (
          if_lem P (id == 3) _ _ (keep _ (refl, refl)) (
            if_lem P (id == 4) _ _ (keep _ on_have) (
              if_lem P (id == 5) _ _ (keep _ on_bitfield) (
                if_lem P (id == 6) _ _ (peer_made_request-IsServed e r p s) (
                  if_lem P (id == 8) _ _ (removed_lem e r p _ s refl refl) (
                    if_lem P (id == 7) _ _ s (
                      if_lem P (id == 9) _ _ (keep _ on_port) (
                        if_lem P (id == 13) _ _ (fext _ (refl, refl)) (
                          if_lem P (id == 17) _ _ (fext _ (refl, refl)) (
                            if_lem P (id == 14) _ _ (fext _ (refl, refl)) (
                              if_lem P (id == 15) _ _ (fext _ (refl, refl)) (
                                if_lem P (id == 16) _ _ (fext _ (refl, refl))
                                  (if_lem P (id == 20) _ _ (keep _ (refl, refl)) s)))))))))))))))
