-- ===== src/PeerMsgs/Queue/Reach.antt =====
-- All that a connection can go through, and what a request that is answered is.
use libtransmission.Prelude.{
  Option-cases, Option, none, ℕ, ◌<◌, ◌≡◌, refl, ap, ◌∙◌, arith, Bool, true, false, List, [], ◌∷◌,
  some, if◌then◌else◌, ltb, beq, Bool-cases, if_lem, inl, inr, length,
}
use libtransmission.PeerMsgs.{Request, Peer, Env, new_peer, call, reqq, send_reject}
use libtransmission.PeerMsgs.Requests.{
  request_is_valid, pop_next_request, cancel_loop, cancel_all_requests, set_choke,
}
use libtransmission.PeerMsgs.Messages.{handle_message, save_block, client_got_block}
use libtransmission.Torrent.{tr_block}
use mathlib.Core.Path.{subst}
use libtransmission.PeerMsgs.Queue.{
  all_valid, IsServed, KeepsQueue, KeepsQueue-IsServed, handle_message-IsServed,
}

-- A message is handled, a block arrives, the peer is choked or unchoked, or a request is taken to be answered.
pub data Step (e : Env) (p : Peer) : Peer → Type 0 where
  message : (id : ℕ) (payload : List ℕ) → Step e p (handle_message e id payload p).0
  block :
      (bytes : List ℕ) (r : Request) (p' : Peer) (failed : Bool)
      → client_got_block e bytes r p ≡ some (p', failed)
      → Step e p p'
  choking : (now : ℕ) (choked : Bool) → Step e p (set_choke e now choked p)
  -- What is done to answer it lowers prefetchCount.
  pop :
      (r : Request) (p' : Peer) (count : ℕ)
      → pop_next_request p ≡ some (r, p')
      → Step e p (record p' { prefetch_count = count })

pub data Reach (e : Env) (p : Peer) : Peer → Type 0 where
  here : Reach e p p
  next : {q q' : Peer} → Reach e p q → Step e q q' → Reach e p q'

save_block-KeepsQueue :
    (e : Env) (bytes : List ℕ) (n : ℕ) (r : Request) (p : Peer)
    → KeepsQueue p (save_block e bytes n r p).0
unfolding save_block call
save_block-KeepsQueue e bytes n r p = (ground arith, ground arith)

abbrev saved_peer : Peer → Option (Peer × Bool) → Peer
saved_peer d none = d
saved_peer d (some (p, failed)) = p

client_got_block-KeepsQueue :
    (e : Env) (bytes : List ℕ) (r : Request) (p p' : Peer) (failed : Bool)
    → client_got_block e bytes r p ≡ some (p', failed)
    → KeepsQueue p p'
unfolding client_got_block
client_got_block-KeepsQueue e bytes r p p' failed h =
    elim (Option-cases (tr_block e.tor r.req_index r.req_offset)) [
      | inl none_e ↦ let h' = rw (none_e, client_got_block) at h in absurd (ground (arith, h'))
      | inr (n, some_e) ↦
          let h' = rw (some_e, client_got_block) at h in
          subst (λ x. KeepsQueue p x) (ap (λ o. saved_peer p o) h')
            (save_block-KeepsQueue e bytes n r p)
    ]

cancel_loop_empties :
    (e : Env) (rs : List Request) (p : Peer)
    → p.peer_asked_for ≡ rs
    → ((cancel_loop e rs p).peer_asked_for ≡ [])
      × ((cancel_loop e rs p).peer_is_choked ≡ p.peer_is_choked)
unfolding cancel_loop call
cancel_loop_empties e [] p h = (h, refl)
cancel_loop_empties e (r ∷ rs) p h =
    let popped : Peer = record p { peer_asked_for = rs } in
    let p' = if e.fext then call (send_reject r) popped else popped in
    let (asked, choked) =
      cancel_loop_empties e rs p'
        (if_lem (λ (x : Peer). x.peer_asked_for ≡ rs) e.fext _ _ refl refl) in
    (
      asked,
      choked ∙ if_lem (λ (x : Peer). x.peer_is_choked ≡ p.peer_is_choked) e.fext _ _ refl refl,
    )

-- The queue after the choke was changed.
choked_lem :
    (e : Env) (choke : Bool) (p : Peer)
    → IsServed e p
    → IsServed e (
        if choke
        then cancel_all_requests e (record p { peer_is_choked = choke })
        else record p { peer_is_choked = choke })
unfolding cancel_all_requests all_valid
choked_lem e false p s = record { few = s.few; valid = s.valid; choked = λ h. ground (arith, h) }
choked_lem e true p s =
    let (asked, choked) =
      cancel_loop_empties e p.peer_asked_for (record p { peer_is_choked = true }) refl in
    record { few = rw asked (omega arith); valid = rw asked refl; choked = λ _. rw asked refl }

set_choke-IsServed :
    (e : Env) (now : ℕ) (choke : Bool) (p : Peer)
    → IsServed e p
    → IsServed e (set_choke e now choke p)
unfolding set_choke call
set_choke-IsServed e now choke p s =
    if_lem (λ x. IsServed e x) (ltb now _) _ _ s
      (if_lem (λ x. IsServed e x) (beq p.peer_is_choked choke) _ _ s
        (KeepsQueue-IsServed e _ _ (refl, refl) (choked_lem e choke p s)))

-- What is taken is the first of the queue.
pop_first :
    (p p' : Peer) (r : Request) (qs : List Request)
    → p.peer_asked_for ≡ qs
    → pop_next_request p ≡ some (r, p')
    → (p.peer_asked_for ≡ r ∷ p'.peer_asked_for) × (p'.peer_is_choked ≡ p.peer_is_choked)
unfolding pop_next_request
pop_first p p' r [] e h = (ground (arith, e, h), ground (arith, e, h))
pop_first p p' r (x ∷ xs) e h = (ground (arith, e, h), ground (arith, e, h))

pop_lem :
    (e : Env) (p p' : Peer) (r : Request)
    → pop_next_request p ≡ some (r, p')
    → IsServed e p
    → IsServed e p' × (request_is_valid e r ≡ true) × (p.peer_is_choked ≡ false)
unfolding all_valid
pop_lem e p p' r h s =
    let (asked, choked) = pop_first p p' r p.peer_asked_for refl h in
    let valid = rw asked at s.valid in
    let few = rw asked at s.few in
    let unchoked : p.peer_is_choked ≡ false = elim (Bool-cases p.peer_is_choked) [
      | inr c ↦ c
      | inl c ↦ absurd (omega (arith, ap length asked, s.choked c))
    ] in
    (
      record {
        few = omega (arith, few);
        valid = ground (arith, valid);
        choked = λ c. ground (arith, c, choked, unchoked);
      },
      ground (arith, valid),
      unchoked,
    )

Step-IsServed : {e : Env} {p q : Peer} → Step e p q → IsServed e p → IsServed e q
Step-IsServed {e} {p} (message id payload) s = handle_message-IsServed e id payload p s
Step-IsServed {e} {p} (block bytes r p' failed h) s =
    KeepsQueue-IsServed e p p' (client_got_block-KeepsQueue e bytes r p p' failed h) s
Step-IsServed {e} {p} (choking now choked) s = set_choke-IsServed e now choked p s
Step-IsServed {e} {p} (pop r q count h) s =
    KeepsQueue-IsServed e q _ (refl, refl) (pop_lem e p q r h s).0

Reach-IsServed : {e : Env} {p q : Peer} → IsServed e p → Reach e p q → IsServed e q
Reach-IsServed s here = s
Reach-IsServed s (next r st) = Step-IsServed st (Reach-IsServed s r)

new_peer-IsServed : (e : Env) → IsServed e (new_peer e)
unfolding new_peer all_valid
new_peer-IsServed e = record { few = omega arith; valid = refl; choked = λ _. refl }

-- However many requests a peer sends, the queue of a peer that was reached from a new one by
-- messages, blocks, choking, unchoking and taking requests holds fewer than REQQ, so it fits in
-- peerAskedFor.
pub Reach_bounded : (e : Env) (p : Peer) → Reach e (new_peer e) p → length p.peer_asked_for < reqq
Reach_bounded e p r = (Reach-IsServed (new_peer-IsServed e) r).few

-- For a peer that was reached from a new one by messages, blocks, choking, unchoking and taking
-- requests, a request that popNextRequest takes to be answered is valid, and the peer is not
-- choked.
pub Reach-pop_next_request :
    (e : Env) (p p' : Peer) (r : Request)
    → Reach e (new_peer e) p
    → pop_next_request p ≡ some (r, p')
    → (request_is_valid e r ≡ true) × (p.peer_is_choked ≡ false)
Reach-pop_next_request e p p' r reached h =
    let (_, valid, unchoked) = pop_lem e p p' r h (Reach-IsServed (new_peer-IsServed e) reached) in
    (valid, unchoked)
