-- ===== src/PeerMsgs/Reader/Messages.antt =====
-- A round that reads a message, on some bytes and on the same bytes with more behind them.
use libtransmission.Prelude.{
  ℕ, ◌+◌, ◌-◌, ◌≤◌, ◌<◌, ◌≡◌, refl, arith, Bool, true, false, List, ◌++◌, ltb, ◌==◌, Bool-cases,
  Option-cases, inl, inr, length, get_or, take, drop, u32, sub32, length-append, length-drop,
}
use libtransmission.PeerMsgs.{
  Peer, Env, ReadState, read_now, read_later, read_err, read_abort, call, error_message_size,
}
use libtransmission.PeerMsgs.Messages.{
  message_length_is_correct, handle_message, got_have_message, got_bitfield_message, with_fext,
}
use libtransmission.Bitfield.Update.{set_raw}
use libtransmission.PeerMsgs.Reader.{
  State, awaiting_message, awaiting_piece, Incoming, Msgs, ends_message, read_bt_message,
  read_bt_id,
}
use libtransmission.PeerMsgs.Reader.Rounds.{
  Counts, IsFramed, extend, Goes, Went, Outcome, Went-as, take-append, drop-append, get_or-append,
}

-- The handlers never ask for more bytes.
abbrev is_later : ReadState → Bool
is_later read_later = true
is_later _ = false

handled-Goes :
    (n len : ℕ) (i : Incoming) (p : Peer) (ret : ReadState) (a : List ℕ)
    → is_later ret ≡ false
    → length a - len < n
    → IsFramed i
    → Goes n ret (record { incoming = ends_message ret i; peer = p }) (drop len a)
unfolding ends_message
handled-Goes n len i p read_later a h shorter f = ground (arith, h)
handled-Goes n len i p read_err a h shorter f = tt
handled-Goes n len i p read_abort a h shorter f = tt
handled-Goes n len i p read_now a h shorter f = (
  omega (arith, length-drop len a, shorter),
  record {
    length_fits = f.length_fits;
    request_fits = f.request_fits;
    counts = tt;
    no_block = f.no_block;
    block_part = f.block_part;
  },
)

handle_message_now :
    (e : Env) (id : ℕ) (payload : List ℕ) (p : Peer)
    → is_later (handle_message e id payload p).1 ≡ false
unfolding handle_message got_have_message got_bitfield_message with_fext
handle_message_now e id payload p =
    ground (arith, Option-cases (set_raw p.have payload (length payload) e.has_metadata))

module _ (e : Env) (m : Msgs) (len : ℕ) (is_len : sub32 m.incoming.msg_length 1 ≡ len) where
  message_waits :
      (a : List ℕ) → ltb (length a) len ≡ true → read_bt_message e m a ≡ (m, a, read_later)
  unfolding read_bt_message
  message_waits a h = rw is_len (rw h refl)

  message_bad :
      (a : List ℕ)
      → ltb (length a) len ≡ false
      → message_length_is_correct e m.peer m.incoming.id (u32 (len + 1)) ≡ false
      → read_bt_message e m a ≡ (record m { peer = call error_message_size m.peer }, a, read_err)
  unfolding read_bt_message
  message_bad a h bad = rw is_len (rw (h, bad) refl)

  message_handled :
      (a : List ℕ)
      → ltb (length a) len ≡ false
      → message_length_is_correct e m.peer m.incoming.id (u32 (len + 1)) ≡ true
      → read_bt_message e m a ≡ (
        record {
          incoming = ends_message (handle_message e m.incoming.id (take len a) m.peer).1 m.incoming;
          peer = (handle_message e m.incoming.id (take len a) m.peer).0;
        },
        drop len a,
        (handle_message e m.incoming.id (take len a) m.peer).1,
      )
  unfolding read_bt_message
  message_handled a h good = rw is_len (rw (h, good) refl)

  message_round :
      (n : ℕ) (a b : List ℕ)
      → ltb (length a) len ≡ false
      → length a - len < n
      → IsFramed m.incoming
      → (read_bt_message e m (a ++ b) ≡ extend b (read_bt_message e m a))
        × Went n (read_bt_message e m a)
  message_round n a b h shorter f =
      let enough : len ≤ length a = ground (arith, h) in
      let long : ltb (length (a ++ b)) len ≡ false = ground (arith, length-append a b, h) in
      elim (Bool-cases (message_length_is_correct e m.peer m.incoming.id (u32 (len + 1)))) [
        | inr bad ↦ (
          rw (message_bad a h bad) (message_bad (a ++ b) long bad),
          Went-as n _ _ (message_bad a h bad) tt,
        )
        | inl good ↦ (
          rw (message_handled a h good) (
              rw (message_handled (a ++ b) long good)
                (rw (take-append len a b enough) (rw (drop-append len a b enough) refl))),
          Went-as n _ _ (message_handled a h good) (
              handled-Goes n len m.incoming _ _ a
                (handle_message_now e m.incoming.id (take len a) m.peer) shorter f),
        )
      ]

module _ (e : Env) (m : Msgs) (f : IsFramed m.incoming) where
  pub message-Outcome :
      (a b : List ℕ)
      → 2 ≤ m.incoming.msg_length
      → Outcome e m a b (read_bt_message e m a) (read_bt_message e m (a ++ b))
  message-Outcome a b long =
      let len = m.incoming.msg_length - 1 in
      let is_len : sub32 m.incoming.msg_length 1 ≡ len = omega (arith, f.length_fits) in
      elim (Bool-cases (ltb (length a) len)) [
        | inl h ↦ inl (message_waits e m len is_len a h)
        | inr h ↦
            inr (inr (message_round e m len is_len (length a) a b h (ground (arith, h, long)) f))
      ]

  -- The id is read.
  abbrev named : List ℕ → State → Msgs
  named a s = record m { incoming = record m.incoming { id = get_or a 0 0; state = s } }

  named-IsFramed :
      (a : List ℕ) (s : State) → Counts s m.incoming.msg_length → IsFramed (named a s).incoming
  named-IsFramed a s c = record {
    length_fits = f.length_fits;
    request_fits = f.request_fits;
    counts = c;
    no_block = f.no_block;
    block_part = f.block_part;
  }

  pub id_piece :
      (a : List ℕ)
      → 0 < length a
      → (get_or a 0 0 == 7) ≡ true
      → read_bt_id e m a ≡ (named a awaiting_piece, drop 1 a, read_now)
  unfolding read_bt_id
  id_piece a nonempty h =
      let there : ltb (length a) 1 ≡ false = ground (arith, nonempty) in rw there (rw h refl)

  id_message :
      (a : List ℕ)
      → 0 < length a
      → (get_or a 0 0 == 7) ≡ false
      → (m.incoming.msg_length == 1) ≡ false
      → read_bt_id e m a ≡ (named a awaiting_message, drop 1 a, read_now)
  unfolding read_bt_id
  id_message a nonempty h one =
      let there : ltb (length a) 1 ≡ false = ground (arith, nonempty) in
      rw there (rw h (rw one refl))

  id_direct :
      (a : List ℕ)
      → 0 < length a
      → (get_or a 0 0 == 7) ≡ false
      → (m.incoming.msg_length == 1) ≡ true
      → read_bt_id e m a ≡ read_bt_message e (named a m.incoming.state) (drop 1 a)
  unfolding read_bt_id
  id_direct a nonempty h one =
      let there : ltb (length a) 1 ≡ false = ground (arith, nonempty) in
      rw there (rw h (rw one refl))

  pub id-Outcome :
      (a b : List ℕ)
      → 0 < length a
      → 1 ≤ m.incoming.msg_length
      → Outcome e m a b (read_bt_id e m a) (read_bt_id e m (a ++ b))
  id-Outcome a b nonempty counted =
      let nonempty' : 0 < length (a ++ b) = omega (arith, length-append a b, nonempty) in
      let same = get_or-append a b 0 0 nonempty in
      let dropped = drop-append 1 a b (omega (arith, nonempty)) in
      let shorter : length (drop 1 a) < length a = omega (arith, length-drop 1 a, nonempty) in
      elim (Bool-cases (get_or a 0 0 == 7)) [
        | inl h ↦ inr (
            inr (
              rw (id_piece a nonempty h)
                  (rw (id_piece (a ++ b) nonempty' (rw same h)) (rw same (rw dropped refl))),
              Went-as (length a) _ _ (id_piece a nonempty h)
                  (shorter, named-IsFramed a awaiting_piece tt),
            ))
        | inr h ↦ elim (Bool-cases (m.incoming.msg_length == 1)) [
          | inr one ↦ inr (
              inr (
                rw (id_message a nonempty h one) (
                    rw (id_message (a ++ b) nonempty' (rw same h) one) (rw same (rw dropped refl))),
                Went-as (length a) _ _ (id_message a nonempty h one)
                    (shorter, named-IsFramed a awaiting_message (ground (arith, one, counted))),
              ))
          | inl one ↦
              let is_len : sub32 (named a m.incoming.state).incoming.msg_length 1 ≡ 0 =
                ground (arith, one) in
              let round =
                message_round e (named a m.incoming.state) 0 is_len (length a) (drop 1 a) b
                  (ground (arith)) (omega (arith, shorter))
                  (named-IsFramed a m.incoming.state f.counts) in
              inr (
                inr (
                  rw (id_direct a nonempty h one) (
                      rw (id_direct (a ++ b) nonempty' (rw same h) one)
                        (rw same (rw dropped round.0))),
                  Went-as (length a) _ _ (id_direct a nonempty h one) round.1,
                ))
        ]
      ]
