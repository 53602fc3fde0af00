-- ===== src/PeerMsgs/Reader/Crash.antt =====
-- A block for a torrent without metadata.
use libtransmission.Prelude.{
  ℕ, ◌-◌, ◌≤◌, ◌<◌, ◌≡◌, ◌==◌, refl, ap, ◌∙◌, arith, true, List, none, some, length, drop,
}
use libtransmission.Torrent.{tr_block}
use libtransmission.PeerMsgs.{Env, Peer, Request, read_abort}
use libtransmission.PeerMsgs.Messages.{client_got_block}
use libtransmission.PeerMsgs.Reader.{
  awaiting_piece, Msgs, can_read_wrapper, after_round, after_save, finish_block, read_in_state,
}
use libtransmission.PeerMsgs.Reader.Rounds.{IsFramed}
use libtransmission.PeerMsgs.Reader.Blocks.{
  can_read_in, piece_data_lem, data_fills, filled, missing,
}
use libtransmission.PeerMsgs.Reader.Chunks.{wrapper_round}

no_block_size :
    (e : Env) (bytes : List ℕ) (r : Request) (p : Peer)
    → e.tor.block_size ≡ 0
    → client_got_block e bytes r p ≡ none
unfolding client_got_block tr_block
no_block_size e bytes r p h =
    let zero_size : (e.tor.block_size == 0) ≡ true = ground (arith, h) in
    rw (zero_size, client_got_block, tr_block) refl

finish_crashes :
    (e : Env) (m : Msgs) (rest : List ℕ)
    → e.tor.block_size ≡ 0
    → finish_block e m rest ≡ (m, rest, read_abort)
unfolding finish_block after_save
finish_crashes e m rest h =
    ap (after_save m rest) (no_block_size e m.incoming.block m.incoming.block_req m.peer h)

-- For a torrent whose block size is 0, as it is without metadata, a reader that has the header of
-- a block crashes as soon as the block's last byte arrives, whatever the block is and whether or
-- not it was asked for; nothing of it reaches the peer before.
pub complete_block_crashes :
    (e : Env) (m : Msgs) (buf : List ℕ)
    → IsFramed m.incoming
    → m.incoming.state ≡ awaiting_piece
    → 0 < m.incoming.block_req.req_length
    → m.incoming.block_req.req_length - length m.incoming.block ≤ length buf
    → e.tor.block_size ≡ 0
    → (m' : Msgs) × (rest : List ℕ) × (can_read_wrapper e m buf ≡ some (m', rest, read_abort))
      × (m'.peer ≡ m.peer)
unfolding read_in_state after_round
complete_block_crashes e m buf f here some_left full zero_size =
    let nonempty : 0 < length buf = omega (arith, f.block_part some_left, full) in
    (
      filled e m f some_left buf,
      drop (missing e m f some_left) buf,
      wrapper_round e m buf f nonempty
          ∙ ap (after_round (can_read_wrapper e)) (
              can_read_in e m awaiting_piece buf here nonempty
              ∙ piece_data_lem e m buf some_left
              ∙ data_fills e m f some_left buf full
              ∙ finish_crashes e (filled e m f some_left buf) (drop (missing e m f some_left) buf)
                  zero_size),
      refl,
    )
