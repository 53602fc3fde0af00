-- ===== src/PeerMsgs/Reader/Blocks.antt =====
-- The bytes of a block, in as many chunks as they come.
use libtransmission.Prelude.{
  Option, none, some, Bool, ℕ, ◌+◌, ◌-◌, ◌^◌, ◌≤◌, ◌<◌, min, ◌≡◌, refl, arith, true, false, List,
  [], ◌∷◌, ◌++◌, ltb, ◌==◌, length, take, drop, sub64, length-append, length-take, take-length,
}
use mathlib.Core.List.{append_assoc}
use libtransmission.PeerMsgs.{Peer, Env, read_later}
use libtransmission.PeerMsgs.Messages.{client_got_block}
use libtransmission.PeerMsgs.Reader.{
  State, Incoming, Msgs, read_block_header, finish_block, after_save, got_piece_data, take_block,
  after_block, read_block_data, read_bt_piece, read_in_state, can_read,
}
use libtransmission.PeerMsgs.Reader.Rounds.{
  IsFramed, Went, extend, take-append, take-append_more, drop-append_more,
}

drop-length : (a : List ℕ) → drop (length a) a ≡ []
drop-length [] = refl
drop-length (x ∷ a) = drop-length a

-- All that is there of a block.
abbrev pub taken : Incoming → List ℕ → Incoming
taken i a = record i {
  block = i.block ++ a;
  downloaded_cur = got_piece_data (length a) i.downloaded_cur;
}

take_block_all : (i : Incoming) (a : List ℕ) → take_block i (length a) a ≡ taken i a
unfolding take_block
take_block_all i a = rw (take-length a) refl

-- Bytes told of in two parts count as much as at once.
got_piece_data-add :
    (a b total : ℕ) → got_piece_data (a + b) total ≡ got_piece_data b (got_piece_data a total)
unfolding got_piece_data
got_piece_data-add a b total = omega arith

take_block-append :
    (i : Incoming) (n : ℕ) (a b : List ℕ)
    → take_block i (length a + n) (a ++ b) ≡ take_block (taken i a) n b
unfolding take_block
take_block-append i n a b =
    let sum : got_piece_data (length a + n) i.downloaded_cur
        ≡ got_piece_data n (got_piece_data (length a) i.downloaded_cur) =
      got_piece_data-add (length a) n i.downloaded_cur in
    rw (take-append_more n a b) (rw sum (rw (append_assoc i.block a (take n b)) refl))

after_save-append :
    (rest b : List ℕ) (m : Msgs) (o : Option (Peer × Bool))
    → after_save m (rest ++ b) o ≡ extend b (after_save m rest o)
unfolding after_save
after_save-append rest b m none = refl
after_save-append rest b m (some (p, failed)) = refl

after_save-Went :
    (n : ℕ) (rest : List ℕ) (m : Msgs) (o : Option (Peer × Bool))
    → length rest < n
    → m.incoming.msg_length < 2 ^ 32
    → Went n (after_save m rest o)
unfolding after_save
after_save-Went n rest m none shorter fits = tt
after_save-Went n rest m (some (p, true)) shorter fits = tt
after_save-Went n rest m (some (p, false)) shorter fits = (
  shorter,
  record {
    length_fits = fits;
    request_fits = omega arith;
    counts = tt;
    no_block = λ _. refl;
    block_part = λ pos. absurd (omega (arith, pos));
  },
)

module _ (e : Env) (m : Msgs) (f : IsFramed m.incoming)
    (some_left : 0 < m.incoming.block_req.req_length) where
  -- What is missing of the block.
  abbrev pub missing : ℕ
  missing = m.incoming.block_req.req_length - length m.incoming.block

  missing_lem : sub64 m.incoming.block_req.req_length (length m.incoming.block) ≡ missing
  missing_lem = omega (arith, f.request_fits, f.block_part some_left)

  pub read_block_data_lem :
      (n : ℕ) (a : List ℕ)
      → min missing (length a) ≡ n
      → read_block_data e m a
        ≡ after_block e (record m { incoming = take_block m.incoming n a }) (drop n a)
  unfolding read_block_data
  read_block_data_lem n a h = rw missing_lem (rw h refl)

  abbrev pub waiting : List ℕ → Msgs
  waiting a = record m { incoming = taken m.incoming a }

  pub taken-IsFramed : (a : List ℕ) → length a < missing → IsFramed (taken m.incoming a)
  taken-IsFramed a short = record {
    length_fits = f.length_fits;
    request_fits = f.request_fits;
    counts = f.counts;
    no_block = λ none_left. absurd (omega (arith, none_left));
    block_part = λ _. omega (arith, length-append m.incoming.block a, short);
  }

  pub data_waits :
      (a : List ℕ) → length a < missing → read_block_data e m a ≡ (waiting a, [], read_later)
  unfolding after_block
  data_waits a short =
      let more : ltb (length (m.incoming.block ++ a)) m.incoming.block_req.req_length ≡ true =
        ground (arith, length-append m.incoming.block a, short) in
      rw (read_block_data_lem (length a) a (omega arith))
        (rw (take_block_all m.incoming a) (rw (drop-length a) (rw more refl)))

  -- The message with the chunk that completes the block.
  abbrev pub filled : List ℕ → Msgs
  filled a = record m { incoming = take_block m.incoming missing a }

  pub data_fills :
      (a : List ℕ)
      → missing ≤ length a
      → read_block_data e m a ≡ finish_block e (filled a) (drop missing a)
  unfolding after_block take_block
  data_fills a full =
      let done : ltb (length (m.incoming.block ++ take missing a)) m.incoming.block_req.req_length
          ≡ false =
        ground
          (arith, length-append m.incoming.block (take missing a), length-take missing a, full) in
      rw (read_block_data_lem missing a (omega arith)) (rw done refl)

  pub filled-append : (a b : List ℕ) → missing ≤ length a → filled (a ++ b) ≡ filled a
  unfolding take_block
  filled-append a b full = rw (take-append missing a b full) refl

  pub finish-append :
      (rest b : List ℕ) (n : Msgs) → finish_block e n (rest ++ b) ≡ extend b (finish_block e n rest)
  unfolding finish_block
  finish-append rest b n =
      after_save-append rest b n (client_got_block e n.incoming.block n.incoming.block_req n.peer)

  pub finish-Went :
      (n : ℕ) (rest : List ℕ) (c : Msgs)
      → length rest < n
      → c.incoming.msg_length < 2 ^ 32
      → Went n (finish_block e c rest)
  unfolding finish_block
  finish-Went n rest c shorter fits =
      after_save-Went n rest c (client_got_block e c.incoming.block c.incoming.block_req c.peer)
        shorter fits

pub data_joins :
    (e : Env) (m : Msgs) (f : IsFramed m.incoming) (some_left : 0 < m.incoming.block_req.req_length)
    (a b : List ℕ)
    → length a < m.incoming.block_req.req_length - length m.incoming.block
    → read_block_data e m (a ++ b)
      ≡ read_block_data e (record m { incoming = taken m.incoming a }) b
data_joins e m f some_left a b short =
    let left = m.incoming.block_req.req_length - length m.incoming.block in
    let n = min (left - length a) (length b) in
    rw
      (read_block_data_lem e m f some_left (length a + n) (a ++ b)
        (omega (arith, length-append a b, short)))
      (rw
        (read_block_data_lem e (record m { incoming = taken m.incoming a })
          (taken-IsFramed e m f some_left a short) some_left n b
          (omega (arith, length-append m.incoming.block a)))
        (rw (take_block-append m.incoming n a b) (rw (drop-append_more n a b) refl)))

pub piece_data_lem :
    (e : Env) (m : Msgs) (buf : List ℕ)
    → 0 < m.incoming.block_req.req_length
    → read_bt_piece e m buf ≡ read_block_data e m buf
unfolding read_bt_piece
piece_data_lem e m buf pos =
    let h : (m.incoming.block_req.req_length == 0) ≡ false = ground (arith, pos) in rw h refl

pub piece_header_lem :
    (e : Env) (m : Msgs) (buf : List ℕ)
    → m.incoming.block_req.req_length ≡ 0
    → read_bt_piece e m buf ≡ read_block_header m buf
unfolding read_bt_piece
piece_header_lem e m buf z =
    let h : (m.incoming.block_req.req_length == 0) ≡ true = ground (arith, z) in rw h refl

-- The reader's round in a known state.
pub can_read_in :
    (e : Env) (m : Msgs) (s : State) (buf : List ℕ)
    → m.incoming.state ≡ s
    → 0 < length buf
    → can_read e m buf ≡ read_in_state s e m buf
unfolding can_read
can_read_in e m s [] here nonempty = absurd (omega arith)
can_read_in e m s (c ∷ buf) here nonempty = rw here refl
