-- ===== src/PeerMsgs/Reader/Rounds.antt =====
-- A round of the reader, on some bytes and on the same bytes with more behind them.
use libtransmission.Prelude.{
  ℕ, zero, suc, ◌+◌, ◌^◌, ◌≤◌, ◌<◌, ◌≡◌, ◌⊎◌, refl, ap, arith, true, false, List, [], ◌∷◌, ◌++◌,
  ltb, ◌==◌, Bool-cases, inl, inr, length, get_or, take, drop, length-append, length-drop,
}
use libtransmission.PeerMsgs.{
  Env, ReadState, read_now, read_later, read_err, read_abort, read_uint32,
}
use libtransmission.PeerMsgs.Reader.{
  State, awaiting_length, awaiting_id, awaiting_message, awaiting_piece, Incoming, Msgs, Round,
  start_message, block_header, read_bt_length, read_block_header, can_read,
}

pub take-append : (n : ℕ) (a b : List ℕ) → n ≤ length a → take n (a ++ b) ≡ take n a
take-append zero a b h = refl
take-append (suc n) [] b h = absurd (omega arith)
take-append (suc n) (x ∷ a) b h = ap (λ t. x ∷ t) (take-append n a b (omega arith))

pub drop-append : (n : ℕ) (a b : List ℕ) → n ≤ length a → drop n (a ++ b) ≡ drop n a ++ b
drop-append zero a b h = refl
drop-append (suc n) [] b h = absurd (omega arith)
drop-append (suc n) (x ∷ a) b h = drop-append n a b (omega arith)

pub take-append_more : (n : ℕ) (a b : List ℕ) → take (length a + n) (a ++ b) ≡ a ++ take n b
take-append_more n [] b = let e : 0 + n ≡ n = omega arith in rw e refl
take-append_more n (x ∷ a) b =
    let e : suc (length a) + n ≡ suc (length a + n) = omega arith in
    rw e (ap (λ t. x ∷ t) (take-append_more n a b))

pub drop-append_more : (n : ℕ) (a b : List ℕ) → drop (length a + n) (a ++ b) ≡ drop n b
drop-append_more n [] b = let e : 0 + n ≡ n = omega arith in rw e refl
drop-append_more n (x ∷ a) b =
    let e : suc (length a) + n ≡ suc (length a + n) = omega arith in rw e (drop-append_more n a b)

pub get_or-append : (a b : List ℕ) (i d : ℕ) → i < length a → get_or (a ++ b) i d ≡ get_or a i d
get_or-append [] b i d h = absurd (omega arith)
get_or-append (x ∷ a) b zero d h = refl
get_or-append (x ∷ a) b (suc i) d h = get_or-append a b i d (omega arith)

pub read_uint32-append : (a b : List ℕ) → 4 ≤ length a → read_uint32 (a ++ b) ≡ read_uint32 a
unfolding read_uint32
read_uint32-append a b h = ground (
  arith,
  get_or-append a b 0 0,
  get_or-append a b 1 0,
  get_or-append a b 2 0,
  get_or-append a b 3 0,
)

-- What the fields of the message that is read promise of each other.
abbrev pub Counts : State → ℕ → Type 0
Counts awaiting_id n = 1 ≤ n
Counts awaiting_message n = 2 ≤ n
Counts awaiting_length n = Unit {0}
Counts awaiting_piece n = Unit {0}

pub record IsFramed (i : Incoming) : Type 0 where
  pub length_fits : i.msg_length < 2 ^ 32
  pub request_fits : i.block_req.req_length < 2 ^ 32
  pub counts : Counts i.state i.msg_length
  pub no_block : i.block_req.req_length ≡ 0 → length i.block ≡ 0
  pub block_part : 0 < i.block_req.req_length → length i.block < i.block_req.req_length

-- The same round with more bytes behind.
abbrev pub extend : List ℕ → Round → Round
extend b (m, rest, ret) = (m, rest ++ b, ret)

abbrev pub Goes : ℕ → ReadState → Msgs → List ℕ → Type 0
Goes n read_now m rest = (length rest < n) × IsFramed m.incoming
Goes n read_later m rest = ⊥
Goes n read_err m rest = Unit {0}
Goes n read_abort m rest = Unit {0}

-- A round goes on with fewer bytes than n, or ends in an error.
abbrev pub Went : ℕ → Round → Type 0
Went n (m, rest, ret) = Goes n ret m rest

-- The round waits for more bytes; or has taken those of a block that are there; or is not changed by more.
abbrev pub Outcome : Env → Msgs → List ℕ → List ℕ → Round → Round → Type 0
Outcome e m a b r s =
    (r ≡ (m, a, read_later))
    ⊎ (((m' : Msgs) × (r ≡ (m', [], read_later)) × IsFramed m'.incoming × (s ≡ can_read e m' b))
        ⊎ ((s ≡ extend b r) × Went (length a) r))

pub Outcome-as :
    (e : Env) (m : Msgs) (a b : List ℕ) (r r' s s' : Round)
    → r ≡ r'
    → s ≡ s'
    → Outcome e m a b r' s'
    → Outcome e m a b r s
Outcome-as e m a b r r' s s' p q o = rw p (rw q o)

pub Went-as : (n : ℕ) (r r' : Round) → r ≡ r' → Went n r' → Went n r
Went-as n r r' same w = rw same w

module _ (e : Env) (m : Msgs) (a b : List ℕ) (f : IsFramed m.incoming) where
  length_waits : ltb (length a) 4 ≡ true → read_bt_length m a ≡ (m, a, read_later)
  unfolding read_bt_length
  length_waits h = rw h refl

  pub length_reads :
      (bytes : List ℕ)
      → ltb (length bytes) 4 ≡ false
      → read_bt_length m bytes ≡ (
        record m { incoming = start_message m.incoming (read_uint32 bytes) },
        drop 4 bytes,
        read_now,
      )
  unfolding read_bt_length
  length_reads bytes h = rw h refl

  pub start_message-IsFramed :
      (bytes : List ℕ) → IsFramed (start_message m.incoming (read_uint32 bytes))
  unfolding start_message read_uint32
  start_message-IsFramed bytes = elim (Bool-cases (read_uint32 bytes == 0)) [
    | inl h ↦ rw h f
    | inr h ↦ rw h (record {
      length_fits = omega arith;
      request_fits = f.request_fits;
      counts = ground (arith, h);
      no_block = f.no_block;
      block_part = f.block_part;
    })
  ]

  pub length-Outcome : Outcome e m a b (read_bt_length m a) (read_bt_length m (a ++ b))
  length-Outcome = elim (Bool-cases (ltb (length a) 4)) [
    | inl h ↦ inl (length_waits h)
    | inr h ↦
        let long : ltb (length (a ++ b)) 4 ≡ false = ground (arith, length-append a b, h) in
        inr (
          inr (
            rw (length_reads a h) (
                rw (length_reads (a ++ b) long) (
                  rw (read_uint32-append a b (ground (arith, h)))
                    (rw (drop-append 4 a b (ground (arith, h))) refl))),
            Went-as (length a) _ _ (length_reads a h)
                (ground (arith, length-drop 4 a, h), start_message-IsFramed a),
          ))
  ]

  header_waits : ltb (length a) 8 ≡ true → read_block_header m a ≡ (m, a, read_later)
  unfolding read_block_header
  header_waits h = rw h refl

  pub header_reads :
      (bytes : List ℕ)
      → ltb (length bytes) 8 ≡ false
      → read_block_header m bytes
        ≡ (record m { incoming = block_header m.incoming bytes }, drop 8 bytes, read_now)
  unfolding read_block_header
  header_reads bytes h = rw h refl

  block_header-append : 8 ≤ length a → block_header m.incoming (a ++ b) ≡ block_header m.incoming a
  unfolding block_header
  block_header-append h = rw (read_uint32-append a b (omega arith)) (
      rw (drop-append 4 a b (omega arith))
        (rw (read_uint32-append (drop 4 a) b (omega (arith, length-drop 4 a))) refl))

  pub block_header-IsFramed :
      m.incoming.block_req.req_length ≡ 0 → IsFramed (block_header m.incoming a)
  unfolding block_header
  block_header-IsFramed empty = record {
    length_fits = f.length_fits;
    request_fits = omega arith;
    counts = f.counts;
    no_block = λ _. f.no_block empty;
    block_part = λ some. omega (arith, f.no_block empty, some);
  }

  pub header-Outcome :
      m.incoming.block_req.req_length ≡ 0
      → Outcome e m a b (read_block_header m a) (read_block_header m (a ++ b))
  header-Outcome empty = elim (Bool-cases (ltb (length a) 8)) [
    | inl h ↦ inl (header_waits h)
    | inr h ↦
        let enough : 8 ≤ length a = ground (arith, h) in
        let long : ltb (length (a ++ b)) 8 ≡ false = ground (arith, length-append a b, h) in
        inr (
          inr (
            rw (header_reads a h) (
                rw (header_reads (a ++ b) long)
                  (rw (block_header-append enough) (rw (drop-append 8 a b enough) refl))),
            Went-as (length a) _ _ (header_reads a h)
                (omega (arith, length-drop 8 a), block_header-IsFramed empty),
          ))
  ]
