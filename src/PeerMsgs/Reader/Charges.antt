-- ===== src/PeerMsgs/Reader/Charges.antt =====
-- src/peer-io.c: what the rounds of canReadWrapper charge to the bandwidth. The overhead that
-- guessPacketOverhead computes with doubles is a parameter.
use libtransmission.Prelude.{
  ℕ, zero, suc, ◌+◌, ◌-◌, ◌≤◌, min, ◌≡◌, refl, sym, arith, Bool, true, false, List, [], ◌∷◌, ◌++◌,
  if◌then◌else◌, ltb, ◌==◌, length, sub64,
}
use libtransmission.PeerMsgs.{Env, read_now, read_later, read_err, read_abort}
use libtransmission.PeerMsgs.Reader.{State, awaiting_piece, Msgs, Round, can_read}

pub data Charge : Type 0 where
  piece_down : ℕ → Charge
  raw_down : ℕ → Charge
  overhead_up : ℕ → Charge

-- What a round adds to `*setme_piece_bytes_read`.
unfoldable pub piece_in_state : State → Msgs → List ℕ → ℕ
piece_in_state awaiting_piece m buf =
    let i = m.incoming in
    if i.block_req.req_length == 0
    then 0
    else min (sub64 i.block_req.req_length (length i.block)) (length buf)
piece_in_state _ m buf = 0

unfoldable pub piece_bytes : Msgs → List ℕ → ℕ
piece_bytes m buf = piece_in_state m.incoming.state m buf

-- The calls of tr_bandwidthUsed after a round; `piece` is at most `used`.
unfoldable pub round_charges : (ℕ → ℕ) → ℕ → ℕ → List Charge
round_charges overhead piece used =
    (if piece == 0 then [] else piece_down piece ∷ [])
    ++ ((if used == piece then [] else raw_down (used - piece) ∷ [])
        ++ (if ltb 0 (overhead used) then overhead_up (overhead used) ∷ [] else []))

unfoldable pub charges_after : (Msgs → List ℕ → List Charge) → Round → List Charge
charges_after again (m, [], read_now) = []
charges_after again (m, c ∷ cs, read_now) = again m (c ∷ cs)
charges_after again (m, rest, read_later) = []
charges_after again (m, rest, read_err) = []
charges_after again (m, rest, read_abort) = []

-- The charges of the loop of canReadWrapper, which goes on as read_loop does.
unfoldable pub charges_loop : Env → (ℕ → ℕ) → ℕ → Msgs → List ℕ → List Charge
charges_loop e overhead zero m buf = []
charges_loop e overhead (suc fuel) m buf =
    round_charges overhead (piece_bytes m buf) (length buf - length (can_read e m buf).1)
    ++ charges_after (charges_loop e overhead fuel) (can_read e m buf)

unfoldable pub wrapper_charges : Env → (ℕ → ℕ) → Msgs → List ℕ → List Charge
wrapper_charges e overhead m buf = charges_loop e overhead (length buf + 1) m buf

-- The bytes charged to the download, and those of them that are piece data.
abbrev pub down_total : List Charge → ℕ
down_total [] = 0
down_total (piece_down n ∷ cs) = n + down_total cs
down_total (raw_down n ∷ cs) = n + down_total cs
down_total (overhead_up n ∷ cs) = down_total cs

abbrev pub piece_total : List Charge → ℕ
piece_total [] = 0
piece_total (piece_down n ∷ cs) = n + piece_total cs
piece_total (raw_down n ∷ cs) = piece_total cs
piece_total (overhead_up n ∷ cs) = piece_total cs

pub down_total-append :
    (cs ds : List Charge) → down_total (cs ++ ds) ≡ down_total cs + down_total ds
down_total-append [] ds = omega arith
down_total-append (piece_down n ∷ cs) ds = omega (arith, down_total-append cs ds)
down_total-append (raw_down n ∷ cs) ds = omega (arith, down_total-append cs ds)
down_total-append (overhead_up n ∷ cs) ds = down_total-append cs ds

pub piece_total-append :
    (cs ds : List Charge) → piece_total (cs ++ ds) ≡ piece_total cs + piece_total ds
piece_total-append [] ds = omega arith
piece_total-append (piece_down n ∷ cs) ds = omega (arith, piece_total-append cs ds)
piece_total-append (raw_down n ∷ cs) ds = piece_total-append cs ds
piece_total-append (overhead_up n ∷ cs) ds = piece_total-append cs ds

-- What one of the calls adds, if it is made.
down_if :
    (b : Bool) (c : Charge) (k : ℕ)
    → (b ≡ true → k ≡ 0)
    → (b ≡ false → down_total (c ∷ []) ≡ k)
    → down_total (if b then [] else c ∷ []) ≡ k
down_if true c k h h' = sym (h refl)
down_if false c k h h' = h' refl

piece_if :
    (b : Bool) (c : Charge) (k : ℕ)
    → (b ≡ true → k ≡ 0)
    → (b ≡ false → piece_total (c ∷ []) ≡ k)
    → piece_total (if b then [] else c ∷ []) ≡ k
piece_if true c k h h' = sym (h refl)
piece_if false c k h h' = h' refl

no_down : (b : Bool) (n : ℕ) → down_total (if b then overhead_up n ∷ [] else []) ≡ 0
no_down true n = refl
no_down false n = refl

no_piece : (b : Bool) (n : ℕ) → piece_total (if b then overhead_up n ∷ [] else []) ≡ 0
no_piece true n = refl
no_piece false n = refl

-- A round charges what it used, and as piece data what it read of a block.
pub round_charges_lem :
    (g : ℕ → ℕ) (piece used : ℕ)
    → piece ≤ used
    → (down_total (round_charges g piece used) ≡ used)
      × (piece_total (round_charges g piece used) ≡ piece)
unfolding round_charges
round_charges_lem g piece used l =
    let first = if piece == 0 then [] else piece_down piece ∷ [] in
    let second = if used == piece then [] else raw_down (used - piece) ∷ [] in
    let third = if ltb 0 (g used) then overhead_up (g used) ∷ [] else [] in
    (
      omega (
        arith,
        down_total-append first (second ++ third),
        down_total-append second third,
        down_if (piece == 0) (piece_down piece) piece (λ h. ground (arith, h)) (λ h. omega arith),
        down_if (used == piece) (raw_down (used - piece)) (used - piece) (λ h. ground (arith, h))
            (λ h. omega arith),
        no_down (ltb 0 (g used)) (g used),
        l,
      ),
      omega (
        arith,
        piece_total-append first (second ++ third),
        piece_total-append second third,
        piece_if (piece == 0) (piece_down piece) piece (λ h. ground (arith, h)) (λ h. omega arith),
        piece_if (used == piece) (raw_down (used - piece)) 0 (λ h. refl) (λ h. refl),
        no_piece (ltb 0 (g used)) (g used),
      ),
    )
