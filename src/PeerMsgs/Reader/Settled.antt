-- ===== src/PeerMsgs/Reader/Settled.antt =====
-- What the rounds of canReadWrapper charge is what they use.
use libtransmission.Prelude.{ℕ, ◌+◌, ◌≡◌, List, Option, none, some, length, u64}
use libtransmission.PeerMsgs.Reader.{Round}
use libtransmission.PeerMsgs.Reader.Charges.{Charge, down_total, piece_total}

-- What the charges of some rounds owe to their result.
abbrev Settles : List Charge → ℕ → ℕ → Round → Type 0
Settles cs n total (m, rest, ret) =
    (down_total cs + length rest ≡ n) × (m.incoming.downloaded_cur ≡ u64 (total + piece_total cs))

round_or : Round → Option Round → Round
round_or d none = d
round_or d (some r) = r
