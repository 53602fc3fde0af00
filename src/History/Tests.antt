-- ===== src/History/Tests.antt =====
-- A history of three additions.
use libtransmission.Prelude.{◌≡◌, refl, arith, [], ◌∷◌, u32}
use libtransmission.History.{zeroed, next_index, previous_index, add, get_loop, get}
use libtransmission.History.Totals.{Events, ring_of, recent_total, get-recent_total}

abbrev events : Events
events = (107, 4) ∷ (107, 3) ∷ (100, 5) ∷ []

runs :
    (get (ring_of events) 110 5 ≡ 7)
    × (get (ring_of events) 110 60 ≡ 12)
    × (get (ring_of events) 167 60 ≡ 0)
unfolding ring_of zeroed next_index previous_index add get_loop get
runs = (refl, refl, refl)

get-recent_total_example : get (ring_of events) 110 20 ≡ u32 (recent_total events 110 20)
get-recent_total_example = get-recent_total events 110 20 (omega arith) (omega arith)
