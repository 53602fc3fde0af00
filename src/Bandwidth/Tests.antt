-- ===== src/Bandwidth/Tests.antt =====
-- Runs of the bandwidths, and the properties at concrete inputs.
use libtransmission.Prelude.{ℕ, ◌*◌, ◌/◌, ◌≤◌, min, true, List, [], ◌∷◌, ◌≡◌, refl, arith, ltb}
use libtransmission.Bandwidth.{
  up, no_transfer, RateControl, Band, Bandwidth, Doubles, clamp, used, limit_bytes, slow_down,
  get_raw_speed, get_speed, sum_transfers,
}
use libtransmission.Bandwidth.Limits.{Charged, clamp-Charged}

-- Whole numbers in place of the doubles.
abbrev whole : Doubles
whole = record {
  above_tenths = λ tenths a b. ltb (tenths * b) (a * 10);
  times_tenths = λ tenths n. min n ((n * tenths) / 10);
}

whole_shrinks : (tenths : ℕ) → tenths ≤ 10 → (n : ℕ) → whole.times_tenths tenths n ≤ n
whole_shrinks tenths _ n = ground arith

-- Ten slots, the first with a transfer at 5000 milliseconds.
abbrev rate : ℕ → RateControl
rate size = record {
  newest = 0;
  transfers =
      record { date = 5000; size = size }
      ∷ (no_transfer ∷ no_transfer ∷ no_transfer ∷ no_transfer ∷ no_transfer ∷ no_transfer
          ∷ no_transfer ∷ no_transfer ∷ no_transfer ∷ []);
  cache_time = 0;
  cache_val = 0;
}

abbrev limit : ℕ → ℕ → ℕ → Band
limit left desired size = record {
  is_limited = true;
  honor_parent_limits = true;
  bytes_left = left;
  desired_speed = desired;
  raw = rate size;
  piece = rate size;
}

-- A torrent below its session; 900 bytes of upload left for the session.
abbrev tree : List Bandwidth
tree =
    record { band_up = limit 1500 1000 10; band_down = limit 5000 1000 10 }
    ∷ (record { band_up = limit 900 1000 10; band_down = limit 5000 1000 10 } ∷ [])

-- A torrent that downloads twice as fast as is desired and uploads nothing.
abbrev fast : Bandwidth
fast = record { band_up = limit 1500 1000 0; band_down = limit 5000 1000 4000 }

session_limits_torrent : clamp whole tree 5100 up 2000 ≡ 900
unfolding clamp limit_bytes slow_down get_raw_speed get_speed sum_transfers
session_limits_torrent = refl

clamp-Charged_example :
    (clamp whole tree 5100 up 2000 ≤ 2000)
    × Charged
        (clamp whole tree 5100 up 2000)
        up
        tree
        (used tree up (clamp whole tree 5100 up 2000) true 5200)
clamp-Charged_example = clamp-Charged whole whole_shrinks tree 5100 up 2000 5200
