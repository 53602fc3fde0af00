-- ===== src/Bandwidth.antt =====
-- src/bandwidth.c: `tr_bandwidth`, which measures and limits transfers. Bandwidths form a tree; what
-- is done up the tree runs along a list, from a bandwidth to its parent and so on to the root. Times are
-- in milliseconds, and given (the code asks the clock where it is passed 0).
pub mod Limits
mod Tests
use libtransmission.Prelude.{
  ℕ, zero, suc, ◌+◌, ◌-◌, ◌*◌, ◌/◌, min, Bool, ◌&&◌, List, [], ◌∷◌, if◌then◌else◌, ltb, leb, ◌==◌,
  not, get_or, set, u32, u64, sub64,
}

pub data Direction : Type 0 where
  up : Direction
  down : Direction

pub record Transfer : Type 0 where
  pub date : ℕ
  pub size : ℕ

abbrev pub no_transfer : Transfer
no_transfer = record { date = 0; size = 0 }

-- `struct bratecontrol`
pub record RateControl : Type 0 where
  pub newest : ℕ
  pub transfers : List Transfer
  pub cache_time : ℕ
  pub cache_val : ℕ

-- `struct tr_band`
pub record Band : Type 0 where
  pub is_limited : Bool
  pub honor_parent_limits : Bool
  pub bytes_left : ℕ
  pub desired_speed : ℕ
  pub raw : RateControl
  pub piece : RateControl

pub record Bandwidth : Type 0 where
  pub band_up : Band
  pub band_down : Band

abbrev pub band : Bandwidth → Direction → Band
band b up = b.band_up
band b down = b.band_down

abbrev pub set_band : Bandwidth → Direction → Band → Bandwidth
set_band b up x = record b { band_up = x }
set_band b down x = record b { band_down = x }

abbrev pub history_msec : ℕ
history_msec = 2000

abbrev pub granularity_msec : ℕ
granularity_msec = 200

abbrev pub history_size : ℕ
history_size = 10

abbrev pub transfer_at : RateControl → ℕ → Transfer
transfer_at r i = get_or r.transfers i no_transfer

-- The loop of `getSpeed_Bps`, which comes round after `history_size` rounds.
sum_transfers : ℕ → RateControl → ℕ → ℕ → ℕ → ℕ
sum_transfers zero r cutoff i bytes = bytes
sum_transfers (suc rounds) r cutoff i bytes =
    let before = if i == 0 then history_size - 1 else i - 1 in
    let bytes' = u64 (bytes + (transfer_at r i).size) in
    let rest = sum_transfers rounds r cutoff before bytes' in
    if leb (transfer_at r i).date cutoff then bytes else if before == r.newest then bytes' else rest

-- `getSpeed_Bps`: the control with its cache, and the speed.
pub get_speed : RateControl → ℕ → ℕ → RateControl × ℕ
get_speed r interval_msec now =
    let bytes = sum_transfers history_size r (sub64 now interval_msec) r.newest 0 in
    let speed = u32 (u64 (bytes * 1000) / interval_msec) in
    if not (now == r.cache_time)
    then (record r { cache_val = speed; cache_time = now }, speed)
    else (r, r.cache_val)

pub bytes_used : ℕ → RateControl → ℕ → RateControl
bytes_used now r size =
    let here = transfer_at r r.newest in
    let next = if r.newest + 1 == history_size then 0 else r.newest + 1 in
    if leb now (u64 (here.date + granularity_msec))
    then record r {
      transfers = set r.transfers r.newest (record here { size = u64 (here.size + size) });
      cache_time = 0;
    }
    else record r {
      newest = next;
      transfers = set r.transfers next (record { date = now; size = size });
      cache_time = 0;
    }

pub get_raw_speed : Bandwidth → ℕ → Direction → ℕ
get_raw_speed b now dir = (get_speed (band b dir).raw history_msec now).1

-- The arithmetic of `double`: whether a quotient is above so many tenths, and a count times so many
-- tenths, cut to a whole number.
pub record Doubles : Type 0 where
  pub above_tenths : ℕ → ℕ → ℕ → Bool
  pub times_tenths : ℕ → ℕ → ℕ

module _ (d : Doubles) where
  -- The clamping near the speed limit, of a count that is not 0.
  slow_down : Bandwidth → ℕ → ℕ → ℕ
  slow_down b now count =
      let current = get_raw_speed b now down in
      let desired = b.band_down.desired_speed in
      if leb 1 desired && d.above_tenths 10 current desired
      then 0
      else if leb 1 desired && d.above_tenths 9 current desired
      then d.times_tenths 8 count
      else if leb 1 desired && d.above_tenths 8 current desired
      then d.times_tenths 9 count
      else count

  limit_bytes : Bandwidth → ℕ → Direction → ℕ → ℕ
  limit_bytes b now dir count =
      let left = min count (band b dir).bytes_left in
      if (band b dir).is_limited then (if ltb 0 left then slow_down b now left else left) else count

  -- `bandwidthClamp`. The speed that is asked for on the way stays cached in the code.
  pub clamp : List Bandwidth → ℕ → Direction → ℕ → ℕ
  clamp [] now dir count = count
  clamp (b ∷ parents) now dir count =
      let count' = limit_bytes b now dir count in
      if (band b dir).honor_parent_limits && ltb 0 count'
      then clamp parents now dir count'
      else count'

used_band : Band → ℕ → Bool → ℕ → Band
used_band x count is_piece_data now =
    let left =
      if x.is_limited && is_piece_data
      then x.bytes_left - min x.bytes_left count
      else x.bytes_left in
    record x {
      bytes_left = left;
      raw = bytes_used now x.raw count;
      piece = if is_piece_data then bytes_used now x.piece count else x.piece;
    }

-- `tr_bandwidthUsed`
pub used : List Bandwidth → Direction → ℕ → Bool → ℕ → List Bandwidth
used [] dir count is_piece_data now = []
used (b ∷ parents) dir count is_piece_data now =
    set_band b dir (used_band (band b dir) count is_piece_data now)
    ∷ used parents dir count is_piece_data now
