-- ===== src/History.antt =====
-- src/history.c: `tr_recentHistory`, a ring of the counts of the last seconds in which something
-- happened.
pub mod Log
pub mod Totals
mod Tests
use libtransmission.Prelude.{
  ℕ, zero, suc, ◌+◌, ◌-◌, ◌*◌, Bool, List, if◌then◌else◌, leb, ◌==◌, get_or, set, replicate, u32,
}

pub record Slice : Type 0 where
  pub n : ℕ
  pub date : ℕ

abbrev pub empty_slice : Slice
empty_slice = record { n = 0; date = 0 }

pub record History : Type 0 where
  pub newest : ℕ
  pub slices : List Slice

-- `TR_RECENT_HISTORY_PERIOD_SEC`
abbrev pub period : ℕ
period = 60

-- A zeroed structure.
pub zeroed : History
zeroed = record { newest = 0; slices = replicate period empty_slice }

abbrev pub slice_at : History → ℕ → Slice
slice_at h i = get_or h.slices i empty_slice

pub next_index : ℕ → ℕ
next_index i = if i + 1 == period then 0 else i + 1

pub previous_index : ℕ → ℕ
previous_index i = if i == 0 then period - 1 else i - 1

pub add : History → ℕ → ℕ → History
add h now n =
    let here = slice_at h h.newest in
    let next = next_index h.newest in
    if here.date == now
    then record h { slices = set h.slices h.newest (record here { n = u32 (here.n + n) }) }
    else record { newest = next; slices = set h.slices next (record { n = n; date = now }) }

-- The loop of `tr_historyGet`. The test `date <= now - sec` is of signed numbers.
pub get_loop : ℕ → History → ℕ → ℕ → ℕ → ℕ → ℕ
get_loop zero h now sec i n = n
get_loop (suc rounds) h now sec i n =
    let n' = u32 (n + (slice_at h i).n) in
    let rest = get_loop rounds h now sec (previous_index i) n' in
    if leb ((slice_at h i).date + sec) now
    then n
    else if previous_index i == h.newest
    then n'
    else rest

-- `tr_historyGet` with a time; the loop comes round after `period` rounds.
pub get : History → ℕ → ℕ → ℕ
get h now sec = get_loop period h now sec h.newest 0
