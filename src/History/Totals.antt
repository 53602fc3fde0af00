-- ===== src/History/Totals.antt =====
-- What `tr_historyGet` answers, in terms of everything that was added.
use native.Mathlib.Nat.{add-zero, zero-add}
use libtransmission.Prelude.{
  ℕ, zero, suc, ◌+◌, ◌^◌, ◌≤◌, ◌<◌, ◌≡◌, refl, ap, sym, ◌∙◌, arith, false, List, [], ◌∷◌,
  if◌then◌else◌, leb, ◌==◌, ==_iff, get_or, u32, ℕ_discrete,
}
use libtransmission.History.{
  Slice, History, empty_slice, zeroed, slice_at, previous_index, add, get_loop, get,
}
use libtransmission.History.Log.{
  log_add, log_total, Falls, index_back, Represents, zeroed-Represents, add-Represents, back-zero,
}

-- What was added and when, the latest first, and the ring and the log made of it.
abbrev pub Events : Type 0
Events = List (ℕ × ℕ)

unfoldable pub ring_of : Events → History
ring_of [] = zeroed
ring_of ((date, n) ∷ es) = add (ring_of es) date n

log_of : Events → List Slice
log_of [] = []
log_of ((date, n) ∷ es) = log_add (log_of es) date n

-- The sum of what was added in the last `sec` seconds.
abbrev pub recent_total : Events → ℕ → ℕ → ℕ
recent_total [] now sec = 0
recent_total ((date, n) ∷ es) now sec =
    (if leb (date + sec) now then 0 else n) + recent_total es now sec

-- Dates that do not fall, from 1 to `now`, and counts of 32 bits.
abbrev pub HappenedBy : ℕ → Events → Type 0
HappenedBy now [] = Unit {0}
HappenedBy now ((date, n) ∷ es) = (date ≤ now) × (0 < date) × (n < 2 ^ 32) × HappenedBy date es

ring-Represents : (now : ℕ) (es : Events) → HappenedBy now es → Represents (ring_of es) (log_of es)
unfolding ring_of log_of
ring-Represents now [] h = zeroed-Represents
ring-Represents now ((date, n) ∷ es) h =
    add-Represents (ring_of es) (log_of es) date n (ring-Represents date es h.3) h.1 h.2

total-log_add :
    (log : List Slice) (date n now sec : ℕ)
    → log_total (log_add log date n) now sec
      ≡ (if leb (date + sec) now then 0 else n) + log_total log now sec
unfolding log_total log_add
total-log_add [] date n now sec = refl
total-log_add (s ∷ log) date n now sec = ground arith

total-log_of : (es : Events) (now sec : ℕ) → log_total (log_of es) now sec ≡ recent_total es now sec
unfolding log_of log_total
total-log_of [] now sec = refl
total-log_of ((date, n) ∷ es) now sec =
    omega (arith, total-log_add (log_of es) date n now sec, total-log_of es now sec)

log_add-Falls :
    (log : List Slice) (bound date n : ℕ)
    → Falls bound log
    → bound ≤ date + 1
    → 0 < date
    → Falls (date + 1) (log_add log date n)
unfolding log_add
log_add-Falls [] bound date n f h lo = (omega arith, lo, tt)
log_add-Falls (s ∷ log) bound date n f h lo = elim (ℕ_discrete s.date date) [
  | yes e ↦ rw ((==_iff s.date date).1 e) (omega arith, f.1, f.2)
  | no ne ↦
      let other : (s.date == date) ≡ false = ground (arith, ne) in
      rw other (omega arith, lo, (omega arith, f.1, f.2))
]

Falls-up : (log : List Slice) (bound above : ℕ) → Falls bound log → bound ≤ above → Falls above log
Falls-up [] bound above f h = tt
Falls-up (s ∷ log) bound above f h = (omega arith, f.1, f.2)

log-Falls : (es : Events) (now : ℕ) → HappenedBy now es → Falls (now + 1) (log_of es)
unfolding log_of
log-Falls [] now h = tt
log-Falls ((date, n) ∷ es) now h =
    Falls-up _ (date + 1) (now + 1)
      (log_add-Falls (log_of es) (date + 1) date n (log-Falls es date h.3) (omega arith) h.1)
      (omega arith)

-- The sum of at most `rounds` seconds of the log, up to the first that is too old.
walk_total : ℕ → List Slice → ℕ → ℕ → ℕ
walk_total zero log now sec = 0
walk_total (suc rounds) [] now sec = 0
walk_total (suc rounds) (s ∷ log) now sec =
    let rest = walk_total rounds log now sec in if leb (s.date + sec) now then 0 else s.n + rest

old_total :
    (log : List Slice) (bound now sec : ℕ)
    → Falls bound log
    → bound + sec ≤ now + 1
    → log_total log now sec ≡ 0
unfolding log_total
old_total [] bound now sec f h = refl
old_total (s ∷ log) bound now sec f h = ground (arith, old_total log s.date now sec f.2)

-- As many rounds as seconds asked for reach all that is recent enough.
walk_total-log_total :
    (rounds : ℕ) (log : List Slice) (bound now sec : ℕ)
    → Falls bound log
    → bound + sec ≤ now + 1 + rounds
    → walk_total rounds log now sec ≡ log_total log now sec
unfolding walk_total log_total
walk_total-log_total zero log bound now sec f h = sym (old_total log bound now sec f (omega arith))
walk_total-log_total (suc rounds) [] bound now sec f h = refl
walk_total-log_total (suc rounds) (s ∷ log) bound now sec f h =
    ground
      (arith, walk_total-log_total rounds log s.date now sec f.2, old_total log s.date now sec f.2)

previous-back :
    (newest j : ℕ)
    → newest < 60
    → j < 60
    → previous_index (index_back newest j) ≡ index_back newest (suc j)
unfolding index_back previous_index
previous-back newest j l k = ground arith

round_trip :
    (newest j : ℕ) → newest < 60 → j < 60 → (index_back newest (suc j) == newest) ≡ (j == 59)
unfolding index_back
round_trip newest j l k = ground arith

shifted : (j i : ℕ) → suc j + i ≡ j + suc i
shifted j i = omega arith

module _ (h : History) (newest_in : h.newest < 60) (now sec : ℕ) where
  loop_step :
      (rounds i n : ℕ)
      → get_loop (suc rounds) h now sec i n ≡ (
          if leb ((slice_at h i).date + sec) now
          then n
          else if previous_index i == h.newest
          then u32 (n + (slice_at h i).n)
          else get_loop rounds h now sec (previous_index i) (u32 (n + (slice_at h i).n)))
  unfolding get_loop
  loop_step rounds i n = refl

  walk_step :
      (rounds : ℕ) (s : Slice) (log : List Slice)
      → walk_total (suc rounds) (s ∷ log) now sec
        ≡ (if leb (s.date + sec) now then 0 else s.n + walk_total rounds log now sec)
  unfolding walk_total
  walk_step rounds s log = refl

  walk_nil : (rounds : ℕ) → walk_total rounds [] now sec ≡ 0
  unfolding walk_total
  walk_nil zero = refl
  walk_nil (suc rounds) = refl

  walk_none : (log : List Slice) → walk_total 0 log now sec ≡ 0
  unfolding walk_total
  walk_none log = refl

  loop_lem :
      (rounds j : ℕ) (log : List Slice) (n : ℕ)
      → suc rounds + j ≡ 60
      → n < 2 ^ 32
      → ((i : ℕ)
          → i < suc rounds
          → (slice_at h (index_back h.newest (j + i))).n ≡ u32 (get_or log i empty_slice).n)
      → ((i : ℕ)
          → i < suc rounds
          → (slice_at h (index_back h.newest (j + i))).date ≡ (get_or log i empty_slice).date)
      → get_loop (suc rounds) h now sec (index_back h.newest j) n
        ≡ u32 (n + walk_total (suc rounds) log now sec)
  loop_lem zero j [] n e small counts dates =
      let c = rw (add-zero j) at (counts 0 (omega arith)) in
      let back = round_trip h.newest j newest_in (omega arith) in
      ground (
        arith,
        c,
        back,
        previous-back h.newest j newest_in,
        loop_step 0 (index_back h.newest j) n,
        walk_nil 1,
      )
  loop_lem zero j (s ∷ log) n e small counts dates =
      let c = rw (add-zero j) at (counts 0 (omega arith)) in
      let d = rw (add-zero j) at (dates 0 (omega arith)) in
      let back = round_trip h.newest j newest_in (omega arith) in
      ground (
        arith,
        c,
        d,
        back,
        previous-back h.newest j newest_in,
        loop_step 0 (index_back h.newest j) n,
        walk_step 0 s log,
        walk_none log,
      )
  loop_lem (suc rounds) j [] n e small counts dates =
      let c = rw (add-zero j) at (counts 0 (omega arith)) in
      let back = round_trip h.newest j newest_in (omega arith) in
      let on = previous-back h.newest j newest_in (omega arith) in
      let rest =
        loop_lem rounds (suc j) [] n (omega arith) small
          (λ i l. rw (shifted j i) (counts (suc i) (omega arith)))
          (λ i l. rw (shifted j i) (dates (suc i) (omega arith))) in
      ground (
        arith,
        c,
        back,
        on,
        rest,
        loop_step (suc rounds) (index_back h.newest j) n,
        walk_nil (suc rounds),
        walk_nil (suc (suc rounds)),
      )
  loop_lem (suc rounds) j (s ∷ log) n e small counts dates =
      let c = rw (add-zero j) at (counts 0 (omega arith)) in
      let d = rw (add-zero j) at (dates 0 (omega arith)) in
      let back = round_trip h.newest j newest_in (omega arith) in
      let on = previous-back h.newest j newest_in (omega arith) in
      let rest =
        loop_lem rounds (suc j) log (u32 (n + (slice_at h (index_back h.newest j)).n)) (omega arith)
          (omega arith) (λ i l. rw (shifted j i) (counts (suc i) (omega arith)))
          (λ i l. rw (shifted j i) (dates (suc i) (omega arith))) in
      ground (
        arith,
        c,
        d,
        back,
        on,
        rest,
        loop_step (suc rounds) (index_back h.newest j) n,
        walk_step (suc rounds) s log,
      )

-- tr_historyGet for at most 60 seconds up to now answers, in an unsigned int, the sum of what was
-- added in those seconds, of all unsigned ints that were added to a zeroed history at positive
-- dates that do not fall and are at most now.
pub get-recent_total :
    (es : Events) (now sec : ℕ)
    → HappenedBy now es
    → sec ≤ 60
    → get (ring_of es) now sec ≡ u32 (recent_total es now sec)
unfolding get
get-recent_total es now sec happened short =
    let r = ring-Represents now es happened in
    let looped =
      loop_lem (ring_of es) r.inside now sec 59 0 (log_of es) 0 (omega arith) (omega arith)
        (λ i l. rw (zero-add i) (r.counts i l)) (λ i l. rw (zero-add i) (r.dates i l)) in
    let all =
      walk_total-log_total 60 (log_of es) (now + 1) now sec (log-Falls es now happened)
        (omega arith) in
    let sum : 0 + walk_total 60 (log_of es) now sec ≡ recent_total es now sec =
      omega (arith, all, total-log_of es now sec) in
    let start = rw (back-zero (ring_of es).newest r.inside) at looped in start ∙ ap (λ n. u32 n) sum
