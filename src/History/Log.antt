-- ===== src/History/Log.antt =====
-- The ring against a log of everything that happened.
use libtransmission.Prelude.{
  ℕ, zero, suc, ◌+◌, ◌-◌, ◌%◌, ◌^◌, ◌<◌, ◌≡◌, ◌≢◌, refl, ap, sym, ◌∙◌, arith, false, List, [], ◌∷◌,
  if◌then◌else◌, leb, ◌==◌, ==_iff, get_or, get_or-set, get_or-replicate, length-replicate, set,
  length, length-set, u32, ℕ_discrete,
}
use libtransmission.History.{Slice, History, empty_slice, zeroed, slice_at, next_index, add}

-- The seconds in which something happened, the latest first, with their exact counts.
unfoldable pub log_add : List Slice → ℕ → ℕ → List Slice
log_add [] now n = record { n = n; date = now } ∷ []
log_add (s ∷ log) now n =
    if s.date == now then record s { n = s.n + n } ∷ log else record { n = n; date = now } ∷ s ∷ log

-- The count of the last `sec` seconds.
unfoldable pub log_total : List Slice → ℕ → ℕ → ℕ
log_total [] now sec = 0
log_total (s ∷ log) now sec = (if leb (s.date + sec) now then 0 else s.n) + log_total log now sec

-- The dates fall, from below `bound` on, and are not 0.
abbrev pub Falls : ℕ → List Slice → Type 0
Falls bound [] = Unit {0}
Falls bound (s ∷ log) = (s.date < bound) × (0 < s.date) × Falls s.date log

-- The slot of the `j`th latest second.
unfoldable pub index_back : ℕ → ℕ → ℕ
index_back newest j = (newest + 60 - j) % 60

-- The ring holds the latest seconds of the log, with their counts in an `unsigned int`.
pub record Represents (h : History) (log : List Slice) : Type 0 where
  pub size : length h.slices ≡ 60
  pub inside : h.newest < 60
  pub counts :
      (j : ℕ) → j < 60 → (slice_at h (index_back h.newest j)).n ≡ u32 (get_or log j empty_slice).n
  pub dates :
      (j : ℕ) → j < 60 → (slice_at h (index_back h.newest j)).date ≡ (get_or log j empty_slice).date

pub zeroed-Represents : Represents zeroed []
unfolding zeroed index_back
zeroed-Represents = record {
  size = length-replicate 60 empty_slice;
  inside = omega arith;
  counts = λ j l. ground (arith, get_or-replicate 60 ((0 + 60 - j) % 60) empty_slice);
  dates = λ j l. ground (arith, get_or-replicate 60 ((0 + 60 - j) % 60) empty_slice);
}

back-lt : (newest j : ℕ) → index_back newest j < 60
unfolding index_back
back-lt newest j = omega arith

pub back-zero : (newest : ℕ) → newest < 60 → index_back newest 0 ≡ newest
unfolding index_back
back-zero newest l = omega arith

back_self : (newest j : ℕ) → newest < 60 → j < 60 → index_back newest j ≡ newest → j ≡ 0
unfolding index_back
back_self newest j l k e = omega arith

-- One slot further, every second is one further back.
back-next :
    (newest j : ℕ)
    → newest < 60
    → j < 59
    → index_back (next_index newest) (suc j) ≡ index_back newest j
unfolding index_back next_index
back-next newest j l k = ground arith

next-lt : (newest : ℕ) → newest < 60 → next_index newest < 60
unfolding next_index
next-lt newest l = ground arith

back-ne-next : (newest j : ℕ) → newest < 60 → j < 59 → index_back newest j ≢ next_index newest
unfolding index_back next_index
back-ne-next newest j l k e = ground arith

-- A slot after a write.
slice_set :
    (h : History) (m i j : ℕ) (v : Slice)
    → i < length h.slices
    → slice_at (record { newest = m; slices = set h.slices i v }) j
      ≡ (if i == j then v else slice_at h j)
slice_set h m i j v l = get_or-set h.slices i j v empty_slice l

module _ (h : History) (now n : ℕ) where
  same_slices :
      (slice_at h h.newest).date ≡ now
      → add h now n ≡ record h {
        slices =
            set h.slices h.newest
              (record (slice_at h h.newest) { n = u32 ((slice_at h h.newest).n + n) });
      }
  unfolding add
  same_slices e = rw ((==_iff (slice_at h h.newest).date now).1 e) refl

  fresh_slices :
      (slice_at h h.newest).date ≢ now
      → add h now n ≡ record {
        newest = next_index h.newest;
        slices = set h.slices (next_index h.newest) (record { n = n; date = now });
      }
  unfolding add
  fresh_slices ne = ground (arith, ne)

module _ (h : History) (log : List Slice) (r : Represents h log) (now n : ℕ)
    (small : n < 2 ^ 32) where
  abbrev fresh : History
  fresh = record {
    newest = next_index h.newest;
    slices = set h.slices (next_index h.newest) (record { n = n; date = now });
  }

  fresh_newest : slice_at fresh (index_back fresh.newest 0) ≡ record { n = n; date = now }
  fresh_newest = rw (back-zero fresh.newest (next-lt h.newest r.inside)) (
      slice_set h fresh.newest (next_index h.newest) (next_index h.newest) _
        (omega (arith, next-lt h.newest r.inside, r.size))
      ∙ rw ((==_iff (next_index h.newest) (next_index h.newest)).1 refl) refl)

  fresh_older :
      (j : ℕ)
      → j < 59
      → slice_at fresh (index_back fresh.newest (suc j)) ≡ slice_at h (index_back h.newest j)
  fresh_older j l = rw (back-next h.newest j r.inside l) (
      slice_set h fresh.newest (next_index h.newest) (index_back h.newest j) _
        (omega (arith, next-lt h.newest r.inside, r.size))
      ∙ ground (arith, back-ne-next h.newest j r.inside l))

  fresh_count :
      (j : ℕ)
      → j < 60
      → (slice_at fresh (index_back fresh.newest j)).n
        ≡ u32 (get_or (record { n = n; date = now } ∷ log) j empty_slice).n
  fresh_count zero l = ap (λ s. s.n) fresh_newest ∙ omega arith
  fresh_count (suc j) l = ap (λ s. s.n) (fresh_older j (omega arith)) ∙ r.counts j (omega arith)

  fresh_date :
      (j : ℕ)
      → j < 60
      → (slice_at fresh (index_back fresh.newest j)).date
        ≡ (get_or (record { n = n; date = now } ∷ log) j empty_slice).date
  fresh_date zero l = ap (λ s. s.date) fresh_newest
  fresh_date (suc j) l = ap (λ s. s.date) (fresh_older j (omega arith)) ∙ r.dates j (omega arith)

  fresh-Represents : Represents fresh (record { n = n; date = now } ∷ log)
  fresh-Represents = record {
    size = length-set h.slices (next_index h.newest) _ ∙ r.size;
    inside = next-lt h.newest r.inside;
    counts = fresh_count;
    dates = fresh_date;
  }

module _ (h : History) (s : Slice) (log : List Slice) (r : Represents h (s ∷ log)) (n : ℕ) where
  abbrev here : Slice
  here = slice_at h h.newest

  abbrev same : History
  same = record h { slices = set h.slices h.newest (record here { n = u32 (here.n + n) }) }

  here_back : slice_at h (index_back h.newest 0) ≡ here
  here_back = ap (slice_at h) (back-zero h.newest r.inside)

  same_slice :
      (j : ℕ)
      → slice_at same (index_back h.newest j) ≡ (
          if h.newest == index_back h.newest j
          then record here { n = u32 (here.n + n) }
          else slice_at h (index_back h.newest j))
  same_slice j =
      slice_set h h.newest h.newest (index_back h.newest j) _ (omega (arith, r.inside, r.size))

  same_newest : slice_at same (index_back h.newest 0) ≡ record here { n = u32 (here.n + n) }
  same_newest =
      same_slice 0
      ∙ rw ((==_iff h.newest (index_back h.newest 0)).1 (sym (back-zero h.newest r.inside))) refl

  same_older :
      (j : ℕ)
      → suc j < 60
      → slice_at same (index_back h.newest (suc j)) ≡ slice_at h (index_back h.newest (suc j))
  same_older j l = same_slice (suc j) ∙ ground (arith, back_self h.newest (suc j) r.inside l)

  same_count :
      (j : ℕ)
      → j < 60
      → (slice_at same (index_back h.newest j)).n
        ≡ u32 (get_or (record s { n = s.n + n } ∷ log) j empty_slice).n
  same_count zero l =
      ap (λ x. x.n) same_newest ∙ omega (arith, ap (λ x. x.n) here_back, r.counts 0 l)
  same_count (suc j) l = ap (λ x. x.n) (same_older j l) ∙ r.counts (suc j) l

  same_date :
      (j : ℕ)
      → j < 60
      → (slice_at same (index_back h.newest j)).date
        ≡ (get_or (record s { n = s.n + n } ∷ log) j empty_slice).date
  same_date zero l = ap (λ x. x.date) same_newest ∙ ap (λ x. x.date) (sym here_back) ∙ r.dates 0 l
  same_date (suc j) l = ap (λ x. x.date) (same_older j l) ∙ r.dates (suc j) l

  same-Represents : Represents same (record s { n = s.n + n } ∷ log)
  same-Represents = record {
    size = length-set h.slices h.newest _ ∙ r.size;
    inside = r.inside;
    counts = same_count;
    dates = same_date;
  }

pub add-Represents :
    (h : History) (log : List Slice) (now n : ℕ)
    → Represents h log
    → 0 < now
    → n < 2 ^ 32
    → Represents (add h now n) (log_add log now n)
unfolding log_add
add-Represents h [] now n r lo small =
    let start = r.dates 0 (omega arith) in
    rw
      (fresh_slices h now n
        (λ e. omega (arith, ap (λ x. (slice_at h x).date) (back-zero h.newest r.inside), start)))
      (fresh-Represents h [] r now n small)
add-Represents h (s ∷ log) now n r lo small =
    let start : (slice_at h h.newest).date ≡ s.date =
      ap (λ x. x.date) (sym (here_back h s log r n)) ∙ r.dates 0 (omega arith) in
    elim (ℕ_discrete s.date now) [
      | yes e ↦
          rw (same_slices h now n (start ∙ e), (==_iff s.date now).1 e)
            (same-Represents h s log r n)
      | no ne ↦
          let other : (s.date == now) ≡ false = ground (arith, ne) in
          rw (fresh_slices h now n (λ e. ne (sym start ∙ e)), other)
            (fresh-Represents h (s ∷ log) r now n small)
    ]
