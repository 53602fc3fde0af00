-- ===== src/Bandwidth/Limits.antt =====
-- What a clamped transfer leaves of the limits.
use libtransmission.Prelude.{
  ℕ, ◌+◌, ◌≤◌, ◌≡◌, refl, arith, min, true, false, ◌&&◌, List, [], ◌∷◌, ltb, Bool-cases, inl, inr,
}
use libtransmission.Bandwidth.{
  Direction, up, down, Bandwidth, band, set_band, Doubles, slow_down, limit_bytes, clamp, used,
  used_band,
}

-- A count is within each limit up the tree, as far as the limits are honored.
abbrev pub Within : ℕ → Direction → List Bandwidth → Type 0
Within n dir [] = Unit {0}
Within n dir (b ∷ parents) =
    ((band b dir).is_limited ≡ true → n ≤ (band b dir).bytes_left)
    × ((band b dir).honor_parent_limits ≡ true → Within n dir parents)

-- What is left of each of these limits after a transfer of the count: less by exactly the count.
abbrev pub Charged : ℕ → Direction → List Bandwidth → List Bandwidth → Type 0
Charged n dir [] after = Unit {0}
Charged n dir (b ∷ parents) [] = ⊥
Charged n dir (b ∷ parents) (b' ∷ parents') =
    ((band b dir).is_limited ≡ true → (band b' dir).bytes_left + n ≡ (band b dir).bytes_left)
    × ((band b dir).honor_parent_limits ≡ true → Charged n dir parents parents')

Within-zero : (dir : Direction) (bs : List Bandwidth) → Within 0 dir bs
Within-zero dir [] = tt
Within-zero dir (b ∷ parents) = ((λ _. omega arith), λ _. Within-zero dir parents)

Within-same :
    (m k : ℕ) (dir : Direction) (bs : List Bandwidth) → m ≡ k → Within k dir bs → Within m dir bs
Within-same m k dir bs same w = rw same w

used_left :
    (b : Bandwidth) (dir : Direction) (n now : ℕ)
    → (band b dir).is_limited ≡ true
    → n ≤ (band b dir).bytes_left
    → (band (set_band b dir (used_band (band b dir) n true now)) dir).bytes_left + n
      ≡ (band b dir).bytes_left
unfolding used_band
used_left b up n now limited le = ground arith
used_left b down n now limited le = ground arith

used-Charged :
    (n : ℕ) (dir : Direction) (bs : List Bandwidth) (now : ℕ)
    → Within n dir bs
    → Charged n dir bs (used bs dir n true now)
unfolding used
used-Charged n dir [] now w = tt
used-Charged n dir (b ∷ parents) now w = (
  (λ limited. used_left b dir n now limited (w.0 limited)),
  λ honored. used-Charged n dir parents now (w.1 honored),
)

clamp_on :
    (d : Doubles) (b : Bandwidth) (parents : List Bandwidth) (now : ℕ) (dir : Direction) (n : ℕ)
    → ((band b dir).honor_parent_limits && ltb 0 (limit_bytes d b now dir n)) ≡ true
    → clamp d (b ∷ parents) now dir n ≡ clamp d parents now dir (limit_bytes d b now dir n)
unfolding clamp
clamp_on d b parents now dir n e = rw e refl

clamp_off :
    (d : Doubles) (b : Bandwidth) (parents : List Bandwidth) (now : ℕ) (dir : Direction) (n : ℕ)
    → ((band b dir).honor_parent_limits && ltb 0 (limit_bytes d b now dir n)) ≡ false
    → clamp d (b ∷ parents) now dir n ≡ limit_bytes d b now dir n
unfolding clamp
clamp_off d b parents now dir n e = rw e refl

module _ (d : Doubles)
    (shrinks : (tenths : ℕ) → tenths ≤ 10 → (n : ℕ) → d.times_tenths tenths n ≤ n) where
  limit_bytes-le :
      (b : Bandwidth) (now : ℕ) (dir : Direction) (n : ℕ)
      → (limit_bytes d b now dir n ≤ n)
        × ((band b dir).is_limited ≡ true → limit_bytes d b now dir n ≤ (band b dir).bytes_left)
  unfolding limit_bytes slow_down
  limit_bytes-le b now dir n =
      let left = min n (band b dir).bytes_left in
      (
        ground (arith, shrinks 8 (omega arith) left, shrinks 9 (omega arith) left),
        λ limited. ground (arith, shrinks 8 (omega arith) left, shrinks 9 (omega arith) left),
      )

  clamp-le : (bs : List Bandwidth) (now : ℕ) (dir : Direction) (n : ℕ) → clamp d bs now dir n ≤ n
  unfolding clamp
  clamp-le [] now dir n = omega arith
  clamp-le (b ∷ parents) now dir n =
      ground
        (arith, limit_bytes-le b now dir n, clamp-le parents now dir (limit_bytes d b now dir n))

  clamp-Within :
      (bs : List Bandwidth) (now : ℕ) (dir : Direction) (n : ℕ)
      → Within (clamp d bs now dir n) dir bs
  clamp-Within [] now dir n = tt
  clamp-Within (b ∷ parents) now dir n =
      let n' = limit_bytes d b now dir n in
      let (le, left) = limit_bytes-le b now dir n in
      elim (Bool-cases ((band b dir).honor_parent_limits && ltb 0 n')) [
        | inl e ↦ Within-same _ _ dir (b ∷ parents) (clamp_on d b parents now dir n e) (
          (λ limited. omega (arith, left limited, clamp-le parents now dir n')),
          λ _. clamp-Within parents now dir n',
        )
        | inr e ↦ Within-same _ _ dir (b ∷ parents) (clamp_off d b parents now dir n e) (
          left,
          λ honored.
              let none_left : n' ≡ 0 = ground arith in
              Within-same _ _ dir parents none_left (Within-zero dir parents),
        )
      ]

  -- For arithmetic in which a part of a count is at most the count, what tr_bandwidthClamp
  -- allows is at most what was asked for, and tr_bandwidthUsed of it as piece data takes
  -- exactly that much off every limit up the tree, as far as the limits are honored.
  pub clamp-Charged :
      (bs : List Bandwidth) (now : ℕ) (dir : Direction) (n later : ℕ)
      → (clamp d bs now dir n ≤ n)
        × Charged (clamp d bs now dir n) dir bs (used bs dir (clamp d bs now dir n) true later)
  clamp-Charged bs now dir n later = (
    clamp-le bs now dir n,
    used-Charged (clamp d bs now dir n) dir bs later (clamp-Within bs now dir n),
  )
