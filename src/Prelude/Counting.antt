-- ===== src/Prelude/Counting.antt =====
-- How many indices of a range pass a test: the specification that the counting routines meet.
use Prim.Native.Nat.add
use native.Mathlib.Nat.{add-zero}
use native.Mathlib.Decide.{ℕ_discrete}
use Prim.Native.Nat.{ℕ, zero, suc, ◌+◌, ◌≤◌, ◌<◌}
use mathlib.Core.Path.{◌≡◌, refl, ◌∙◌}
use mathlib.Core.Logic.{◌≢◌}
use mathlib.Core.Bool.{Bool, true, false}
use native.Mathlib.Omega.{arith}
use libtransmission.Prelude.Tests.{bit, if◌then◌else◌}

-- The number of `i` with `start ≤ i < start + n` and `p i`.
unfoldable pub count_from : (ℕ → Bool) → ℕ → ℕ → ℕ
count_from p start zero = 0
count_from p start (suc n) = bit (p start) + count_from p (start + 1) n

pub count_from-add :
    (p : ℕ → Bool) (s m n : ℕ) → count_from p s (m + n) ≡ count_from p s m + count_from p (s + m) n
unfolding count_from
count_from-add p s zero n = rw (add.zero n, add-zero s) (omega arith)
count_from-add p s (suc m) n = rw add.suc (ground (arith, count_from-add p (s + 1) m n))

pub count_from-le : (p : ℕ → Bool) (s n : ℕ) → count_from p s n ≤ n
unfolding count_from
count_from-le p s zero = omega arith
count_from-le p s (suc n) = ground (arith, count_from-le p (s + 1) n)

-- Two tests that agree on the range (shifted by `t - s`) count alike.
pub count_from_shift :
    (p q : ℕ → Bool) (s t n : ℕ)
    → ((i : ℕ) → i < n → p (s + i) ≡ q (t + i))
    → count_from p s n ≡ count_from q t n
unfolding count_from
count_from_shift p q s t zero h = refl
count_from_shift p q s t (suc n) h = ground (
  arith,
  h 0 (omega arith),
  count_from_shift p q (s + 1) (t + 1) n (λ i hi. ground (arith, h (i + 1) (omega arith))),
)

-- A range counted in three parts.
pub count_from_three :
    (p : ℕ → Bool) (s t u a m z n : ℕ)
    → n ≡ a + (m + z)
    → t ≡ s + a
    → u ≡ t + m
    → count_from p s n ≡ count_from p s a + count_from p t m + count_from p u z
count_from_three p s t u a m z n size at_t at_u =
    rw (size, at_u, at_t)
      (omega (arith, count_from-add p s a (m + z), count_from-add p (s + a) m z))

pub count_from_none :
    (p : ℕ → Bool) (s n : ℕ) → ((i : ℕ) → s ≤ i → p i ≡ false) → count_from p s n ≡ 0
unfolding count_from
count_from_none p s zero h = refl
count_from_none p s (suc n) h =
    ground (arith, h s (omega arith), count_from_none p (s + 1) n (λ i hi. h i (omega arith)))

pub count_from_all :
    (p : ℕ → Bool) (s n i : ℕ) → count_from p s n ≡ n → s ≤ i → i < s + n → p i ≡ true
unfolding count_from
count_from_all p s zero i h lo hi = absurd (omega arith)
count_from_all p s (suc n) i h lo hi = elim (ℕ_discrete s i) [
  | yes e ↦ ground (arith, count_from-le p (s + 1) n)
  | no ne ↦
      count_from_all p (s + 1) n i (ground (arith, count_from-le p (s + 1) n)) (omega arith)
        (omega arith)
]

pub count_from_zero :
    (p : ℕ → Bool) (s n i : ℕ) → count_from p s n ≡ 0 → s ≤ i → i < s + n → p i ≡ false
unfolding count_from
count_from_zero p s zero i h lo hi = absurd (omega arith)
count_from_zero p s (suc n) i h lo hi = elim (ℕ_discrete s i) [
  | yes e ↦ ground arith
  | no ne ↦ count_from_zero p (s + 1) n i (ground arith) (omega arith) (omega arith)
]

-- A test that is constant from `s` on.
pub count_from_const :
    (p : ℕ → Bool) (c : Bool) (s n : ℕ)
    → ((i : ℕ) → p i ≡ c)
    → count_from p s n ≡ (if c then n else 0)
unfolding count_from
count_from_const p c s zero h = ground arith
count_from_const p c s (suc n) h = ground (arith, h s, count_from_const p c (s + 1) n h)

-- Two tests that differ at `k` alone, which lies in the range.
pub count_from_flip :
    (p q : ℕ → Bool) (k s n : ℕ)
    → s ≤ k
    → k < s + n
    → p k ≡ false
    → q k ≡ true
    → ((i : ℕ) → s ≤ i → i < s + n → i ≢ k → p i ≡ q i)
    → count_from q s n ≡ count_from p s n + 1
unfolding count_from
count_from_flip p q k s zero lo hi pk qk h = absurd (omega arith)
count_from_flip p q k s (suc n) lo hi pk qk h = elim (ℕ_discrete s k) [
  | yes e ↦
      let rest : count_from p (s + 1) n ≡ count_from q (s + 1) n =
        count_from_shift p q (s + 1) (s + 1) n
          λ i hi'. h (s + 1 + i) (omega arith) (omega arith) (omega arith) in
      ground (arith, rest)
  | no ne ↦ ground (
    arith,
    h s (omega arith) (omega arith) ne,
    count_from_flip p q k (s + 1) n (omega arith) (omega arith) pk qk
        (λ i a b. h i (omega arith) (omega arith)),
  )
]

-- A test that is constant on the range.
pub count_from_const_on :
    (p : ℕ → Bool) (c : Bool) (s n : ℕ)
    → ((i : ℕ) → i < n → p (s + i) ≡ c)
    → count_from p s n ≡ (if c then n else 0)
count_from_const_on p c s n h =
    count_from_shift p (λ _. c) s s n h ∙ count_from_const (λ _. c) c s n (λ _. refl)
