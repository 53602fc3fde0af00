-- ===== src/Completion/Sizes.antt =====
-- The number of bytes of the blocks that satisfy a test.
use Prim.Native.Nat.add
use native.Mathlib.Nat.{add-zero}
use libtransmission.Prelude.{
  ℕ, zero, suc, ◌+◌, ◌-◌, ◌≤◌, ◌<◌, ◌≡◌, ◌≢◌, refl, arith, Bool, true, false, if◌then◌else◌,
  ℕ_discrete,
}

module _ (size : ℕ → ℕ) where
  -- The sum of `size i` for the `i` with `start ≤ i < start + n` and `p i`.
  unfoldable pub sum_from : (ℕ → Bool) → ℕ → ℕ → ℕ
  sum_from p start zero = 0
  sum_from p start (suc n) = (if p start then size start else 0) + sum_from p (start + 1) n

  pub sum_from-add :
      (p : ℕ → Bool) (s m n : ℕ) → sum_from p s (m + n) ≡ sum_from p s m + sum_from p (s + m) n
  unfolding sum_from
  sum_from-add p s zero n = rw (add.zero n, add-zero s) (omega arith)
  sum_from-add p s (suc m) n = rw add.suc (ground (arith, sum_from-add p (s + 1) m n))

  -- Tests that agree on the range have the same sum.
  pub sum_from_same :
      (p q : ℕ → Bool) (s n : ℕ)
      → ((i : ℕ) → s ≤ i → i < s + n → p i ≡ q i)
      → sum_from p s n ≡ sum_from q s n
  unfolding sum_from
  sum_from_same p q s zero h = refl
  sum_from_same p q s (suc n) h = ground (
    arith,
    h s (omega arith) (omega arith),
    sum_from_same p q (s + 1) n (λ i a b. h i (omega arith) (omega arith)),
  )

  -- More indices have a greater sum.
  pub sum_from-le : (p : ℕ → Bool) (s n : ℕ) → sum_from p s n ≤ sum_from (λ _. true) s n
  unfolding sum_from
  sum_from-le p s zero = omega arith
  sum_from-le p s (suc n) = ground (arith, sum_from-le p (s + 1) n)

  pub sum_from_none : (s n : ℕ) → sum_from (λ _. false) s n ≡ 0
  unfolding sum_from
  sum_from_none s zero = refl
  sum_from_none s (suc n) = ground (arith, sum_from_none (s + 1) n)

  -- Two tests that differ at `k` alone, which lies in the range.
  pub sum_from_flip :
      (p q : ℕ → Bool) (k s n : ℕ)
      → s ≤ k
      → k < s + n
      → p k ≡ false
      → q k ≡ true
      → ((i : ℕ) → s ≤ i → i < s + n → i ≢ k → p i ≡ q i)
      → sum_from q s n ≡ sum_from p s n + size k
  unfolding sum_from
  sum_from_flip p q k s zero lo hi pk qk h = absurd (omega arith)
  sum_from_flip p q k s (suc n) lo hi pk qk h = elim (ℕ_discrete s k) [
    | yes e ↦
        let rest =
          sum_from_same p q (s + 1) n (λ i a b. h i (omega arith) (omega arith) (omega arith)) in
        ground (arith, rest)
    | no ne ↦ ground (
      arith,
      h s (omega arith) (omega arith) ne,
      sum_from_flip p q k (s + 1) n (omega arith) (omega arith) pk qk
          (λ i a b. h i (omega arith) (omega arith)),
    )
  ]

  -- A range summed in three parts.
  sum_from_three :
      (p : ℕ → Bool) (s t u a m z n : ℕ)
      → n ≡ a + (m + z)
      → t ≡ s + a
      → u ≡ t + m
      → sum_from p s n ≡ sum_from p s a + sum_from p t m + sum_from p u z
  sum_from_three p s t u a m z n whole at_t at_u =
      rw (whole, at_u, at_t) (omega (arith, sum_from-add p s a (m + z), sum_from-add p (s + a) m z))

  -- What is left of a sum when a range within it is taken out.
  pub sum_from_outside :
      (p q : ℕ → Bool) (s n total : ℕ)
      → s + n ≤ total
      → ((i : ℕ) → i < s → q i ≡ p i)
      → ((i : ℕ) → s ≤ i → i < s + n → q i ≡ false)
      → ((i : ℕ) → s + n ≤ i → i < total → q i ≡ p i)
      → sum_from q 0 total + sum_from p s n ≡ sum_from p 0 total
  sum_from_outside p q s n total inside before within after =
      let z = total - (s + n) in
      omega (
        arith,
        sum_from_three p 0 s (s + n) s n z total (omega arith) (omega arith) refl,
        sum_from_three q 0 s (s + n) s n z total (omega arith) (omega arith) refl,
        sum_from_same q p 0 s (λ i lo hi. before i (omega arith)),
        sum_from_same q (λ _. false) s n within,
        sum_from_none s n,
        sum_from_same q p (s + n) z (λ i lo hi. after i (omega arith) (omega arith)),
      )
