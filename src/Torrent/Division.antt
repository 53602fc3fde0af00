-- ===== src/Torrent/Division.antt =====
-- Sizes cut into parts of a given size, the last of them shorter or full.
use native.Mathlib.Nat.{mod-lt, div-add-mod, div-eq_of_lt-le, add-mul, one-mul, mul_comm}
use native.Mathlib.Numerals.{add-one}
use libtransmission.Prelude.{
  ℕ, zero, suc, ◌+◌, ◌-◌, ◌*◌, ◌/◌, ◌%◌, ◌≤◌, ◌<◌, ◌≡◌, ◌≢◌, refl, arith, if◌then◌else◌, ◌==◌,
  ℕ_discrete,
}

pub suc_mul : (q d : ℕ) → (q + 1) * d ≡ q * d + d
suc_mul q d = rw add-mul (rw one-mul refl)

pub pred_mul : (q d : ℕ) → 0 < q → (q - 1) * d + d ≡ q * d
pred_mul zero d l = absurd (omega arith)
pred_mul (suc q) d l = let e : suc q - 1 ≡ q = omega arith in cc (suc_mul q d, add-one q, e)

pub quotient : (n d q : ℕ) → q * d ≤ n → n < q * d + d → n / d ≡ q
quotient n d q le l = div-eq_of_lt-le d le (rw suc_mul l)

module _ (n d : ℕ) (pos : 0 < d) (some_size : 0 < n) where
  n_split : n / d * d + n % d ≡ n
  n_split = rw (mul_comm (n / d) d) (div-add-mod n d)

  rest_lt : n % d < d
  rest_lt = mod-lt n pos

  unfoldable pub last_part : ℕ
  last_part = if n % d == 0 then d else n % d

  pub last_part_bounds : (0 < last_part) × (last_part ≤ d)
  unfolding last_part
  last_part_bounds = ground (arith, rest_lt)

  parts_whole : n % d ≡ 0 → (n + d - 1) / d ≡ n / d
  parts_whole z = quotient (n + d - 1) d (n / d) (omega (arith, n_split)) (omega (arith, n_split))

  parts_rest : n % d ≢ 0 → (n + d - 1) / d ≡ n / d + 1
  parts_rest nz =
      quotient (n + d - 1) d (n / d + 1) (rw suc_mul (omega (arith, n_split, rest_lt)))
        (rw suc_mul (omega (arith, n_split, rest_lt)))

  unfoldable pub parts : ℕ
  parts = (n + d - 1) / d

  quotient_zero : n / d ≡ 0 → n % d ≡ n
  quotient_zero z = let e = rw z at n_split in omega arith

  pub parts_sum : (parts - 1) * d + last_part ≡ n
  unfolding parts last_part
  parts_sum = elim (ℕ_discrete (n % d) 0) [
    | yes z ↦ ground (arith, parts_whole z, n_split, pred_mul (n / d) d, quotient_zero)
    | no nz ↦ ground (arith, parts_rest nz, n_split)
  ]

  pub parts_pos : 0 < parts
  unfolding parts
  parts_pos = elim (ℕ_discrete (n % d) 0) [
    | yes z ↦ ground (arith, parts_whole z, n_split, quotient_zero)
    | no nz ↦ ground (arith, parts_rest nz)
  ]
