-- ===== src/Prelude/Bits.antt =====
-- Bytes: tables checked by evaluation over all 256 values, and what follows for every byte.
use Prim.Native.Nat.{ℕ, zero, suc, ◌-◌, ◌/◌, ◌%◌, ◌^◌, ◌<◌}
use mathlib.Core.Path.{◌≡◌}
use mathlib.Core.Bool.{Bool, true, false}
use native.Mathlib.Omega.{arith}
use libtransmission.Prelude.Tests.{◌==◌}

-- A test of the numbers from 0 up to a limit, which stops at the first that fails.
unfoldable pub check_upto : (ℕ → Bool) → ℕ → Bool
check_upto test zero = true
check_upto test (suc limit) = elim (test limit) [ true ↦ check_upto test limit | false ↦ false ]

pub check_upto-passes :
    (test : ℕ → Bool) (limit k : ℕ) → k < limit → check_upto test limit ≡ true → test k ≡ true
unfolding check_upto
check_upto-passes test zero k inside h = absurd (omega arith)
check_upto-passes test (suc limit) k inside h = ground (arith, check_upto-passes test limit k)

-- Every byte `x` and bit numbers `i`, `j`.
unfoldable pub all_bytes : (ℕ → ℕ → ℕ → Bool) → Bool
unfolding check_upto
all_bytes p = check_upto (λ x. check_upto (λ i. check_upto (p x i) 8) 8) 256

pub all_bytes_sound :
    (p : ℕ → ℕ → ℕ → Bool) (x i j : ℕ)
    → all_bytes p ≡ true
    → x < 256
    → i < 8
    → j < 8
    → p x i j ≡ true
unfolding all_bytes
all_bytes_sound p x i j h hx hi hj =
    let row = check_upto-passes (λ x. check_upto (λ i. check_upto (p x i) 8) 8) 256 x hx h in
    check_upto-passes (p x i) 8 j hj (check_upto-passes (λ i. check_upto (p x i) 8) 8 i hi row)

-- Bit `i` of a byte, the most significant first, as the BitTorrent bitfield numbers them.
abbrev pub bit_of : ℕ → ℕ → Bool
bit_of x i = x / 2 ^ (7 - i) % 2 == 1
