-- ===== src/Bitfield/Inv.antt =====
-- The representation invariant of `tr_bitfield`, for a bitfield whose `bit_count` is known.
use libtransmission.Prelude.{
  ℕ, ◌+◌, ◌*◌, ◌/◌, ◌%◌, ◌^◌, ◌≤◌, ◌<◌, ◌≡◌, ◌≢◌, arith, sym, dec_lt, false, ◌⊎◌, ◌==◌,
  if◌then◌else◌, length, count_from, count_from_shift, count_from_const,
}
use libtransmission.Bitfield.{Bitfield, has, has_all, has_none, byte_at}
use libtransmission.Bitfield.Byte.{test_bit}
use libtransmission.Bitfield.View.{bit_at, bit_at_beyond, IsBytes}

-- The array is made of bytes, is no longer than `bit_count` needs, and has no bit beyond it.
pub record HasArray (b : Bitfield) : Type 0 where
  pub sized : length b.bits ≡ b.alloc_count
  pub bytes : IsBytes b.bits
  pub known : 0 < b.bit_count
  pub small : b.bit_count < 2 ^ 31
  pub fits : 8 * b.alloc_count < b.bit_count + 8
  pub excess : (n : ℕ) → b.bit_count ≤ n → bit_at b.bits n ≡ false

-- The array is kept only for a bitfield that is neither empty nor full, and then `true_count` counts it.
pub record IsValid (b : Bitfield) : Type 0 where
  pub array : HasArray b
  pub counted : 0 < b.alloc_count → b.true_count ≡ count_from (bit_at b.bits) 0 b.bit_count
  pub partial : 0 < b.alloc_count → (0 < b.true_count) × (b.true_count < b.bit_count)
  pub uniform : b.alloc_count ≡ 0 → (b.true_count ≡ 0) ⊎ (b.true_count ≡ b.bit_count)

-- `tr_bitfieldHas` reads the array of a bitfield that counts as neither empty nor full.
pub has_partial :
    {b : Bitfield} (n : ℕ)
    → HasArray b
    → b.true_count ≢ 0
    → b.true_count ≢ b.bit_count
    → has b n ≡ bit_at b.bits n
unfolding has has_all has_none byte_at
has_partial {b} n a h k = ground (
  arith,
  a.known,
  a.sized,
  bit_at_beyond b.bits n,
  test_bit (byte_at b (n / 8)) (n % 8) 0 (a.bytes (n / 8)) (omega arith) (omega arith),
)

module _ {b : Bitfield} (v : IsValid b) where
  -- `tr_bitfieldHas` while an array is kept.
  pub has_allocated : (n : ℕ) → 0 < b.alloc_count → has b n ≡ bit_at b.bits n
  has_allocated n h =
      has_partial n v.array (omega (arith, v.partial h)) (omega (arith, v.partial h))

  -- `tr_bitfieldHas` while none is.
  pub has_unallocated : (n : ℕ) → b.alloc_count ≡ 0 → has b n ≡ (b.true_count == b.bit_count)
  unfolding has has_all has_none
  has_unallocated n h = ground (arith, v.array.known, v.uniform h)

  pub count_from-has_allocated :
      (begin n : ℕ)
      → 0 < b.alloc_count
      → count_from (has b) begin n ≡ count_from (bit_at b.bits) begin n
  count_from-has_allocated begin n h =
      count_from_shift (has b) (bit_at b.bits) begin begin n (λ i _. has_allocated (begin + i) h)

  pub count_from-has_unallocated :
      (begin n : ℕ)
      → b.alloc_count ≡ 0
      → count_from (has b) begin n ≡ (if b.true_count == b.bit_count then n else 0)
  count_from-has_unallocated begin n h =
      count_from_const (has b) (b.true_count == b.bit_count) begin n (λ i. has_unallocated i h)

  -- Of a bitfield that is not full, the array tells all, also where there is none.
  pub has-bit_at : (n : ℕ) → b.true_count ≢ b.bit_count → bit_at b.bits n ≡ has b n
  has-bit_at n part = elim (dec_lt 0 b.alloc_count) [
    | yes p ↦ sym (has_allocated n p)
    | no p ↦ ground (arith, v.array.sized, bit_at_beyond b.bits n, has_unallocated n (omega arith))
  ]

  pub true_count-le : b.true_count ≤ b.bit_count
  true_count-le = elim (dec_lt 0 b.alloc_count) [
    | yes p ↦ omega (arith, v.partial p)
    | no p ↦ omega (arith, v.uniform (omega arith))
  ]
