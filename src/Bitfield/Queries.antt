-- ===== src/Bitfield/Queries.antt =====
-- What the queries of src/bitfield.c answer, in terms of `tr_bitfieldHas`.
use libtransmission.Prelude.{ℕ, ◌-◌, ◌≤◌, ◌<◌, ◌≡◌, refl, arith, true, dec_lt, sub64, count_from}
use libtransmission.Bitfield.{Bitfield, has, has_all, has_none, count_true_bits, count_range}
use libtransmission.Bitfield.Count.{count_bits_in_range-eq}
use libtransmission.Bitfield.Inv.{IsValid, count_from-has_allocated, count_from-has_unallocated}

-- A full bitfield has every index.
pub has_of_all : (b : Bitfield) (n : ℕ) → has_all b ≡ true → has b n ≡ true
unfolding has
has_of_all b n h = rw h refl

module _ {b : Bitfield} (v : IsValid b) where
  -- The stored number of true bits is the number of indices below `bit_count` that `tr_bitfieldHas`
  -- accepts.
  pub count_true_bits-eq-count_from : count_true_bits b ≡ count_from (has b) 0 b.bit_count
  unfolding count_true_bits
  count_true_bits-eq-count_from = elim (dec_lt 0 b.alloc_count) [
    | yes p ↦ ground (arith, v.counted p, count_from-has_allocated v 0 b.bit_count p)
    | no p ↦ ground (
      arith,
      v.array.known,
      v.uniform (omega arith),
      count_from-has_unallocated v 0 b.bit_count (omega arith),
    )
  ]

  -- `tr_bitfieldCountRange` counts the indices of a range that `tr_bitfieldHas` accepts, for a
  -- nonempty range within `bit_count`.
  pub count_range-eq-count_from :
      (begin end : ℕ)
      → begin < end
      → end ≤ b.bit_count
      → count_range b begin end ≡ count_from (has b) begin (end - begin)
  unfolding count_range has_all has_none
  count_range-eq-count_from begin end h k =
      let known = v.array.known in
      let small = v.array.small in
      let all : sub64 end begin ≡ end - begin = omega arith in
      elim (dec_lt 0 b.alloc_count) [
        | yes p ↦ ground (
          arith,
          v.partial p,
          count_bits_in_range-eq b v.array.bytes begin end h (omega arith) known v.array.sized,
          count_from-has_allocated v begin (end - begin) p,
        )
        | no p ↦ ground (
          arith,
          all,
          v.uniform (omega arith),
          count_from-has_unallocated v begin (end - begin) (omega arith),
        )
      ]
