-- ===== src/Bitfield/Ranges/Remove.antt =====
-- `tr_bitfieldRemRange`.
use libtransmission.Prelude.{
  ℕ, ◌+◌, ◌-◌, ◌^◌, ◌≤◌, ◌<◌, ◌≡◌, ◌≢◌, refl, arith, false, ltb, leb, ◌==◌, ◌||◌, ◌&&◌, not,
  ℕ_discrete, u32, u64, sub64, count_from, count_from-le, count_from_zero, count_from_const_on,
}
use libtransmission.Bitfield.{Bitfield, has, count_true_bits, count_range}
use libtransmission.Bitfield.View.{bit_at}
use libtransmission.Bitfield.Inv.{HasArray, IsValid, true_count-le}
use libtransmission.Bitfield.Queries.{count_true_bits-eq-count_from, count_range-eq-count_from}
use libtransmission.Bitfield.Settle.{Becomes, inc_true_count-Becomes}
use libtransmission.Bitfield.Grow.{Grows, ensure_nth_bit_alloced-eq, ensure_bits_alloced-Grows}
use libtransmission.Bitfield.Range.{within}
use libtransmission.Bitfield.Range.Wipe.{
  bit_at-rem_range_bits, rem_range_bits-IsBytes, length-rem_range_bits,
}
use libtransmission.Bitfield.Update.{
  ensure_bits_alloced, inc_true_count, int_to_size, rem_range, rem_range_bits,
}
use libtransmission.Bitfield.Ranges.{count_outside}

module _ {b : Bitfield} (v : IsValid b) (begin end : ℕ) (ordered : begin < end)
    (inside : end ≤ b.bit_count) where
  abbrev grown : Bitfield
  grown = ensure_bits_alloced b (end - 1 + 1)

  abbrev wiped : Bitfield
  wiped = record grown { bits = rem_range_bits grown.bits begin (end - 1) }

  grown-Grows : Grows b grown (end - 1)
  grown-Grows = ensure_bits_alloced-Grows v (end - 1) (omega arith)

  wiped-HasArray : HasArray wiped
  wiped-HasArray =
      let g = grown-Grows in
      let le : begin ≤ end - 1 = omega arith in
      record {
        sized =
            rw (length-rem_range_bits grown.bits begin (end - 1) g.array.bytes le g.room)
              g.array.sized;
        bytes = rem_range_bits-IsBytes grown.bits begin (end - 1) g.array.bytes le g.room;
        known = g.array.known;
        small = g.array.small;
        fits = g.array.fits;
        excess = λ m h. ground (
          arith,
          g.width,
          g.array.excess m h,
          bit_at-rem_range_bits grown.bits begin (end - 1) g.array.bytes le g.room m,
        );
      }

  wiped-bit_at :
      (m : ℕ) → m < b.bit_count → bit_at wiped.bits m ≡ (not (within begin (end - 1) m) && has b m)
  wiped-bit_at m h =
      let g = grown-Grows in
      ground (
        arith,
        g.same m h,
        bit_at-rem_range_bits grown.bits begin (end - 1) g.array.bytes (omega arith) g.room m,
      )

  wiped_count :
      count_from (bit_at wiped.bits) 0 b.bit_count + count_range b begin end ≡ b.true_count
  unfolding count_true_bits
  wiped_count =
      let none : count_from (bit_at wiped.bits) begin (end - begin) ≡ 0 =
        count_from_const_on (bit_at wiped.bits) false begin (end - begin)
          λ i h. ground (arith, wiped-bit_at (begin + i) (omega arith)) in
      omega (
        arith,
        none,
        count_outside (has b) (bit_at wiped.bits) begin end b.bit_count ordered inside
            (λ m h out. ground (arith, wiped-bit_at m h)),
        count_true_bits-eq-count_from v,
        count_range-eq-count_from v begin end ordered inside,
      )

  count_range-le : count_range b begin end ≤ end - begin
  count_range-le =
      rw (count_range-eq-count_from v begin end ordered inside)
        (count_from-le (has b) begin (end - begin))

  -- the branches of `tr_bitfieldRemRange` that a range within the bitfield can take
  rem_range-empty : count_range b begin end ≡ 0 → rem_range b begin end ≡ b
  unfolding rem_range
  rem_range-empty h = ground (arith, h)

  rem_range-wipes :
      count_range b begin end ≢ 0
      → rem_range b begin end ≡ inc_true_count wiped (2 ^ 32 - count_range b begin end)
  unfolding rem_range
  rem_range-wipes h =
      let small = v.array.small in
      let last : sub64 end 1 ≡ end - 1 = omega arith in
      let diff : u32 (sub64 0 (count_range b begin end)) ≡ 2 ^ 32 - count_range b begin end =
        omega (arith, count_range-le) in
      let more : (count_range b begin end == 0) ≡ false = ground arith in
      let within_bounds : (leb b.bit_count (end - 1) || ltb (end - 1) begin) ≡ false =
        ground arith in
      rw (diff, last, ensure_nth_bit_alloced-eq v (end - 1) (omega arith), more, within_bounds)

  wiped_total :
      count_range b begin end ≢ 0
      → u64 (grown.true_count + int_to_size (2 ^ 32 - count_range b begin end))
        ≡ count_from (bit_at wiped.bits) 0 wiped.bit_count
  unfolding int_to_size
  wiped_total ne =
      let small = v.array.small in
      ground
        (arith, wiped_count, grown-Grows.count, grown-Grows.width, count_range-le, true_count-le v)

  -- Removing a nonempty range within `bit_count` keeps the bitfield valid, makes `tr_bitfieldHas`
  -- reject every index of the range and changes no other.
  pub rem_range-Becomes :
      Becomes b (rem_range b begin end) (λ m. not (within begin (end - 1) m) && has b m)
  rem_range-Becomes = elim (ℕ_discrete (count_range b begin end) 0) [
    | yes empty ↦ rw (rem_range-empty empty) (record {
      valid = v;
      width = refl;
      holds = λ m h. ground (
        arith,
        empty,
        count_range-eq-count_from v begin end ordered inside,
        count_from_zero (has b) begin (end - begin) m,
      );
    })
    | no some_held ↦ rw (rem_range-wipes some_held) (
        inc_true_count-Becomes wiped-HasArray (2 ^ 32 - count_range b begin end)
          (wiped_total some_held) grown-Grows.width wiped-bit_at)
  ]
