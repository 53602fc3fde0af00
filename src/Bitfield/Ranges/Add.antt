-- ===== src/Bitfield/Ranges/Add.antt =====
-- `tr_bitfieldAddRange`.
use libtransmission.Prelude.{
  ℕ, ◌+◌, ◌-◌, ◌≤◌, ◌<◌, ◌≡◌, ◌≢◌, refl, arith, true, false, ltb, leb, ◌==◌, ◌||◌, ℕ_discrete, u32,
  u64, sub64, count_from, count_from-le, count_from_all, count_from_const_on,
}
use libtransmission.Bitfield.{Bitfield, has, count_true_bits, count_range}
use libtransmission.Bitfield.View.{bit_at}
use libtransmission.Bitfield.Inv.{HasArray, IsValid, true_count-le}
use libtransmission.Bitfield.Queries.{count_true_bits-eq-count_from, count_range-eq-count_from}
use libtransmission.Bitfield.Settle.{Becomes, inc_true_count-Becomes}
use libtransmission.Bitfield.Grow.{Grows, ensure_nth_bit_alloced-eq, ensure_bits_alloced-Grows}
use libtransmission.Bitfield.Range.{within}
use libtransmission.Bitfield.Range.Fill.{
  bit_at-add_range_bits, add_range_bits-IsBytes, length-add_range_bits,
}
use libtransmission.Bitfield.Update.{
  ensure_bits_alloced, inc_true_count, int_to_size, add_range, add_range_bits,
}
use libtransmission.Bitfield.Ranges.{count_outside}

module _ {b : Bitfield} (v : IsValid b) (begin end : ℕ) (ordered : begin < end)
    (inside : end ≤ b.bit_count) where
  abbrev grown : Bitfield
  grown = ensure_bits_alloced b (end - 1 + 1)

  abbrev filled : Bitfield
  filled = record grown { bits = add_range_bits grown.bits begin (end - 1) }

  grown-Grows : Grows b grown (end - 1)
  grown-Grows = ensure_bits_alloced-Grows v (end - 1) (omega arith)

  filled-HasArray : HasArray filled
  filled-HasArray =
      let g = grown-Grows in
      let le : begin ≤ end - 1 = omega arith in
      record {
        sized =
            rw (length-add_range_bits grown.bits begin (end - 1) g.array.bytes le g.room)
              g.array.sized;
        bytes = add_range_bits-IsBytes grown.bits begin (end - 1) g.array.bytes le g.room;
        known = g.array.known;
        small = g.array.small;
        fits = g.array.fits;
        excess = λ m h. ground (
          arith,
          g.width,
          g.array.excess m h,
          bit_at-add_range_bits grown.bits begin (end - 1) g.array.bytes le g.room m,
        );
      }

  filled-bit_at :
      (m : ℕ) → m < b.bit_count → bit_at filled.bits m ≡ (within begin (end - 1) m || has b m)
  filled-bit_at m h =
      let g = grown-Grows in
      ground (
        arith,
        g.same m h,
        bit_at-add_range_bits grown.bits begin (end - 1) g.array.bytes (omega arith) g.room m,
      )

  filled_count :
      count_from (bit_at filled.bits) 0 b.bit_count + count_range b begin end
      ≡ b.true_count + (end - begin)
  unfolding count_true_bits
  filled_count =
      let ones : count_from (bit_at filled.bits) begin (end - begin) ≡ end - begin =
        count_from_const_on (bit_at filled.bits) true begin (end - begin)
          λ i h. ground (arith, filled-bit_at (begin + i) (omega arith)) in
      omega (
        arith,
        ones,
        count_outside (has b) (bit_at filled.bits) begin end b.bit_count ordered inside
            (λ m h out. ground (arith, filled-bit_at m h)),
        count_true_bits-eq-count_from v,
        count_range-eq-count_from v begin end ordered inside,
      )

  count_range-le : count_range b begin end ≤ end - begin
  count_range-le =
      rw (count_range-eq-count_from v begin end ordered inside)
        (count_from-le (has b) begin (end - begin))

  -- the three branches of `tr_bitfieldAddRange` that a range within the bitfield can take
  add_range-full : count_range b begin end ≡ end - begin → add_range b begin end ≡ b
  unfolding add_range
  add_range-full h =
      let small = v.array.small in
      let none : sub64 (sub64 end begin) (count_range b begin end) ≡ 0 = omega arith in
      ground (arith, none)

  add_range-fills :
      count_range b begin end ≢ end - begin
      → add_range b begin end ≡ inc_true_count filled (end - begin - count_range b begin end)
  unfolding add_range
  add_range-fills h =
      let small = v.array.small in
      let diff : sub64 (sub64 end begin) (count_range b begin end)
          ≡ end - begin - count_range b begin end =
        omega (arith, count_range-le) in
      let last : sub64 end 1 ≡ end - 1 = omega arith in
      let fits : u32 (end - begin - count_range b begin end)
          ≡ end - begin - count_range b begin end =
        omega arith in
      let more : (end - begin - count_range b begin end == 0) ≡ false =
        ground (arith, count_range-le) in
      let within_bounds : (leb b.bit_count (end - 1) || ltb (end - 1) begin) ≡ false =
        ground arith in
      rw
        (diff, last, ensure_nth_bit_alloced-eq v (end - 1) (omega arith), more, within_bounds, fits)

  filled_total :
      u64 (grown.true_count + int_to_size (end - begin - count_range b begin end))
      ≡ count_from (bit_at filled.bits) 0 filled.bit_count
  unfolding int_to_size
  filled_total =
      let small = v.array.small in
      ground
        (arith, filled_count, grown-Grows.count, grown-Grows.width, count_range-le, true_count-le v)

  -- Adding a nonempty range within `bit_count` keeps the bitfield valid, makes `tr_bitfieldHas` accept
  -- every index of the range and changes no other.
  pub add_range-Becomes :
      Becomes b (add_range b begin end) (λ m. within begin (end - 1) m || has b m)
  add_range-Becomes = elim (ℕ_discrete (count_range b begin end) (end - begin)) [
    | yes full ↦ rw (add_range-full full) (record {
      valid = v;
      width = refl;
      holds = λ m h. ground (
        arith,
        full,
        count_range-eq-count_from v begin end ordered inside,
        count_from_all (has b) begin (end - begin) m,
      );
    })
    | no part ↦ rw (add_range-fills part) (
        inc_true_count-Becomes filled-HasArray (end - begin - count_range b begin end) filled_total
          grown-Grows.width filled-bit_at)
  ]
