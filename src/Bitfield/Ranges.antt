-- ===== src/Bitfield/Ranges.antt =====
-- `tr_bitfieldAddRange` and `tr_bitfieldRemRange`: how they change the count. The children say what
-- they do.
pub mod Add
pub mod Remove
use libtransmission.Prelude.{
  ℕ, zero, suc, ◌+◌, ◌-◌, ◌*◌, ◌/◌, ◌%◌, ◌^◌, ◌≤◌, ◌<◌, ◌≡◌, ◌≢◌, refl, ap, sym, ◌∙◌, arith, Bool,
  true, false, ltb, leb, ◌==◌, ◌||◌, ◌&&◌, not, if◌then◌else◌, dec_lt, ℕ_discrete, length, u32, u64,
  sub64, count_from, count_from_shift, count_from_three, count_from-le, count_from_all,
  count_from_zero, count_from_const_on,
}
use libtransmission.Bitfield.{Bitfield, has, count_true_bits, count_range}
use libtransmission.Bitfield.View.{bit_at}
use libtransmission.Bitfield.Inv.{HasArray, IsValid, true_count-le}
use libtransmission.Bitfield.Queries.{count_true_bits-eq-count_from, count_range-eq-count_from}
use libtransmission.Bitfield.Settle.{Becomes, inc_true_count-Becomes}
use libtransmission.Bitfield.Grow.{Grows, ensure_nth_bit_alloced-eq, ensure_bits_alloced-Grows}
use libtransmission.Bitfield.Range.{within}
use libtransmission.Bitfield.Range.Fill.{
  bit_at-add_range_bits, add_range_bits-IsBytes, length-add_range_bits,
}
use libtransmission.Bitfield.Range.Wipe.{
  bit_at-rem_range_bits, rem_range_bits-IsBytes, length-rem_range_bits,
}
use libtransmission.Bitfield.Update.{
  ensure_bits_alloced, ensure_nth_bit_alloced, inc_true_count, int_to_size, add_range, rem_range,
  add_range_bits, rem_range_bits,
}

-- Setting or clearing a range changes the count by what the range lacked or held.
module _ (p q : ℕ → Bool) (begin end n : ℕ) (ordered : begin < end) (inside : end ≤ n) where
  pub count_outside :
      ((m : ℕ) → m < n → within begin (end - 1) m ≡ false → q m ≡ p m)
      → count_from q 0 n + count_from p begin (end - begin)
        ≡ count_from p 0 n + count_from q begin (end - begin)
  count_outside same =
      let split = λ (f : ℕ → Bool).
        count_from_three f 0 begin end begin (end - begin) (n - end) n (omega arith) (omega arith)
          (omega arith) in
      let before : count_from p 0 begin ≡ count_from q 0 begin =
        count_from_shift p q 0 0 begin λ i h. sym (same (0 + i) (omega arith) (ground arith)) in
      let after : count_from p end (n - end) ≡ count_from q end (n - end) =
        count_from_shift p q end end (n - end)
          λ i h. sym (same (end + i) (omega arith) (ground arith)) in
      omega (arith, split p, split q, before, after)
