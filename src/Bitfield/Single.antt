-- ===== src/Bitfield/Single.antt =====
-- `tr_bitfieldAdd` and `tr_bitfieldRem`, which change one bit.
use libtransmission.Prelude.{
  ℕ, ◌+◌, ◌-◌, ◌^◌, ◌<◌, ◌≡◌, refl, ap, sym, ◌∙◌, arith, Bool, true, false, inl, inr, ◌==◌, ◌||◌,
  ◌&&◌, not, u64, count_from, count_from_flip, count_from_shift, Bool-cases,
}
use libtransmission.Bitfield.{Bitfield, has, count_true_bits}
use libtransmission.Bitfield.View.{bit_at, set_bit-IsBytes, length-set_bit, bit_at-set_bit}
use libtransmission.Bitfield.Inv.{HasArray, IsValid, true_count-le}
use libtransmission.Bitfield.Queries.{count_true_bits-eq-count_from}
use libtransmission.Bitfield.Settle.{Becomes, inc_true_count-Becomes}
use libtransmission.Bitfield.Grow.{ensure_nth_bit_alloced-eq, ensure_bits_alloced-Grows}
use libtransmission.Bitfield.Update.{
  ensure_bits_alloced, set_bit, inc_true_count, int_to_size, add, set_true_count, rem, free_array,
}

module _ {b : Bitfield} (v : IsValid b) (n : ℕ) (inside : n < b.bit_count) where
  abbrev grown : Bitfield
  grown = ensure_bits_alloced b (n + 1)

  abbrev written : Bitfield
  written = record grown { bits = set_bit grown.bits n }

  written-HasArray : HasArray written
  written-HasArray =
      let g = ensure_bits_alloced-Grows v n inside in
      record {
        sized = rw (length-set_bit grown.bits n) g.array.sized;
        bytes = set_bit-IsBytes grown.bits n g.room g.array.bytes;
        known = g.array.known;
        small = g.array.small;
        fits = g.array.fits;
        excess = λ m h. ground (
          arith,
          g.width,
          g.array.excess m h,
          bit_at-set_bit grown.bits n m g.array.bytes g.room,
        );
      }

  -- The written array holds what `b` held, and bit `n`.
  written-bit_at : (m : ℕ) → m < b.bit_count → bit_at written.bits m ≡ (n == m || has b m)
  written-bit_at m h =
      let g = ensure_bits_alloced-Grows v n inside in
      ground (arith, g.same m h, bit_at-set_bit grown.bits n m g.array.bytes g.room)

  add-absent : has b n ≡ false → add b n ≡ inc_true_count written 1
  unfolding add
  add-absent h = rw (h, ensure_nth_bit_alloced-eq v n inside)

  add-present : has b n ≡ true → add b n ≡ b
  unfolding add
  add-present h = rw h

  written_count :
      has b n ≡ false → count_from (bit_at written.bits) 0 written.bit_count ≡ b.true_count + 1
  unfolding count_true_bits
  written_count h =
      let g = ensure_bits_alloced-Grows v n inside in
      rw g.width (
        count_from_flip (has b) (bit_at written.bits) n 0 b.bit_count (omega arith) (omega arith) h
          (ground (arith, written-bit_at n inside))
          (λ i lo hi ne. ground (arith, written-bit_at i (omega arith)))
        ∙ ap (λ c. c + 1) (sym (count_true_bits-eq-count_from v)))

  added_one :
      has b n ≡ false
      → u64 (grown.true_count + int_to_size 1)
        ≡ count_from (bit_at written.bits) 0 written.bit_count
  unfolding int_to_size
  added_one h =
      let g = ensure_bits_alloced-Grows v n inside in
      let small = v.array.small in omega (arith, written_count h, g.count, true_count-le v)

  -- Adding an index below `bit_count` keeps the bitfield valid, makes `tr_bitfieldHas` accept that
  -- index and changes no other.
  pub add-Becomes : Becomes b (add b n) (λ m. n == m || has b m)
  add-Becomes = elim (Bool-cases (has b n)) [
    | inl there ↦
        rw (add-present there) (record { valid = v; width = refl; holds = λ m _. ground arith })
    | inr absent ↦ rw (add-absent absent) (
        inc_true_count-Becomes written-HasArray 1 (added_one absent)
          (ensure_bits_alloced-Grows v n inside).width written-bit_at)
  ]

-- what `tr_bitfieldRem` is meant to leave: every index but `n`
abbrev pub without : ℕ → (ℕ → Bool) → ℕ → Bool
without n p m = not (n == m) && p m

true_count-set_true_count : (b : Bitfield) (n : ℕ) → (set_true_count b n).true_count ≡ n
unfolding set_true_count free_array
true_count-set_true_count b n = ground arith

module _ {b : Bitfield} (v : IsValid b) (n : ℕ) (inside : n < b.bit_count) where
  -- `tr_bitfieldRem` of an index that is in the bitfield does nothing.
  rem-present : has b n ≡ true → rem b n ≡ b
  unfolding rem
  rem-present h = rw h

  -- Of an index that is not, it lowers the count.
  rem-absent :
      has b n ≡ false → (rem b n).true_count ≡ u64 (b.true_count + int_to_size (2 ^ 32 - 1))
  unfolding rem inc_true_count
  rem-absent h =
      let g = ensure_bits_alloced-Grows v n inside in
      rw (h, ensure_nth_bit_alloced-eq v n inside, true_count-set_true_count, g.count)

  rem_wrong_present : has b n ≡ true → ¬ Becomes b (rem b n) (without n (has b))
  rem_wrong_present h c = ground (arith, rem-present h, c.holds n inside)

  rem_wrong_absent : has b n ≡ false → ¬ Becomes b (rem b n) (without n (has b))
  unfolding count_true_bits int_to_size
  rem_wrong_absent h c =
      let same : count_from (has (rem b n)) 0 b.bit_count ≡ count_from (has b) 0 b.bit_count =
        count_from_shift (has (rem b n)) (has b) 0 0 b.bit_count
          λ i hi. ground (arith, h, c.holds (0 + i) (omega arith)) in
      let small = v.array.small in
      ground (
        arith,
        same,
        c.width,
        rem-absent h,
        count_true_bits-eq-count_from v,
        count_true_bits-eq-count_from c.valid,
        true_count-le v,
      )

  -- Whatever the bitfield and the index below `bit_count`, `tr_bitfieldRem` does not leave the bitfield
  -- without that index: the result is invalid, or does not hold the other indices alone.
  pub rem_never_removes : ¬ Becomes b (rem b n) (without n (has b))
  rem_never_removes = elim (Bool-cases (has b n)) [
    | inl there ↦ rem_wrong_present there
    | inr absent ↦ rem_wrong_absent absent
  ]
