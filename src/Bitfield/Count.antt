-- ===== src/Bitfield/Count.antt =====
-- The counting routines of src/bitfield.c count the set bits of the array.
use libtransmission.Prelude.{
  ℕ, zero, suc, ◌+◌, ◌-◌, ◌*◌, ◌/◌, ◌%◌, ◌^◌, ◌≤◌, ◌<◌, ◌≡◌, refl, arith, ap, ap₂, lt→ltb, dec_lt,
  false, count_from_none, count_from_three, ◌∙◌, min, ltb, u64, sub64, length, count_from,
  count_from-add, count_from-le, count_from_shift,
}
use libtransmission.Prelude.Bits.{bit_of}
use libtransmission.Bitfield.{
  Bitfield, byte_at, bits_in_byte, popcount, drop_first, drop_last, count_array, count_array_loop,
  count_bytes, count_within_byte, count_across_bytes, count_bits_in_range,
}
use libtransmission.Bitfield.Byte.{
  popcount-eq, popcount-drop_first, popcount-drop_last, popcount-drop_both,
}
use libtransmission.Bitfield.View.{bit_at, bit_at_beyond, IsBytes}

-- Bits `s` to `s + n` of byte `i` stand from bit `8 * i + s` on in the array.
byte_window :
    (b : Bitfield) (i s n : ℕ)
    → s + n ≤ 8
    → count_from (bit_of (byte_at b i)) s n ≡ count_from (bit_at b.bits) (8 * i + s) n
unfolding byte_at
byte_window b i s n h =
    count_from_shift (bit_of (byte_at b i)) (bit_at b.bits) s (8 * i + s) n λ r hr.
      let q : (8 * i + s + r) / 8 ≡ i = omega arith in
      let m : (8 * i + s + r) % 8 ≡ s + r = omega arith in ground arith

module _ (b : Bitfield) (hb : IsBytes b.bits) where
  bits_in_byte-eq : (i : ℕ) → bits_in_byte b i ≡ count_from (bit_at b.bits) (8 * i) 8
  unfolding bits_in_byte popcount byte_at
  bits_in_byte-eq i =
      let start : 8 * i + 0 ≡ 8 * i = omega arith in
      ground (
        arith,
        start,
        popcount-eq (byte_at b i) 0 0 (hb i) (omega arith) (omega arith),
        byte_window b i 0 8 (omega arith),
      )

  bits_in_byte-le : (i : ℕ) → bits_in_byte b i ≤ 8
  bits_in_byte-le i = omega (arith, bits_in_byte-eq i, count_from-le (bit_at b.bits) (8 * i) 8)

  -- One byte added to a sum that has room for it.
  u64-add :
      (ret i n : ℕ)
      → ret + 8 * suc n < 2 ^ 64
      → u64 (ret + bits_in_byte b i) ≡ ret + bits_in_byte b i
  u64-add ret i n h = omega (arith, bits_in_byte-le i)

  count_array_loop-eq :
      (i ret : ℕ)
      → ret + 8 * i < 2 ^ 64
      → count_array_loop b i ret ≡ ret + count_from (bit_at b.bits) 0 (8 * i)
  unfolding count_array_loop
  count_array_loop-eq zero ret h = unfold count_from in omega arith
  count_array_loop-eq (suc i) ret h =
      let grow : 8 * suc i ≡ 8 * i + 8 = omega arith in
      let start : 0 + 8 * i ≡ 8 * i = omega arith in
      rw (u64-add ret i i h, grow, count_from-add (bit_at b.bits) 0 (8 * i) 8, start)
        (omega (
          arith,
          count_array_loop-eq i (ret + bits_in_byte b i) (omega (arith, bits_in_byte-le i)),
          bits_in_byte-eq i,
        ))

  count_bytes-eq :
      (i n ret : ℕ)
      → ret + 8 * n < 2 ^ 64
      → count_bytes b i n ret ≡ ret + count_from (bit_at b.bits) (8 * i) (8 * n)
  unfolding count_bytes
  count_bytes-eq i zero ret h = unfold count_from in omega arith
  count_bytes-eq i (suc n) ret h =
      let grow : 8 * suc n ≡ 8 + 8 * n = omega arith in
      let next : 8 * i + 8 ≡ 8 * (i + 1) = omega arith in
      rw (u64-add ret i n h, grow, count_from-add (bit_at b.bits) (8 * i) 8 (8 * n), next)
        (omega (
          arith,
          count_bytes-eq (i + 1) n (ret + bits_in_byte b i) (omega (arith, bits_in_byte-le i)),
          bits_in_byte-eq i,
        ))

  -- `countArray` counts the set bits of the array.
  pub count_array-eq :
      8 * b.alloc_count < 2 ^ 64 → count_array b ≡ count_from (bit_at b.bits) 0 (8 * b.alloc_count)
  unfolding count_array
  count_array-eq h = omega (arith, count_array_loop-eq b.alloc_count 0 (omega arith))

  module _ (begin end : ℕ) (ordered : begin < end) (small : end < 2 ^ 63) where
    count_within_byte-eq :
        begin / 8 ≡ (end - 1) / 8
        → count_within_byte b begin end ≡ count_from (bit_at b.bits) begin (end - begin)
    unfolding count_within_byte
    count_within_byte-eq same =
        let i = begin / 8 in
        let skip = begin - i * 8 in
        let over = (i + 1) * 8 - end in
        let inside : skip + over < 8 = omega arith in
        let start : 8 * i + skip ≡ begin = omega arith in
        let size : 8 - skip - over ≡ end - begin = omega arith in
        popcount-drop_both (byte_at b i) skip over (unfold byte_at in hb i) (omega arith)
          (omega arith) inside
        ∙ byte_window b i skip (8 - skip - over) (omega arith)
        ∙ ap₂ (count_from (bit_at b.bits)) start size

    -- The first byte of a range that goes on beyond it.
    first_part :
        popcount (drop_first (begin - begin / 8 * 8) (byte_at b (begin / 8)))
        ≡ count_from (bit_at b.bits) begin (8 - begin % 8)
    first_part =
        let skip : begin - begin / 8 * 8 ≡ begin % 8 = omega arith in
        let start : 8 * (begin / 8) + begin % 8 ≡ begin = omega arith in
        rw skip (
          popcount-drop_first (byte_at b (begin / 8)) (begin % 8) 0 (unfold byte_at in hb _)
            (omega arith) (omega arith)
          ∙ byte_window b (begin / 8) (begin % 8) (8 - begin % 8) (omega arith)
          ∙ ap (λ s. count_from (bit_at b.bits) s (8 - begin % 8)) start)

    -- The last byte, up to the end of the range.
    last_part :
        (l : ℕ)
        → l ≡ (end - 1) / 8
        → popcount (drop_last ((l + 1) * 8 - end) (byte_at b l))
          ≡ count_from (bit_at b.bits) (8 * l) (end - 8 * l)
    last_part l at_l =
        let over = (l + 1) * 8 - end in
        let start : 8 * l + 0 ≡ 8 * l = omega arith in
        let size : 8 - over ≡ end - 8 * l = omega arith in
        popcount-drop_last (byte_at b l) over 0 (unfold byte_at in hb l) (omega arith) (omega arith)
        ∙ byte_window b l 0 (8 - over) (omega arith)
        ∙ ap₂ (count_from (bit_at b.bits)) start size

    -- The first byte and the bytes up to byte `w`, summed.
    middle_part :
        (w : ℕ)
        → w ≤ (end - 1) / 8
        → count_bytes b
            (begin / 8 + 1)
            (w - (begin / 8 + 1))
            (popcount (drop_first (begin - begin / 8 * 8) (byte_at b (begin / 8))))
          ≡ count_from (bit_at b.bits) begin (8 - begin % 8)
            + count_from (bit_at b.bits) (8 * (begin / 8 + 1)) (8 * (w - (begin / 8 + 1)))
    middle_part w h = rw first_part (
        count_bytes-eq (begin / 8 + 1) (w - (begin / 8 + 1)) _
          (omega (arith, count_from-le (bit_at b.bits) begin (8 - begin % 8))))

    -- The whole range, with its last part from byte `w` on.
    range_in_parts :
        (w : ℕ)
        → begin / 8 < w
        → 8 * w ≤ end
        → count_from (bit_at b.bits) begin (end - begin)
          ≡ count_from (bit_at b.bits) begin (8 - begin % 8)
            + count_from (bit_at b.bits) (8 * (begin / 8 + 1)) (8 * (w - (begin / 8 + 1)))
            + count_from (bit_at b.bits) (8 * w) (end - 8 * w)
    range_in_parts w h k =
        count_from_three (bit_at b.bits) begin (8 * (begin / 8 + 1)) (8 * w) (8 - begin % 8)
          (8 * (w - (begin / 8 + 1))) (end - 8 * w) (end - begin) (omega arith) (omega arith)
          (omega arith)

    count_across_bytes-eq :
        begin / 8 < (end - 1) / 8
        → begin / 8 < b.alloc_count
        → length b.bits ≡ b.alloc_count
        → count_across_bytes b begin end ≡ count_from (bit_at b.bits) begin (end - begin)
    unfolding count_across_bytes
    count_across_bytes-eq several inside sized =
        let l = (end - 1) / 8 in
        let last : sub64 end 1 / 8 ≡ l = omega arith in
        elim (dec_lt l b.alloc_count) [
          | yes p ↦
              let walk : min b.alloc_count l ≡ l = omega arith in
              rw (last, lt→ltb _ _ p, walk, middle_part l (omega arith), last_part l refl)
                (omega (
                  arith,
                  range_in_parts l several (omega arith),
                  count_from-le (bit_at b.bits) begin (end - begin),
                ))
          | no p ↦
              let walk : min b.alloc_count l ≡ b.alloc_count = omega arith in
              let stop : ltb l b.alloc_count ≡ false = ground arith in
              rw (last, stop, walk, middle_part b.alloc_count (omega arith))
                (omega (
                  arith,
                  range_in_parts b.alloc_count inside (omega arith),
                  count_from_none (bit_at b.bits) (8 * b.alloc_count) (end - 8 * b.alloc_count)
                      (λ i h. bit_at_beyond b.bits i (omega arith)),
                ))
        ]

    -- `countRange` counts the set bits of a range, whether it lies within a byte, over several, or
    -- beyond the array.
    pub count_bits_in_range-eq :
        0 < b.bit_count
        → length b.bits ≡ b.alloc_count
        → count_bits_in_range b begin end ≡ count_from (bit_at b.bits) begin (end - begin)
    unfolding count_bits_in_range
    count_bits_in_range-eq known sized =
        let last : sub64 end 1 / 8 ≡ (end - 1) / 8 = omega arith in
        elim (dec_lt (begin / 8) b.alloc_count) [
          | yes p ↦ ground (arith, last, count_within_byte-eq, count_across_bytes-eq)
          | no p ↦
              let none_set : count_from (bit_at b.bits) begin (end - begin) ≡ 0 =
                count_from_none (bit_at b.bits) begin (end - begin)
                  (λ i h. bit_at_beyond b.bits i (omega arith)) in
              ground (arith, last, none_set)
        ]
