-- ===== src/Bitfield/Range/Fill.antt =====
-- The bytes that `tr_bitfieldAddRange` writes.
use libtransmission.Prelude.{
  ℕ, ◌+◌, ◌-◌, ◌/◌, ◌%◌, ◌≤◌, ◌<◌, bit_and, bit_or, true, false, ◌&&◌, ◌||◌, ◌≡◌, sym, ◌∙◌, arith,
  List, ltb, ◌==◌, if◌then◌else◌, u8, ℕ_discrete, length, set, get_or, get_or-set, length-set,
  length-memset,
}
use libtransmission.Bitfield.Byte.{bit_of_ones}
use libtransmission.Bitfield.Masks.{
  from_mask, upto_mask, bit_of-fill_from, bit_of-fill_upto, bit_of-fill_within,
}
use libtransmission.Bitfield.View.{bit_at, IsBytes}
use libtransmission.Bitfield.Update.{add_range_bits}
use libtransmission.Bitfield.Range.{
  within, Within-same, within_first, within_final, within_inside, within_outside, Position, same,
  first, final, inside, outside, position, get_or-set_one, get_or-set_all,
}

module _ (bits : List ℕ) (begin last : ℕ) (hb : IsBytes bits) (ordered : begin ≤ last)
    (room : last / 8 < length bits) where
  -- A byte of the array, in the branch of a range within one byte and in that of several.
  byte-add_range_bits_one :
      (i : ℕ)
      → begin / 8 ≡ last / 8
      → get_or (add_range_bits bits begin last) i 0 ≡ (
          if begin / 8 == i
          then u8 (
              bit_or
                (get_or bits (begin / 8) 0)
                (bit_and (from_mask (begin % 8)) (upto_mask (last % 8))))
          else get_or bits i 0)
  unfolding add_range_bits
  byte-add_range_bits_one i h =
      let test : (begin / 8 == last / 8) ≡ true = ground arith in
      rw test (get_or-set_one bits (begin / 8) (last / 8) room _ i h)

  byte-add_range_bits_several :
      (i : ℕ)
      → begin / 8 < last / 8
      → get_or (add_range_bits bits begin last) i 0 ≡ (
          if ltb (begin / 8) i && ltb i (last / 8)
          then 0xff
          else if last / 8 == i
          then u8 (bit_or (get_or bits (last / 8) 0) (upto_mask (last % 8)))
          else if begin / 8 == i
          then u8 (bit_or (get_or bits (begin / 8) 0) (from_mask (begin % 8)))
          else get_or bits i 0)
  unfolding add_range_bits
  byte-add_range_bits_several i h =
      let v = u8 (bit_or (get_or bits (begin / 8) 0) (from_mask (begin % 8))) in
      let test : (begin / 8 == last / 8) ≡ false = ground arith in
      let read : get_or (set bits (begin / 8) v) (last / 8) 0 ≡ get_or bits (last / 8) 0 =
        ground (arith, get_or-set bits (begin / 8) (last / 8) v 0) in
      rw (test, read) (get_or-set_all bits (begin / 8) (last / 8) room v _ 0xff i h)

  add_at :
      (m : ℕ)
      → Position begin last m
      → bit_at (add_range_bits bits begin last) m ≡ (within begin last m || bit_at bits m)
  add_at m (same p q) =
      rw (byte-add_range_bits_one (m / 8) (p ∙ sym q), Within-same begin last m p q)
        (ground (
          arith,
          bit_of-fill_within (get_or bits (m / 8) 0) (begin % 8) (m % 8) (hb _) (omega arith)
              (omega arith) (last % 8) (omega arith),
        ))
  add_at m (first p q) =
      rw (byte-add_range_bits_several (m / 8) (omega arith), within_first begin last m p q)
        (ground (
          arith,
          bit_of-fill_from (get_or bits (m / 8) 0) (begin % 8) (m % 8) (hb _) (omega arith)
              (omega arith),
        ))
  add_at m (final p q) =
      rw (byte-add_range_bits_several (m / 8) (omega arith), within_final begin last m p q)
        (ground (
          arith,
          bit_of-fill_upto (get_or bits (m / 8) 0) (last % 8) (m % 8) (hb _) (omega arith)
              (omega arith),
        ))
  add_at m (inside p q) =
      rw (byte-add_range_bits_several (m / 8) (omega arith), within_inside begin last m p q)
        (ground (arith, bit_of_ones 0 (m % 8)))
  add_at m (outside h) = elim (ℕ_discrete (begin / 8) (last / 8)) [
    | yes e ↦ rw (byte-add_range_bits_one (m / 8) e, within_outside begin last m h) (ground arith)
    | no e ↦
        rw (byte-add_range_bits_several (m / 8) (omega arith), within_outside begin last m h)
          (ground arith)
  ]

  -- `tr_bitfieldAddRange` sets the bits from `begin` to `last` of the array and no other,
  pub bit_at-add_range_bits :
      (m : ℕ) → bit_at (add_range_bits bits begin last) m ≡ (within begin last m || bit_at bits m)
  bit_at-add_range_bits m = add_at m (position begin last m ordered)

  -- keeps its elements bytes,
  pub add_range_bits-IsBytes : IsBytes (add_range_bits bits begin last)
  add_range_bits-IsBytes i = elim (ℕ_discrete (begin / 8) (last / 8)) [
    | yes e ↦ rw (byte-add_range_bits_one i e) (ground (arith, hb i))
    | no e ↦ rw (byte-add_range_bits_several i (omega arith)) (ground (arith, hb i))
  ]

  -- and keeps its length.
  pub length-add_range_bits : length (add_range_bits bits begin last) ≡ length bits
  unfolding add_range_bits
  length-add_range_bits =
      let s = begin / 8 in
      let e = last / 8 in
      let v = u8 (bit_or (get_or bits s 0) (from_mask (begin % 8))) in
      let w = u8 (bit_or (get_or (set bits s v) e 0) (upto_mask (last % 8))) in
      ground (
        arith,
        length-set bits s (
            u8 (bit_or (get_or bits s 0) (bit_and (from_mask (begin % 8)) (upto_mask (last % 8))))),
        length-set bits s v,
        length-set (set bits s v) e w,
        length-memset (set (set bits s v) e w) (s + 1) (e - (s + 1)) 0xff,
      )
