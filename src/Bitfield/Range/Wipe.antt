-- ===== src/Bitfield/Range/Wipe.antt =====
-- The bytes that `tr_bitfieldRemRange` writes.
use libtransmission.Prelude.{
  ℕ, ◌+◌, ◌-◌, ◌/◌, ◌%◌, ◌≤◌, ◌<◌, bit_and, bit_or, true, false, not, ◌&&◌, ◌≡◌, sym, ◌∙◌, arith,
  List, ltb, ◌==◌, if◌then◌else◌, u8, ℕ_discrete, length, set, get_or, get_or-set, length-set,
  length-memset,
}
use libtransmission.Bitfield.Masks.{
  before_mask, after_mask, bit_of-wipe_from, bit_of-wipe_upto, bit_of-wipe_within,
}
use libtransmission.Bitfield.View.{bit_at, IsBytes}
use libtransmission.Bitfield.Update.{rem_range_bits}
use libtransmission.Bitfield.Range.{
  within, Within-same, within_first, within_final, within_inside, within_outside, Position, same,
  first, final, inside, outside, position, get_or-set_one, get_or-set_all,
}

module _ (bits : List ℕ) (begin last : ℕ) (hb : IsBytes bits) (ordered : begin ≤ last)
    (room : last / 8 < length bits) where
  -- A byte of the array, in the branch of a range within one byte and in that of several.
  byte-rem_range_bits_one :
      (i : ℕ)
      → begin / 8 ≡ last / 8
      → get_or (rem_range_bits bits begin last) i 0 ≡ (
          if begin / 8 == i
          then u8 (
              bit_and
                (get_or bits (begin / 8) 0)
                (bit_or (before_mask (begin % 8)) (after_mask (last % 8))))
          else get_or bits i 0)
  unfolding rem_range_bits
  byte-rem_range_bits_one i h =
      let test : (begin / 8 == last / 8) ≡ true = ground arith in
      rw test (get_or-set_one bits (begin / 8) (last / 8) room _ i h)

  byte-rem_range_bits_several :
      (i : ℕ)
      → begin / 8 < last / 8
      → get_or (rem_range_bits bits begin last) i 0 ≡ (
          if ltb (begin / 8) i && ltb i (last / 8)
          then 0
          else if last / 8 == i
          then u8 (bit_and (get_or bits (last / 8) 0) (after_mask (last % 8)))
          else if begin / 8 == i
          then u8 (bit_and (get_or bits (begin / 8) 0) (before_mask (begin % 8)))
          else get_or bits i 0)
  unfolding rem_range_bits
  byte-rem_range_bits_several i h =
      let v = u8 (bit_and (get_or bits (begin / 8) 0) (before_mask (begin % 8))) in
      let test : (begin / 8 == last / 8) ≡ false = ground arith in
      let read : get_or (set bits (begin / 8) v) (last / 8) 0 ≡ get_or bits (last / 8) 0 =
        ground (arith, get_or-set bits (begin / 8) (last / 8) v 0) in
      rw (test, read) (get_or-set_all bits (begin / 8) (last / 8) room v _ 0 i h)

  rem_at :
      (m : ℕ)
      → Position begin last m
      → bit_at (rem_range_bits bits begin last) m ≡ (not (within begin last m) && bit_at bits m)
  rem_at m (same p q) =
      rw (byte-rem_range_bits_one (m / 8) (p ∙ sym q), Within-same begin last m p q)
        (ground (
          arith,
          bit_of-wipe_within (get_or bits (m / 8) 0) (begin % 8) (m % 8) (hb _) (omega arith)
              (omega arith) (last % 8) (omega arith),
        ))
  rem_at m (first p q) =
      rw (byte-rem_range_bits_several (m / 8) (omega arith), within_first begin last m p q)
        (ground (
          arith,
          bit_of-wipe_from (get_or bits (m / 8) 0) (begin % 8) (m % 8) (hb _) (omega arith)
              (omega arith),
        ))
  rem_at m (final p q) =
      rw (byte-rem_range_bits_several (m / 8) (omega arith), within_final begin last m p q)
        (ground (
          arith,
          bit_of-wipe_upto (get_or bits (m / 8) 0) (last % 8) (m % 8) (hb _) (omega arith)
              (omega arith),
        ))
  rem_at m (inside p q) =
      rw (byte-rem_range_bits_several (m / 8) (omega arith), within_inside begin last m p q)
        (ground arith)
  rem_at m (outside h) = elim (ℕ_discrete (begin / 8) (last / 8)) [
    | yes e ↦ rw (byte-rem_range_bits_one (m / 8) e, within_outside begin last m h) (ground arith)
    | no e ↦
        rw (byte-rem_range_bits_several (m / 8) (omega arith), within_outside begin last m h)
          (ground arith)
  ]

  -- `tr_bitfieldRemRange` clears the bits from `begin` to `last` of the array and no other,
  pub bit_at-rem_range_bits :
      (m : ℕ)
      → bit_at (rem_range_bits bits begin last) m ≡ (not (within begin last m) && bit_at bits m)
  bit_at-rem_range_bits m = rem_at m (position begin last m ordered)

  -- keeps its elements bytes,
  pub rem_range_bits-IsBytes : IsBytes (rem_range_bits bits begin last)
  rem_range_bits-IsBytes i = elim (ℕ_discrete (begin / 8) (last / 8)) [
    | yes e ↦ rw (byte-rem_range_bits_one i e) (ground (arith, hb i))
    | no e ↦ rw (byte-rem_range_bits_several i (omega arith)) (ground (arith, hb i))
  ]

  -- and keeps its length.
  pub length-rem_range_bits : length (rem_range_bits bits begin last) ≡ length bits
  unfolding rem_range_bits
  length-rem_range_bits =
      let s = begin / 8 in
      let e = last / 8 in
      let v = u8 (bit_and (get_or bits s 0) (before_mask (begin % 8))) in
      let w = u8 (bit_and (get_or (set bits s v) e 0) (after_mask (last % 8))) in
      ground (
        arith,
        length-set bits s (
            u8 (
              bit_and (get_or bits s 0)
                (bit_or (before_mask (begin % 8)) (after_mask (last % 8))))),
        length-set bits s v,
        length-set (set bits s v) e w,
        length-memset (set (set bits s v) e w) (s + 1) (e - (s + 1)) 0,
      )
