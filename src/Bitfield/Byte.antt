-- ===== src/Bitfield/Byte.antt =====
-- What the shifts and masks of src/bitfield.c do to one byte, from tables over all bytes.
use libtransmission.Prelude.{
  ℕ, ◌+◌, ◌-◌, ◌<◌, bit_and, bit_or, true, not, ◌&&◌, ◌||◌, ◌≡◌, refl, arith, ltb, leb, ◌==◌,
  ==_iff, beq, beq_sound, u8, ◌<<<◌, ◌>>>◌, count_from,
}
use libtransmission.Prelude.Bits.{all_bytes, all_bytes_sound, bit_of}
use libtransmission.Bitfield.{true_bit_count, drop_first, drop_last, popcount}

test_table : all_bytes (λ x i j. beq (not (bit_and (x <<< i) 0x80 == 0)) (bit_of x i)) ≡ true
unfolding all_bytes
test_table = refl

set_table :
    all_bytes (λ x i j. beq (bit_of (u8 (bit_or x (0x80 >>> i))) j) (i == j || bit_of x j)) ≡ true
unfolding all_bytes
set_table = refl

full_table :
    all_bytes (λ x i j. bit_of 0xff j && beq (bit_of (u8 (0xff <<< i)) j) (ltb j (8 - i))) ≡ true
unfolding all_bytes
full_table = refl

popcount_table : all_bytes (λ x i j. popcount x == count_from (bit_of x) 0 8) ≡ true
unfolding all_bytes popcount true_bit_count count_from
popcount_table = refl

drop_table :
    all_bytes (λ x i j.
      leb 8 (i + j)
      || (popcount (drop_last j (drop_first i x)) == count_from (bit_of x) i (8 - i - j)))
    ≡ true
unfolding all_bytes popcount true_bit_count count_from drop_last drop_first
drop_table = refl

drop_first_table :
    all_bytes (λ x i j. popcount (drop_first i x) == count_from (bit_of x) i (8 - i)) ≡ true
unfolding all_bytes popcount true_bit_count count_from drop_first
drop_first_table = refl

drop_last_table :
    all_bytes (λ x i j. popcount (drop_last i x) == count_from (bit_of x) 0 (8 - i)) ≡ true
unfolding all_bytes popcount true_bit_count count_from drop_last
drop_last_table = refl

module _ (x i j : ℕ) (hx : x < 256) (hi : i < 8) (hj : j < 8) where
  pub test_bit : not (bit_and (x <<< i) 0x80 == 0) ≡ bit_of x i
  test_bit = beq_sound _ _ (all_bytes_sound _ x i j test_table hx hi hj)

  pub bit_of-set : bit_of (u8 (bit_or x (0x80 >>> i))) j ≡ (i == j || bit_of x j)
  bit_of-set = beq_sound _ _ (all_bytes_sound _ x i j set_table hx hi hj)

  pub popcount-eq : popcount x ≡ count_from (bit_of x) 0 8
  popcount-eq = (==_iff _ _).0 (all_bytes_sound _ x i j popcount_table hx hi hj)

  pub popcount-drop_first : popcount (drop_first i x) ≡ count_from (bit_of x) i (8 - i)
  popcount-drop_first = (==_iff _ _).0 (all_bytes_sound _ x i j drop_first_table hx hi hj)

  pub popcount-drop_last : popcount (drop_last i x) ≡ count_from (bit_of x) 0 (8 - i)
  popcount-drop_last = (==_iff _ _).0 (all_bytes_sound _ x i j drop_last_table hx hi hj)

  pub popcount-drop_both :
      i + j < 8 → popcount (drop_last j (drop_first i x)) ≡ count_from (bit_of x) i (8 - i - j)
  popcount-drop_both h = ground (arith, all_bytes_sound _ x i j drop_table hx hi hj)

module _ (i j : ℕ) (hi : i < 8) (hj : j < 8) where
  pub bit_of_ones : bit_of 0xff j ≡ true
  bit_of_ones = ground (arith, all_bytes_sound _ 0 i j full_table (omega arith) hi hj)

  pub bit_of-last_byte : bit_of (u8 (0xff <<< i)) j ≡ ltb j (8 - i)
  bit_of-last_byte = ground (
    arith,
    all_bytes_sound _ 0 i j full_table (omega arith) hi hj,
    beq_sound (bit_of (u8 (0xff <<< i)) j) (ltb j (8 - i)),
  )
