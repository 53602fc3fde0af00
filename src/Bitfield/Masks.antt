-- ===== src/Bitfield/Masks.antt =====
-- The masks of `tr_bitfieldAddRange` and `tr_bitfieldRemRange` on one byte, from tables.
use libtransmission.Prelude.{
  ℕ, ◌-◌, ◌<◌, bit_and, bit_or, true, not, ◌&&◌, ◌||◌, ◌≡◌, refl, ltb, leb, beq, beq_sound, u8,
  ◌<<<◌,
}
use libtransmission.Prelude.Bits.{all_bytes, all_bytes_sound, check_upto, check_upto-passes, bit_of}
use libtransmission.Bitfield.Update.{not_byte}

-- the mask of the bits from `i` on, and that of the bits up to `k`, as the source computes them
abbrev pub from_mask : ℕ → ℕ
from_mask i = not_byte (0xff <<< (8 - i))

abbrev pub upto_mask : ℕ → ℕ
upto_mask k = u8 (0xff <<< (7 - k))

abbrev pub before_mask : ℕ → ℕ
before_mask i = u8 (0xff <<< (8 - i))

abbrev pub after_mask : ℕ → ℕ
after_mask k = not_byte (0xff <<< (7 - k))

fill_from_table :
    all_bytes (λ x i j. beq (bit_of (u8 (bit_or x (from_mask i))) j) (leb i j || bit_of x j)) ≡ true
unfolding all_bytes not_byte
fill_from_table = refl

fill_upto_table :
    all_bytes (λ x i j. beq (bit_of (u8 (bit_or x (upto_mask i))) j) (leb j i || bit_of x j)) ≡ true
unfolding all_bytes
fill_upto_table = refl

fill_within_table :
    check_upto
      (λ k. all_bytes (λ x i j.
        beq
          (bit_of (u8 (bit_or x (bit_and (from_mask i) (upto_mask k)))) j)
          (leb i j && leb j k || bit_of x j)))
      8
    ≡ true
unfolding check_upto all_bytes not_byte
fill_within_table = refl

wipe_from_table :
    all_bytes
      (λ x i j. beq (bit_of (u8 (bit_and x (before_mask i))) j) (not (leb i j) && bit_of x j))
    ≡ true
unfolding all_bytes
wipe_from_table = refl

wipe_upto_table :
    all_bytes
      (λ x i j. beq (bit_of (u8 (bit_and x (after_mask i))) j) (not (leb j i) && bit_of x j))
    ≡ true
unfolding all_bytes not_byte
wipe_upto_table = refl

wipe_within_table :
    check_upto
      (λ k. all_bytes (λ x i j.
        beq
          (bit_of (u8 (bit_and x (bit_or (before_mask i) (after_mask k)))) j)
          (not (leb i j && leb j k) && bit_of x j)))
      8
    ≡ true
unfolding check_upto all_bytes not_byte
wipe_within_table = refl

cut_table :
    all_bytes (λ x i j. beq (bit_of (u8 (bit_and x (0xff <<< i))) j) (ltb j (8 - i) && bit_of x j))
    ≡ true
unfolding all_bytes
cut_table = refl

module _ (x i j : ℕ) (hx : x < 256) (hi : i < 8) (hj : j < 8) where
  pub bit_of-fill_from : bit_of (u8 (bit_or x (from_mask i))) j ≡ (leb i j || bit_of x j)
  bit_of-fill_from = beq_sound _ _ (all_bytes_sound _ x i j fill_from_table hx hi hj)

  pub bit_of-fill_upto : bit_of (u8 (bit_or x (upto_mask i))) j ≡ (leb j i || bit_of x j)
  bit_of-fill_upto = beq_sound _ _ (all_bytes_sound _ x i j fill_upto_table hx hi hj)

  pub bit_of-wipe_from : bit_of (u8 (bit_and x (before_mask i))) j ≡ (not (leb i j) && bit_of x j)
  bit_of-wipe_from = beq_sound _ _ (all_bytes_sound _ x i j wipe_from_table hx hi hj)

  pub bit_of-wipe_upto : bit_of (u8 (bit_and x (after_mask i))) j ≡ (not (leb j i) && bit_of x j)
  bit_of-wipe_upto = beq_sound _ _ (all_bytes_sound _ x i j wipe_upto_table hx hi hj)

  -- the mask of the excess bits
  pub bit_of-cut : bit_of (u8 (bit_and x (0xff <<< i))) j ≡ (ltb j (8 - i) && bit_of x j)
  bit_of-cut = beq_sound _ _ (all_bytes_sound _ x i j cut_table hx hi hj)

  module _ (k : ℕ) (hk : k < 8) where
    pub bit_of-fill_within :
        bit_of (u8 (bit_or x (bit_and (from_mask i) (upto_mask k)))) j
        ≡ (leb i j && leb j k || bit_of x j)
    bit_of-fill_within =
        beq_sound _ _
          (all_bytes_sound _ x i j (check_upto-passes _ 8 k hk fill_within_table) hx hi hj)

    pub bit_of-wipe_within :
        bit_of (u8 (bit_and x (bit_or (before_mask i) (after_mask k)))) j
        ≡ (not (leb i j && leb j k) && bit_of x j)
    bit_of-wipe_within =
        beq_sound _ _
          (all_bytes_sound _ x i j (check_upto-passes _ 8 k hk wipe_within_table) hx hi hj)
