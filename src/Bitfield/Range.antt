-- ===== src/Bitfield/Range.antt =====
-- The ranges of `tr_bitfieldAddRange` and `tr_bitfieldRemRange`: where a bit lies in one, and which
-- bytes are written.
pub mod Fill
pub mod Wipe
use libtransmission.Prelude.{
  ℕ, ◌+◌, ◌-◌, ◌*◌, ◌/◌, ◌%◌, ◌^◌, ◌≤◌, ◌<◌, bit_and, bit_or, Bool, true, false, not, ◌&&◌, ◌||◌,
  ◌≡◌, ◌≢◌, ◌⊎◌, inl, inr, refl, sym, ◌∙◌, arith, List, ltb, leb, ◌==◌, if◌then◌else◌, u8, ◌<<<◌,
  ◌>>>◌, dec_lt, ℕ_discrete, length, set, memset, get_or, get_or-set, get_or-memset, length-set,
  length-memset,
}
use libtransmission.Prelude.Bits.{bit_of}
use libtransmission.Bitfield.Byte.{bit_of_ones}
use libtransmission.Bitfield.Masks.{
  from_mask, upto_mask, before_mask, after_mask, bit_of-fill_from, bit_of-fill_upto,
  bit_of-wipe_from, bit_of-wipe_upto, bit_of-fill_within, bit_of-wipe_within,
}
use libtransmission.Bitfield.View.{bit_at, IsBytes, set-IsBytes}
use libtransmission.Bitfield.Update.{add_range_bits, rem_range_bits, not_byte}

abbrev pub within : ℕ → ℕ → ℕ → Bool
within begin last m = leb begin m && leb m last

-- Where the byte of bit `m` lies in a range.
pub data Position (begin last m : ℕ) : Type 0 where
  same : begin / 8 ≡ m / 8 → last / 8 ≡ m / 8 → Position begin last m
  first : begin / 8 ≡ m / 8 → m / 8 < last / 8 → Position begin last m
  final : begin / 8 < m / 8 → last / 8 ≡ m / 8 → Position begin last m
  inside : begin / 8 < m / 8 → m / 8 < last / 8 → Position begin last m
  outside : (m / 8 < begin / 8) ⊎ (last / 8 < m / 8) → Position begin last m

pub position : (begin last m : ℕ) → begin ≤ last → Position begin last m
position begin last m h = elim (dec_lt (m / 8) (begin / 8)) [
  | yes p ↦ outside (inl p)
  | no p ↦ elim (dec_lt (last / 8) (m / 8)) [
    | yes q ↦ outside (inr q)
    | no q ↦ elim (ℕ_discrete (begin / 8) (m / 8)) [
      | yes e ↦ elim (ℕ_discrete (last / 8) (m / 8)) [
        | yes d ↦ same e d
        | no d ↦ first e (omega arith)
      ]
      | no e ↦ elim (ℕ_discrete (last / 8) (m / 8)) [
        | yes d ↦ final (omega arith) d
        | no d ↦ inside (omega arith) (omega arith)
      ]
    ]
  ]
]

module _ (begin last m : ℕ) where
  pub Within-same :
      begin / 8 ≡ m / 8
      → last / 8 ≡ m / 8
      → within begin last m ≡ (leb (begin % 8) (m % 8) && leb (m % 8) (last % 8))
  Within-same p q = ground arith

  pub within_first :
      begin / 8 ≡ m / 8 → m / 8 < last / 8 → within begin last m ≡ leb (begin % 8) (m % 8)
  within_first p q = ground arith

  pub within_final :
      begin / 8 < m / 8 → last / 8 ≡ m / 8 → within begin last m ≡ leb (m % 8) (last % 8)
  within_final p q = ground arith

  pub within_inside : begin / 8 < m / 8 → m / 8 < last / 8 → within begin last m ≡ true
  within_inside p q = ground arith

  pub within_outside : (m / 8 < begin / 8) ⊎ (last / 8 < m / 8) → within begin last m ≡ false
  within_outside h = ground arith

-- The writes of both functions: one byte of a range within a byte, else both ends and the bytes
-- between them.
module _ (bits : List ℕ) (s e : ℕ) (room : e < length bits) where
  pub get_or-set_one :
      (v i : ℕ) → s ≡ e → get_or (set bits s v) i 0 ≡ (if s == i then v else get_or bits i 0)
  get_or-set_one v i h = get_or-set bits s i v 0 (omega arith)

  abbrev pub ends : ℕ → ℕ → List ℕ
  ends v w = set (set bits s v) e w

  get_or-set_ends :
      (v w i : ℕ)
      → s < e
      → get_or (ends v w) i 0 ≡ (if e == i then w else if s == i then v else get_or bits i 0)
  get_or-set_ends v w i h =
      ground
        (arith, get_or-set bits s i v 0, get_or-set (set bits s v) e i w 0, length-set bits s v)

  pub get_or-set_all :
      (v w x i : ℕ)
      → s < e
      → get_or (if ltb (s + 1) e then memset (ends v w) (s + 1) (e - (s + 1)) x else ends v w) i 0
        ≡ (if ltb s i && ltb i e
            then x
            else if e == i
            then w
            else if s == i
            then v
            else get_or bits i 0)
  get_or-set_all v w x i h =
      let rest = get_or-set_ends v w i h in
      ground (
        arith,
        rest,
        get_or-memset (ends v w) (s + 1) (e - (s + 1)) i x 0,
        length-set bits s v,
        length-set (set bits s v) e w,
      )
