-- ===== src/Bitfield/Raw.antt =====
-- `tr_bitfieldGetRaw`: the byte form of a bitfield that peers and resume files hold.
pub mod Install
use libtransmission.Prelude.{
  ℕ, zero, suc, ◌+◌, ◌-◌, ◌*◌, ◌/◌, ◌%◌, ◌^◌, ◌≤◌, ◌<◌, ◌≡◌, ◌≢◌, refl, ap, sym, ◌∙◌, arith, List,
  [], ◌∷◌, Bool, true, Option, none, some, false, ltb, leb, ◌==◌, ◌||◌, ◌&&◌, not, bit_and,
  if◌then◌else◌, min, dec_lt, ℕ_discrete, length, get_or, set, take, u8, u32, sub64, ◌<<<◌,
  count_from, get_or_beyond, get_or-set, length-set, take-length, count_from_none, count_from_three,
  replicate, length-replicate, get_or-replicate, memcpy, length-memcpy, get_or-memcpy,
}
use libtransmission.Bitfield.{
  Bitfield, has, has_all, bytes_needed, set_all_true, get_raw, count_array,
}
use libtransmission.Bitfield.Masks.{bit_of-cut}
use libtransmission.Bitfield.View.{
  bit_at, bit_at_beyond, IsBytes, set-IsBytes, bytes_needed_bounds, bit_at-set_all_true,
  set_all_true-IsBytes, length-set_all_true,
}
use libtransmission.Bitfield.Count.{count_array-eq}
use libtransmission.Bitfield.Inv.{HasArray, IsValid, has_allocated, has_unallocated}
use libtransmission.Bitfield.Settle.{Becomes, set_true_count-Settles}
use libtransmission.Bitfield.Update.{
  set_raw, copy_raw, mask_excess, rebuild_true_count, free_array, set_true_count, set_from_bitfield,
}

-- `bytes` is the byte form of the indices below `n` that `p` accepts: just long enough, and with no bit
-- from `n` on.
pub record IsRaw (n : ℕ) (p : ℕ → Bool) (bytes : List ℕ) : Type 0 where
  pub size : length bytes ≡ bytes_needed n
  pub values : IsBytes bytes
  pub holds : (m : ℕ) → m < n → bit_at bytes m ≡ p m
  pub excess : (m : ℕ) → n ≤ m → bit_at bytes m ≡ false

module _ {b : Bitfield} (v : IsValid b) where
  abbrev blank : List ℕ
  blank = replicate (bytes_needed b.bit_count) 0

  get_raw-copy : 0 < b.alloc_count → get_raw b ≡ memcpy blank b.bits b.alloc_count
  unfolding get_raw
  get_raw-copy h = ground arith

  get_raw-full :
      b.alloc_count ≡ 0 → b.true_count ≡ b.bit_count → get_raw b ≡ set_all_true blank b.bit_count
  unfolding get_raw has_all
  get_raw-full h e = ground (arith, v.array.known)

  get_raw-empty : b.alloc_count ≡ 0 → b.true_count ≢ b.bit_count → get_raw b ≡ blank
  unfolding get_raw has_all
  get_raw-empty h e = ground (arith, v.array.known)

  length-blank : length blank ≡ bytes_needed b.bit_count
  length-blank = length-replicate (bytes_needed b.bit_count) 0

  get_or-blank : (i : ℕ) → get_or blank i 0 ≡ 0
  get_or-blank i = get_or-replicate (bytes_needed b.bit_count) i 0

  get_or-copied : (i : ℕ) → get_or (memcpy blank b.bits b.alloc_count) i 0 ≡ get_or b.bits i 0
  get_or-copied i =
      let sized = v.array.sized in
      ground (
        arith,
        get_or-memcpy blank b.bits b.alloc_count i 0
            (omega (arith, length-blank, bytes_needed_bounds b.bit_count, v.array.fits))
            (omega arith),
        get_or-blank i,
        get_or_beyond b.bits i 0,
      )

  -- `tr_bitfieldGetRaw` gives the byte form of a valid bitfield.
  pub get_raw-IsRaw : IsRaw b.bit_count (has b) (get_raw b)
  get_raw-IsRaw =
      let a = v.array in
      elim (dec_lt 0 b.alloc_count) [
        | yes p ↦ rw (get_raw-copy p) (record {
          size = length-memcpy blank b.bits b.alloc_count ∙ length-blank;
          values = λ i. rw (get_or-copied i) (a.bytes i);
          holds = λ m h. rw (get_or-copied (m / 8)) (sym (has_allocated v m p));
          excess = λ m h. rw (get_or-copied (m / 8)) (a.excess m h);
        })
        | no p ↦
            let unallocated : b.alloc_count ≡ 0 = omega arith in
            elim (ℕ_discrete b.true_count b.bit_count) [
              | yes full ↦
                  let ones =
                    λ (m : ℕ). bit_at-set_all_true blank b.bit_count m a.known length-blank in
                  rw (get_raw-full unallocated full) (record {
                    size = length-set_all_true blank b.bit_count ∙ length-blank;
                    values = set_all_true-IsBytes blank b.bit_count length-blank;
                    holds = λ m h. ground (arith, ones m, has_unallocated v m unallocated);
                    excess = λ m h. ground (arith, ones m);
                  })
              | no part ↦ rw (get_raw-empty unallocated part) (record {
                size = length-blank;
                values = λ i. rw (get_or-blank i) (omega arith);
                holds = λ m h.
                    rw (get_or-blank (m / 8)) (ground (arith, has_unallocated v m unallocated));
                excess = λ m h. rw (get_or-blank (m / 8)) (ground arith);
              })
            ]
      ]
