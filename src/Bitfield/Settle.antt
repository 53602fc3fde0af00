-- ===== src/Bitfield/Settle.antt =====
-- The step that every change of a bitfield ends with: `tr_bitfieldSetTrueCount`, which drops the array
-- of an empty or full bitfield.
use libtransmission.Prelude.{
  ℕ, ◌+◌, ◌<◌, ◌≡◌, ◌≢◌, refl, arith, ℕ_discrete, [], ◌∙◌, count_from-le, count_from_none, Bool,
  true, ◌⊎◌, inl, inr, dec_lt, u64, count_from, count_from_all, count_from_zero,
}
use libtransmission.Bitfield.{Bitfield, has, has_all, has_none}
use libtransmission.Bitfield.View.{bit_at, bit_at_beyond}
use libtransmission.Bitfield.Inv.{HasArray, IsValid, has_allocated, has_unallocated, has_partial}
use libtransmission.Bitfield.Update.{set_true_count, free_array, inc_true_count, int_to_size}

-- `b'` is a valid bitfield that holds the bits of the array of `b`.
pub record Settles (b b' : Bitfield) : Type 0 where
  pub valid : IsValid b'
  pub width : b'.bit_count ≡ b.bit_count
  pub same : (m : ℕ) → m < b.bit_count → has b' m ≡ bit_at b.bits m

abbrev dropped : Bitfield → ℕ → Bitfield
dropped b n = record b { bits = []; alloc_count = 0; true_count = n }

abbrev kept : Bitfield → ℕ → Bitfield
kept b n = record b { true_count = n }

set_true_count-dropped :
    (b : Bitfield) (n : ℕ)
    → 0 < b.bit_count
    → (n ≡ 0) ⊎ (n ≡ b.bit_count)
    → set_true_count b n ≡ dropped b n
unfolding set_true_count has_all has_none free_array
set_true_count-dropped b n known h = ground arith

set_true_count-kept :
    (b : Bitfield) (n : ℕ)
    → 0 < b.bit_count
    → n ≢ 0
    → n ≢ b.bit_count
    → set_true_count b n ≡ kept b n
unfolding set_true_count has_all has_none free_array
set_true_count-kept b n known h k = ground arith

module _ {b : Bitfield} (a : HasArray b) where
  dropped-IsValid : (n : ℕ) → (n ≡ 0) ⊎ (n ≡ b.bit_count) → IsValid (dropped b n)
  dropped-IsValid n h = record {
    array = record {
      sized = refl;
      bytes = λ i. omega arith;
      known = a.known;
      small = a.small;
      fits = omega arith;
      excess = λ m _. ground arith;
    };
    counted = λ p. absurd (omega arith);
    partial = λ p. absurd (omega arith);
    uniform = λ _. h;
  }

  kept-HasArray : (n : ℕ) → HasArray (kept b n)
  kept-HasArray n = record {
    sized = a.sized;
    bytes = a.bytes;
    known = a.known;
    small = a.small;
    fits = a.fits;
    excess = a.excess;
  }

  -- An array with a bit set in it has bytes.
  alloc_pos : (n : ℕ) → n ≡ count_from (bit_at b.bits) 0 b.bit_count → n ≢ 0 → 0 < b.alloc_count
  alloc_pos n count h = elim (dec_lt 0 b.alloc_count) [
    | yes p ↦ p
    | no p ↦ absurd (
        h (
          count
          ∙ count_from_none (bit_at b.bits) 0 b.bit_count
              λ i _. bit_at_beyond b.bits i (omega (arith, a.sized))))
  ]

  kept-IsValid :
      (n : ℕ)
      → n ≡ count_from (bit_at b.bits) 0 b.bit_count
      → n ≢ 0
      → n ≢ b.bit_count
      → IsValid (kept b n)
  kept-IsValid n count h k =
      let bound = count_from-le (bit_at b.bits) 0 b.bit_count in
      record {
        array = kept-HasArray n;
        counted = λ _. count;
        partial = λ _. omega arith;
        uniform = λ e. absurd (omega (arith, alloc_pos n count h));
      }

  -- `tr_bitfieldSetTrueCount` with the right count.
  pub set_true_count-Settles :
      (n : ℕ) → n ≡ count_from (bit_at b.bits) 0 b.bit_count → Settles b (set_true_count b n)
  set_true_count-Settles n count = elim (ℕ_discrete n 0) [
    | yes e ↦ rw (set_true_count-dropped b n a.known (inl e)) (record {
      valid = dropped-IsValid n (inl e);
      width = refl;
      same = λ m h. ground (
        arith,
        a.known,
        has_unallocated (dropped-IsValid n (inl e)) m refl,
        count_from_zero (bit_at b.bits) 0 b.bit_count m,
      );
    })
    | no h ↦ elim (ℕ_discrete n b.bit_count) [
      | yes e ↦ rw (set_true_count-dropped b n a.known (inr e)) (record {
        valid = dropped-IsValid n (inr e);
        width = refl;
        same = λ m h. ground (
          arith,
          has_unallocated (dropped-IsValid n (inr e)) m refl,
          count_from_all (bit_at b.bits) 0 b.bit_count m,
        );
      })
      | no k ↦ rw (set_true_count-kept b n a.known h k) (record {
        valid = kept-IsValid n count h k;
        width = refl;
        same = λ m _. has_allocated (kept-IsValid n count h k) m (alloc_pos n count h);
      })
    ]
  ]

has-dropped :
    (b : Bitfield) (n m : ℕ) → 0 < b.bit_count → n ≡ b.bit_count → has (dropped b n) m ≡ true
unfolding has has_all has_none
has-dropped b n m known e = ground arith

-- A set bit of the array is had after any count but zero.
pub has-set_true_count :
    {b : Bitfield} (a : HasArray b) (n m : ℕ)
    → n ≢ 0
    → bit_at b.bits m ≡ true
    → has (set_true_count b n) m ≡ true
has-set_true_count {b} a n m ne h = elim (ℕ_discrete n b.bit_count) [
  | yes e ↦ rw (set_true_count-dropped b n a.known (inr e)) (has-dropped b n m a.known e)
  | no k ↦ rw (set_true_count-kept b n a.known ne k) (has_partial m (kept-HasArray a n) ne k ∙ h)
]

-- `b'` is valid, as wide as `b`, and holds the bits that `p` accepts.
pub record Becomes (b b' : Bitfield) (p : ℕ → Bool) : Type 0 where
  pub valid : IsValid b'
  pub width : b'.bit_count ≡ b.bit_count
  pub holds : (m : ℕ) → m < b.bit_count → has b' m ≡ p m

-- `tr_bitfieldIncTrueCount` on an array `w` written for `b`, when the adjusted count is right.
module _ {b w : Bitfield} (a : HasArray w) (i : ℕ) {p : ℕ → Bool} where
  pub inc_true_count-Becomes :
      u64 (w.true_count + int_to_size i) ≡ count_from (bit_at w.bits) 0 w.bit_count
      → w.bit_count ≡ b.bit_count
      → ((m : ℕ) → m < b.bit_count → bit_at w.bits m ≡ p m)
      → Becomes b (inc_true_count w i) p
  unfolding inc_true_count
  inc_true_count-Becomes count width holds =
      let s = set_true_count-Settles a _ count in
      record {
        valid = s.valid;
        width = s.width ∙ width;
        holds = λ m h. s.same m (rw width h) ∙ holds m h;
      }
