-- ===== src/Bitfield/Grow.antt =====
-- The step that changes of a bitfield begin with: `tr_bitfieldEnsureNthBitAlloced`.
use libtransmission.Prelude.{
  ℕ, ◌+◌, ◌-◌, ◌/◌, ◌≤◌, ◌<◌, ◌≡◌, ◌≢◌, refl, arith, ℕ_discrete, List, true, max, dec_lt, length,
  replicate, ◌++◌, get_or-append_replicate, length-append_replicate,
}
use libtransmission.Bitfield.{Bitfield, has, has_all, bytes_needed, set_all_true}
use libtransmission.Bitfield.View.{
  bit_at, bytes_needed_bounds, bit_at-set_all_true, set_all_true-IsBytes, length-set_all_true,
}
use libtransmission.Bitfield.Inv.{HasArray, IsValid, has_unallocated, has-bit_at}
use libtransmission.Bitfield.Update.{ensure_bits_alloced, ensure_nth_bit_alloced}

-- `b'` has an array with room for bit `n` that holds what `b` holds.
pub record Grows (b b' : Bitfield) (n : ℕ) : Type 0 where
  pub array : HasArray b'
  pub width : b'.bit_count ≡ b.bit_count
  pub count : b'.true_count ≡ b.true_count
  pub room : n / 8 < length b'.bits
  pub same : (m : ℕ) → m < b.bit_count → bit_at b'.bits m ≡ has b m

module _ {b : Bitfield} (v : IsValid b) (n : ℕ) (inside : n < b.bit_count) where
  -- The result of `tr_bitfieldEnsureBitsAlloced` in the two cases where it allocates.
  abbrev padded : ℕ → List ℕ
  padded needed = b.bits ++ replicate (needed - b.alloc_count) 0

  ensure-all :
      b.alloc_count ≡ 0
      → b.true_count ≡ b.bit_count
      → ensure_bits_alloced b (n + 1) ≡ record b {
        bits = set_all_true (padded (bytes_needed b.bit_count)) b.bit_count;
        alloc_count = bytes_needed b.bit_count;
      }
  unfolding ensure_bits_alloced has_all
  ensure-all none full =
      let needed : max (n + 1) b.true_count ≡ b.bit_count = omega arith in
      ground (arith, needed, v.array.known, bytes_needed_bounds b.bit_count)

  ensure-padded :
      b.true_count ≢ b.bit_count
      → b.alloc_count < bytes_needed (n + 1)
      → ensure_bits_alloced b (n + 1)
        ≡ record b { bits = padded (bytes_needed (n + 1)); alloc_count = bytes_needed (n + 1) }
  unfolding ensure_bits_alloced has_all
  ensure-padded part short = ground (arith, v.array.known)

  ensure-enough :
      b.true_count ≢ b.bit_count
      → bytes_needed (n + 1) ≤ b.alloc_count
      → ensure_bits_alloced b (n + 1) ≡ b
  unfolding ensure_bits_alloced has_all
  ensure-enough part long = ground (arith, v.array.known)

  grow-all :
      b.alloc_count ≡ 0 → b.true_count ≡ b.bit_count → Grows b (ensure_bits_alloced b (n + 1)) n
  grow-all none full =
      let grown = padded (bytes_needed b.bit_count) in
      let size : length grown ≡ bytes_needed b.bit_count = omega (
        arith,
        length-append_replicate b.bits (bytes_needed b.bit_count - b.alloc_count) 0,
        v.array.sized,
      ) in
      let bound = bytes_needed_bounds b.bit_count in
      let known = v.array.known in
      let all = λ (m : ℕ). bit_at-set_all_true grown b.bit_count m known size in
      let long = length-set_all_true grown b.bit_count in
      rw (ensure-all none full) (record {
        array = record {
          sized = omega (arith, long, size);
          bytes = set_all_true-IsBytes grown b.bit_count size;
          known = known;
          small = v.array.small;
          fits = omega arith;
          excess = λ m h. ground (arith, all m);
        };
        width = refl;
        count = refl;
        room = omega arith;
        same = λ m h. ground (arith, all m, has_unallocated v m none);
      })

  grow-padded :
      b.true_count ≢ b.bit_count
      → b.alloc_count < bytes_needed (n + 1)
      → Grows b (ensure_bits_alloced b (n + 1)) n
  grow-padded part short =
      let extra = bytes_needed (n + 1) - b.alloc_count in
      let size = length-append_replicate b.bits extra 0 in
      let sized = v.array.sized in
      let bound = bytes_needed_bounds (n + 1) in
      let keeps = λ (i : ℕ). get_or-append_replicate b.bits extra i 0 in
      rw (ensure-padded part short) (record {
        array = record {
          sized = omega arith;
          bytes = λ i. rw (keeps i) (v.array.bytes i);
          known = v.array.known;
          small = v.array.small;
          fits = omega arith;
          excess = λ m h. rw (keeps (m / 8)) (v.array.excess m h);
        };
        width = refl;
        count = refl;
        room = omega arith;
        same = λ m h. rw (keeps (m / 8)) (has-bit_at v m part);
      })

  grow-enough :
      b.true_count ≢ b.bit_count
      → bytes_needed (n + 1) ≤ b.alloc_count
      → Grows b (ensure_bits_alloced b (n + 1)) n
  grow-enough part long =
      let sized = v.array.sized in
      let bound = bytes_needed_bounds (n + 1) in
      rw (ensure-enough part long) (record {
        array = v.array;
        width = refl;
        count = refl;
        room = omega arith;
        same = λ m h. has-bit_at v m part;
      })

  -- `tr_bitfieldEnsureNthBitAlloced` succeeds,
  pub ensure_nth_bit_alloced-eq : ensure_nth_bit_alloced b n ≡ (true, ensure_bits_alloced b (n + 1))
  unfolding ensure_nth_bit_alloced
  ensure_nth_bit_alloced-eq = let small = v.array.small in ground arith

  -- and the result has an array that holds what the bitfield held, with room for bit `n`.
  pub ensure_bits_alloced-Grows : Grows b (ensure_bits_alloced b (n + 1)) n
  ensure_bits_alloced-Grows = elim (ℕ_discrete b.true_count b.bit_count) [
    | yes full ↦ elim (dec_lt 0 b.alloc_count) [
      | yes p ↦ absurd (omega (arith, v.partial p))
      | no p ↦ grow-all (omega arith) full
    ]
    | no part ↦ elim (dec_lt b.alloc_count (bytes_needed (n + 1))) [
      | yes short ↦ grow-padded part short
      | no long ↦ grow-enough part (omega arith)
    ]
  ]
