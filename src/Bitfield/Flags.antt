-- ===== src/Bitfield/Flags.antt =====
-- `tr_bitfieldSetFromFlags`.
use libtransmission.Prelude.{
  ℕ, zero, suc, ◌+◌, ◌-◌, ◌*◌, ◌/◌, ◌^◌, ◌≤◌, ◌<◌, ◌≡◌, ◌≢◌, refl, ap, sym, ◌∙◌, arith, List, [],
  ◌∷◌, Bool, true, false, ltb, leb, ◌==◌, ◌||◌, ◌&&◌, bit, if◌then◌else◌, length, get_or, u64,
  count_from, get_or_beyond, count_from_shift, replicate, get_or-replicate, length-replicate, sym,
  max,
}
use libtransmission.Bitfield.{Bitfield, has, has_all, bytes_needed, set_all_true}
use libtransmission.Bitfield.View.{
  bit_at, IsBytes, set_bit-IsBytes, length-set_bit, bit_at-set_bit, bytes_needed_bounds,
  bit_at-set_all_true, set_all_true-IsBytes, length-set_all_true,
}
use libtransmission.Bitfield.Inv.{HasArray}
use libtransmission.Bitfield.Settle.{Becomes, set_true_count-Settles, has-set_true_count}
use libtransmission.Bitfield.Update.{
  set_bit, set_flags, set_from_flags, ensure_bits_alloced, free_array,
}

abbrev pub flag_at : List Bool → ℕ → Bool
flag_at flags m = get_or flags m false

-- the number of set flags
abbrev pub flag_count : List Bool → ℕ
flag_count flags = count_from (flag_at flags) 0 (length flags)

flag_count-cons : (f : Bool) (fs : List Bool) → flag_count (f ∷ fs) ≡ bit f + flag_count fs
unfolding count_from
flag_count-cons f fs =
    ap (λ c. bit f + c)
      (count_from_shift (flag_at (f ∷ fs)) (flag_at fs) (0 + 1) 0 (length fs) λ i h. ground arith)

flag_at-cons :
    (f : Bool) (fs : List Bool) (k : ℕ)
    → flag_at (f ∷ fs) k ≡ (if k == 0 then f else flag_at fs (k - 1))
flag_at-cons f fs zero = refl
flag_at-cons f fs (suc k) = ground arith

module _ (f : Bool) (i : ℕ) (bits : List ℕ) (hb : IsBytes bits) (room : i / 8 < length bits) where
  abbrev one_flag : List ℕ
  one_flag = if f then set_bit bits i else bits

  one_flag-IsBytes : IsBytes one_flag
  one_flag-IsBytes j = ground (arith, set_bit-IsBytes bits i room hb j, hb j)

  length-one_flag : length one_flag ≡ length bits
  length-one_flag = ground (arith, length-set_bit bits i)

  bit_at-one_flag : (m : ℕ) → bit_at one_flag m ≡ (f && i == m || bit_at bits m)
  bit_at-one_flag m = ground (arith, bit_at-set_bit bits i m hb room)

  step :
      (fs : List Bool) (m : ℕ)
      → (leb (i + 1) m && flag_at fs (m - (i + 1)) || bit_at one_flag m)
        ≡ (leb i m && flag_at (f ∷ fs) (m - i) || bit_at bits m)
  step fs m =
      let next : m - i - 1 ≡ m - (i + 1) = omega arith in
      ground (arith, next, bit_at-one_flag m, flag_at-cons f fs (m - i))

-- What the loop has done when it ends, started at index `i` with `count` flags seen.
record Flagged (flags : List Bool) (i : ℕ) (bits : List ℕ) (count : ℕ) (out : List ℕ × ℕ)
    : Type 0 where
  size : length out.0 ≡ length bits
  bytes : IsBytes out.0
  holds : (m : ℕ) → bit_at out.0 m ≡ (leb i m && flag_at flags (m - i) || bit_at bits m)
  total : out.1 ≡ count + flag_count flags

set_flags-Flagged :
    (flags : List Bool) (i : ℕ) (bits : List ℕ) (count : ℕ)
    → IsBytes bits
    → i + length flags ≤ 8 * length bits
    → count + length flags < 2 ^ 64
    → Flagged flags i bits count (set_flags flags i bits count)
unfolding set_flags
set_flags-Flagged [] i bits count hb room small = record {
  size = refl;
  bytes = hb;
  holds = λ m. ground arith;
  total = unfold count_from in omega arith;
}
set_flags-Flagged (f ∷ fs) i bits count hb room small =
    let inside : i / 8 < length bits = omega arith in
    let same = length-one_flag f i bits hb inside in
    let next = if f then u64 (count + 1) else count in
    let counted : next ≡ count + bit f = ground arith in
    let rest =
      set_flags-Flagged fs (i + 1) (one_flag f i bits hb inside) next
        (one_flag-IsBytes f i bits hb inside) (omega arith) (ground arith) in
    record {
      size = rest.size ∙ same;
      bytes = rest.bytes;
      holds = λ m. rest.holds m ∙ step f i bits hb inside fs m;
      total = omega (arith, rest.total, counted, flag_count-cons f fs);
    }

module _ (b : Bitfield) (flags : List Bool) (known : 0 < b.bit_count) (small : b.bit_count < 2 ^ 31)
    (size : length flags ≡ b.bit_count) where
  zeros : List ℕ
  zeros = replicate (bytes_needed b.bit_count) 0

  zeros-IsBytes : IsBytes zeros
  unfolding zeros
  zeros-IsBytes i = rw (get_or-replicate {A = ℕ} (bytes_needed b.bit_count) i 0) (omega arith)

  bit_at-zeros : (m : ℕ) → bit_at zeros m ≡ false
  unfolding zeros
  bit_at-zeros m = rw (get_or-replicate {A = ℕ} (bytes_needed b.bit_count) (m / 8) 0) (ground arith)

  length-zeros : length zeros ≡ bytes_needed b.bit_count
  unfolding zeros
  length-zeros = length-replicate (bytes_needed b.bit_count) 0

  -- The record before the loop: with zero bytes, or with ones where the count still says full.
  abbrev allocated : List ℕ → Bitfield
  allocated bits = record b { bits = bits; alloc_count = bytes_needed b.bit_count }

  allocated-zeros :
      b.true_count ≢ b.bit_count → ensure_bits_alloced (free_array b) b.bit_count ≡ allocated zeros
  unfolding ensure_bits_alloced free_array has_all zeros
  allocated-zeros part = ground (arith, bytes_needed_bounds b.bit_count)

  allocated-ones :
      b.true_count ≡ b.bit_count
      → ensure_bits_alloced (free_array b) b.bit_count ≡ allocated (set_all_true zeros b.bit_count)
  unfolding ensure_bits_alloced free_array has_all zeros
  allocated-ones full =
      let needed : max b.bit_count b.true_count ≡ b.bit_count = omega arith in
      ground (arith, needed, bytes_needed_bounds b.bit_count)

  flags_over :
      (bits : List ℕ)
      → IsBytes bits
      → length bits ≡ bytes_needed b.bit_count
      → Flagged flags 0 bits 0 (set_flags flags 0 bits 0)
  flags_over bits hb h =
      set_flags-Flagged flags 0 bits 0 hb (omega (arith, bytes_needed_bounds b.bit_count))
        (omega arith)

  -- The record after it.
  abbrev flag_field : List ℕ → Bitfield
  flag_field bits = allocated (set_flags flags 0 bits 0).0

  module _ (bits : List ℕ) (hb : IsBytes bits) (h : length bits ≡ bytes_needed b.bit_count)
      (excess : (m : ℕ) → b.bit_count ≤ m → bit_at bits m ≡ false) where
    bit_at-flag_field :
        (m : ℕ) → bit_at (flag_field bits).bits m ≡ (flag_at flags m || bit_at bits m)
    bit_at-flag_field m =
        let start : m - 0 ≡ m = omega arith in ground (arith, start, (flags_over bits hb h).holds m)

    flag_field-HasArray : HasArray (flag_field bits)
    flag_field-HasArray = record {
      sized = (flags_over bits hb h).size ∙ h;
      bytes = (flags_over bits hb h).bytes;
      known = known;
      small = small;
      fits = omega (arith, bytes_needed_bounds b.bit_count);
      excess = λ m k.
          ground
            (arith, bit_at-flag_field m, excess m k, get_or_beyond flags m false (omega arith));
    }

  bit_at-from_zeros : (m : ℕ) → bit_at (flag_field zeros).bits m ≡ flag_at flags m
  bit_at-from_zeros m = ground (
    arith,
    bit_at-flag_field zeros zeros-IsBytes length-zeros (λ m _. bit_at-zeros m) m,
    bit_at-zeros m,
  )

  counted :
      (set_flags flags 0 zeros 0).1 ≡ count_from (bit_at (flag_field zeros).bits) 0 b.bit_count
  counted =
      (flags_over zeros zeros-IsBytes length-zeros).total
      ∙ omega (
        arith,
        ap (count_from (flag_at flags) 0) size,
        count_from_shift (flag_at flags) (bit_at (flag_field zeros).bits) 0 0 b.bit_count
            (λ i _. sym (bit_at-from_zeros (0 + i))),
      )

  -- From a bitfield that is not full, `tr_bitfieldSetFromFlags` with a flag for each index makes a
  -- valid bitfield that holds exactly the flagged indices.
  pub set_from_flags-Becomes :
      b.true_count ≢ b.bit_count → Becomes b (set_from_flags b flags b.bit_count) (flag_at flags)
  unfolding set_from_flags
  set_from_flags-Becomes part =
      let a = flag_field-HasArray zeros zeros-IsBytes length-zeros (λ m _. bit_at-zeros m) in
      let s = set_true_count-Settles a (set_flags flags 0 zeros 0).1 counted in
      rw (allocated-zeros part) (record {
        valid = s.valid;
        width = s.width;
        holds = λ m h. s.same m h ∙ bit_at-from_zeros m;
      })

  beyond : (i : ℕ) → b.bit_count ≤ i → ltb i b.bit_count ≡ false
  beyond i k = ground arith

  -- From a full one it makes a bitfield that holds every index, whatever the flags, unless none is set.
  pub set_from_flags_stale :
      (m : ℕ)
      → b.true_count ≡ b.bit_count
      → flag_count flags ≢ 0
      → m < b.bit_count
      → has (set_from_flags b flags b.bit_count) m ≡ true
  unfolding set_from_flags
  set_from_flags_stale m full some_set h =
      let ones = set_all_true zeros b.bit_count in
      let hb = set_all_true-IsBytes zeros b.bit_count length-zeros in
      let long = length-set_all_true zeros b.bit_count ∙ length-zeros in
      let bits = λ (i : ℕ). bit_at-set_all_true zeros b.bit_count i known length-zeros in
      let excess = λ (i : ℕ) (k : b.bit_count ≤ i). bits i ∙ beyond i k in
      let counted : (set_flags flags 0 ones 0).1 ≢ 0 =
        λ e. some_set (omega (arith, (flags_over ones hb long).total, e)) in
      rw (allocated-ones full) (
        has-set_true_count (flag_field-HasArray ones hb long excess) (set_flags flags 0 ones 0).1 m
          counted (ground (arith, bit_at-flag_field ones hb long excess m, bits m)))
