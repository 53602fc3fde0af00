-- ===== src/Bitfield/Raw/Install.antt =====
-- `tr_bitfieldSetRaw` and `tr_bitfieldSetFromBitfield`.
use libtransmission.Prelude.{
  ℕ, ◌+◌, ◌-◌, ◌*◌, ◌/◌, ◌%◌, ◌^◌, ◌<◌, ◌≡◌, ap, sym, ◌∙◌, arith, List, true, none, some, ltb, ◌==◌,
  ◌&&◌, bit_and, if◌then◌else◌, min, length, get_or, set, take, u8, u32, sub64, ◌<<<◌, count_from,
  get_or_beyond, get_or-set, length-set, take-length, count_from_none, count_from-add,
}
use libtransmission.Bitfield.{Bitfield, has, bytes_needed, get_raw, count_array}
use libtransmission.Bitfield.Masks.{bit_of-cut}
use libtransmission.Bitfield.View.{bit_at, IsBytes, bytes_needed_bounds}
use libtransmission.Bitfield.Count.{count_array-eq}
use libtransmission.Bitfield.Inv.{HasArray, IsValid}
use libtransmission.Bitfield.Settle.{Becomes, set_true_count-Settles}
use libtransmission.Bitfield.Update.{set_raw, copy_raw, mask_excess, rebuild_true_count, free_array}
use libtransmission.Bitfield.Raw.{get_raw-IsRaw}

module _ (b : Bitfield) (bits : List ℕ) (known : 0 < b.bit_count) (small : b.bit_count < 2 ^ 31)
    (hb : IsBytes bits) (size : length bits ≡ bytes_needed b.bit_count) where
  abbrev excess_bits : ℕ
  excess_bits = bytes_needed b.bit_count * 8 - b.bit_count

  abbrev last_byte : ℕ
  last_byte = bytes_needed b.bit_count - 1

  abbrev cut_byte : ℕ
  cut_byte = u8 (bit_and (get_or bits last_byte 0) (0xff <<< excess_bits))

  abbrev cut : List ℕ
  cut = if excess_bits == 0 then bits else set bits last_byte (cut_byte)

  abbrev cut_field : Bitfield
  cut_field = record b { bits = cut; alloc_count = bytes_needed b.bit_count; true_count = 0 }

  take_all : take (bytes_needed b.bit_count) bits ≡ bits
  take_all = rw (sym size) (take-length bits)

  copy_raw-eq :
      copy_raw b bits (bytes_needed b.bit_count) true
      ≡ record b { bits = bits; alloc_count = bytes_needed b.bit_count; true_count = 0 }
  unfolding copy_raw free_array
  copy_raw-eq =
      let kept : min (bytes_needed b.bit_count) (bytes_needed b.bit_count)
          ≡ bytes_needed b.bit_count =
        omega arith in
      rw (kept, take_all)

  mask_excess-eq :
      mask_excess (record b { bits = bits; alloc_count = bytes_needed b.bit_count; true_count = 0 })
      ≡ some cut_field
  unfolding mask_excess
  mask_excess-eq =
      let bounds = bytes_needed_bounds b.bit_count in
      let excess : u32 (sub64 (bytes_needed b.bit_count * 8) b.bit_count) ≡ excess_bits =
        omega arith in
      rw excess (ground arith)

  set_raw-eq : set_raw b bits (bytes_needed b.bit_count) true ≡ some (rebuild_true_count cut_field)
  unfolding set_raw
  set_raw-eq = rw (copy_raw-eq, mask_excess-eq)

  cut-IsBytes : IsBytes cut
  cut-IsBytes i =
      ground (arith, get_or-set bits last_byte i cut_byte 0, hb i, bytes_needed_bounds b.bit_count)

  bit_at-cut : (m : ℕ) → bit_at cut m ≡ (ltb m b.bit_count && bit_at bits m)
  bit_at-cut m = ground (
    arith,
    bytes_needed_bounds b.bit_count,
    get_or-set bits last_byte (m / 8) cut_byte 0,
    bit_of-cut (get_or bits (m / 8) 0) excess_bits (m % 8) (hb (m / 8)),
    get_or_beyond bits (m / 8) 0,
  )

  length-cut : length cut ≡ length bits
  length-cut = ground (arith, length-set bits last_byte (cut_byte))

  cut-HasArray : HasArray cut_field
  cut-HasArray =
      let bounds = bytes_needed_bounds b.bit_count in
      record {
        sized = length-cut ∙ size;
        bytes = cut-IsBytes;
        known = known;
        small = small;
        fits = omega arith;
        excess = λ m h. ground (arith, bit_at-cut m);
      }

  -- The recount runs over whole bytes; the bits beyond `bit_count` add nothing.
  recount : count_array cut_field ≡ count_from (bit_at cut) 0 b.bit_count
  recount =
      let bounds = bytes_needed_bounds b.bit_count in
      let all = 8 * bytes_needed b.bit_count in
      let split : b.bit_count + (all - b.bit_count) ≡ all = omega arith in
      count_array-eq cut_field cut-IsBytes (omega arith)
      ∙ ap (count_from (bit_at cut) 0) (sym split)
      ∙ omega (
        arith,
        count_from-add (bit_at cut) 0 b.bit_count (all - b.bit_count),
        count_from_none (bit_at cut) (0 + b.bit_count) (all - b.bit_count)
            (λ i h. cut-HasArray.excess i (omega arith)),
      )

  rebuilt : Becomes b (rebuild_true_count cut_field) (bit_at bits)
  unfolding rebuild_true_count
  rebuilt =
      let s = set_true_count-Settles cut-HasArray (count_array cut_field) recount in
      record {
        valid = s.valid;
        width = s.width;
        holds = λ m h. s.same m h ∙ ground (arith, bit_at-cut m);
      }

  -- `tr_bitfieldSetRaw`, bounded and given exactly as many bytes as needed, succeeds, and the bitfield
  -- holds the bits of those bytes below `bit_count`.
  pub set_raw-Becomes :
      (b' : Bitfield) × (set_raw b bits (bytes_needed b.bit_count) true ≡ some b')
      × Becomes b b' (bit_at bits)
  set_raw-Becomes = (rebuild_true_count cut_field, set_raw-eq, rebuilt)

-- Fewer bytes than `bit_count` needs fail the assertions on the excess bits, whatever the bytes are.
pub set_raw_short :
    (b : Bitfield) (bits : List ℕ) (n : ℕ)
    → b.bit_count < 2 ^ 31
    → n < bytes_needed b.bit_count
    → set_raw b bits n true ≡ none
unfolding set_raw mask_excess copy_raw free_array
set_raw_short b bits n small short =
    let bounds = bytes_needed_bounds b.bit_count in
    let kept : min n (bytes_needed b.bit_count) ≡ n = omega arith in
    let negative : ltb 7 (u32 (sub64 (n * 8) b.bit_count)) ≡ true = ground arith in
    rw (kept, negative)

-- A bitfield written out by `tr_bitfieldGetRaw` and read back by `tr_bitfieldSetRaw` into another of
-- the same width holds the same indices.
pub get_raw-set_raw :
    {b : Bitfield} (v : IsValid b) (c : Bitfield)
    → c.bit_count ≡ b.bit_count
    → (c' : Bitfield) × (set_raw c (get_raw b) (bytes_needed c.bit_count) true ≡ some c')
      × Becomes c c' (has b)
get_raw-set_raw {b} v c e =
    let raw = get_raw-IsRaw v in
    let a = v.array in
    let (c', eq, r) =
      set_raw-Becomes c (get_raw b) (rw e a.known) (rw e a.small) raw.values (rw e raw.size) in
    (
      c',
      eq,
      record {
        valid = r.valid;
        width = r.width;
        holds = λ m h. r.holds m h ∙ raw.holds m (rw (← e) h);
      },
    )
