-- ===== src/Bitfield/Tests.antt =====
-- Runs of the bitfield functions, and their theorems at concrete inputs.
use libtransmission.Prelude.{
  ℕ, ◌-◌, ◌^◌, ◌≡◌, refl, arith, List, [], ◌∷◌, Bool, true, false, some, not, ◌&&◌, ◌||◌, ◌==◌,
  count_from,
}
use libtransmission.Bitfield.{
  Bitfield, has, has_all, has_none, count_range, count_bits_in_range, count_across_bytes,
  count_within_byte, count_bytes, bits_in_byte, byte_at, true_bit_count, popcount, drop_first,
  drop_last, bytes_needed, set_all_true, get_raw,
}
use libtransmission.Bitfield.Inv.{IsValid}
use libtransmission.Bitfield.Settle.{Becomes}
use libtransmission.Bitfield.Queries.{count_range-eq-count_from}
use libtransmission.Bitfield.Single.{without, add-Becomes, rem_never_removes}
use libtransmission.Bitfield.Range.{within}
use libtransmission.Bitfield.Ranges.Add.{add_range-Becomes}
use libtransmission.Bitfield.Ranges.Remove.{rem_range-Becomes}
use libtransmission.Bitfield.Flags.{set_from_flags_stale}
use libtransmission.Bitfield.Raw.Install.{get_raw-set_raw}
use libtransmission.Bitfield.Whole.{construct_empty, set_has_all-Becomes, set_has_none-Becomes}
use libtransmission.Bitfield.Update.{
  add, rem, add_range, rem_range, add_range_bits, rem_range_bits, not_byte, construct, set_has_all,
  set_has_none, set_from_flags, set_raw, set_bit, clear_bit, ensure_bits_alloced,
  ensure_nth_bit_alloced, free_array, set_true_count, inc_true_count, int_to_size,
}

abbrev empty : Bitfield
empty = record {
  bits = [];
  alloc_count = 0;
  bit_count = 20;
  true_count = 0;
  have_all_hint = false;
  have_none_hint = false;
}

-- 2 to 10
abbrev span : Bitfield
span = record empty { bits = 0x3f ∷ 0xe0 ∷ []; alloc_count = 2; true_count = 9 }

abbrev full : Bitfield
full = record empty { true_count = 20; have_all_hint = true }

abbrev first_flag : List Bool
first_flag =
    true ∷ false ∷ false ∷ false ∷ false ∷ false ∷ false ∷ false ∷ false ∷ false ∷ false ∷ false
    ∷ false ∷ false ∷ false ∷ false ∷ false ∷ false ∷ false ∷ false ∷ []

-- all that a run of `add_range`, `rem_range` and the queries computes with
runs : ℕ
unfolding add rem add_range rem_range add_range_bits rem_range_bits not_byte construct set_bit
    clear_bit ensure_bits_alloced ensure_nth_bit_alloced free_array set_true_count inc_true_count
    int_to_size has has_all has_none count_range count_bits_in_range count_across_bytes
    count_within_byte count_bytes bits_in_byte byte_at true_bit_count popcount drop_first drop_last
    bytes_needed set_all_true set_has_all
runs = 0

run_starts : (construct 20 ≡ empty) × (add_range empty 2 11 ≡ span) × (set_has_all empty ≡ full)
unfolding runs
run_starts = (refl, refl, refl)

span_counts : (count_range span 0 20 ≡ 9) × (count_range span 4 9 ≡ 5) × (count_range span 9 20 ≡ 2)
unfolding runs
span_counts = (refl, refl, refl)

span_cut :
    rem_range span 3 20 ≡ record empty { bits = 0x20 ∷ 0 ∷ 0 ∷ []; alloc_count = 3; true_count = 1 }
unfolding runs
span_cut = refl

-- Removing index 5 from a bitfield that holds it changes nothing; removing one from an empty bitfield
-- leaves a count of 2 ^ 64 - 1.
rem_runs : (rem span 5 ≡ span) × ((rem empty 5).true_count ≡ 2 ^ 64 - 1)
unfolding runs
rem_runs = (refl, refl)

empty-IsValid : IsValid empty
unfolding runs
empty-IsValid = (construct_empty 20 (omega arith) (omega arith)).0

span-IsValid : IsValid span
unfolding runs
span-IsValid = (add_range-Becomes empty-IsValid 2 11 (omega arith) (omega arith)).valid

full-IsValid : IsValid full
unfolding runs
full-IsValid = (set_has_all-Becomes empty (omega arith) (omega arith)).valid

set_has_none-Becomes_example : Becomes span (set_has_none span) (λ _. false)
set_has_none-Becomes_example = set_has_none-Becomes span (omega arith) (omega arith)

count_range_example : count_range span 4 19 ≡ count_from (has span) 4 15
count_range_example = count_range-eq-count_from span-IsValid 4 19 (omega arith) (omega arith)

add-Becomes_example : Becomes span (add span 17) (λ m. 17 == m || has span m)
add-Becomes_example = add-Becomes span-IsValid 17 (omega arith)

add_range-Becomes_example : Becomes span (add_range span 9 20) (λ m. within 9 19 m || has span m)
add_range-Becomes_example = add_range-Becomes span-IsValid 9 20 (omega arith) (omega arith)

rem_range-Becomes_example :
    Becomes full (rem_range full 3 12) (λ m. not (within 3 11 m) && has full m)
rem_range-Becomes_example = rem_range-Becomes full-IsValid 3 12 (omega arith) (omega arith)

rem_never_removes_example : ¬ Becomes span (rem span 5) (without 5 (has span))
rem_never_removes_example = rem_never_removes span-IsValid 5 (omega arith)

set_from_flags_stale_example : has (set_from_flags full first_flag 20) 19 ≡ true
unfolding count_from
set_from_flags_stale_example =
    set_from_flags_stale full first_flag (omega arith) (omega arith) refl 19 refl (omega arith)
      (omega arith)

get_raw-set_raw_example :
    (c' : Bitfield) × (set_raw full (get_raw span) (bytes_needed 20) true ≡ some c')
    × Becomes full c' (has span)
get_raw-set_raw_example = get_raw-set_raw span-IsValid full refl
