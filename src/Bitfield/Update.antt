-- ===== src/Bitfield/Update.antt =====
-- The functions of src/bitfield.c that change `*b`, each returning the new record.
use libtransmission.Prelude.{
  ℕ, ◌+◌, ◌-◌, ◌*◌, ◌%◌, ◌^◌, min, max, bit_and, bit_or, Bool, true, false, ◌||◌, List, [], ◌∷◌,
  ◌++◌, Option, none, some, if◌then◌else◌, ltb, leb, ◌==◌, get_or, set, take, replicate, memset, u8,
  u32, u64, sub64, ◌<<<◌, ◌>>>◌,
}
use mathlib.Core.Option
use libtransmission.Bitfield.{
  Bitfield, has, has_all, has_none, bytes_needed, set_all_true, count_range, count_array,
}

-- `tr_bitfieldEnsureBitsAlloced`: the array grows by zero bytes; that of a full bitfield is written.
unfoldable pub ensure_bits_alloced : Bitfield → ℕ → Bitfield
ensure_bits_alloced b n =
    let needed = if has_all b then bytes_needed (max n b.true_count) else bytes_needed n in
    let grown = b.bits ++ replicate (needed - b.alloc_count) 0 in
    let filled = if has_all b then set_all_true grown b.true_count else grown in
    if ltb b.alloc_count needed then record b { bits = filled; alloc_count = needed } else b

-- `tr_bitfieldEnsureNthBitAlloced`: false for the index SIZE_MAX
unfoldable pub ensure_nth_bit_alloced : Bitfield → ℕ → Bool × Bitfield
ensure_nth_bit_alloced b nth =
    if nth == 2 ^ 64 - 1 then (false, b) else (true, ensure_bits_alloced b (nth + 1))

unfoldable pub free_array : Bitfield → Bitfield
free_array b = record b { bits = []; alloc_count = 0 }

unfoldable pub set_true_count : Bitfield → ℕ → Bitfield
set_true_count b n =
    let b' = record b { true_count = n } in if has_all b' || has_none b' then free_array b' else b'

unfoldable pub rebuild_true_count : Bitfield → Bitfield
rebuild_true_count b = set_true_count b (count_array b)

-- An `int`, given by its 32 bits, as the `size_t` that it is converted to.
unfoldable pub int_to_size : ℕ → ℕ
int_to_size i = if ltb i (2 ^ 31) then i else i + 2 ^ 64 - 2 ^ 32

unfoldable pub inc_true_count : Bitfield → ℕ → Bitfield
inc_true_count b i = set_true_count b (u64 (b.true_count + int_to_size i))

unfoldable pub construct : ℕ → Bitfield
construct bit_count = record {
  bits = [];
  alloc_count = 0;
  bit_count = bit_count;
  true_count = 0;
  have_all_hint = false;
  have_none_hint = false;
}

unfoldable pub set_has_none : Bitfield → Bitfield
set_has_none b = record (free_array b) {
  true_count = 0;
  have_all_hint = false;
  have_none_hint = true;
}

unfoldable pub set_has_all : Bitfield → Bitfield
set_has_all b = record (free_array b) {
  true_count = b.bit_count;
  have_all_hint = true;
  have_none_hint = false;
}

-- `excess_bit_count` is an `int`: negative numbers have patterns from 2 ^ 31 on. `none` is a failed
-- assertion that it lies from 0 to 7.
unfoldable pub mask_excess : Bitfield → Option Bitfield
mask_excess b =
    let excess = u32 (sub64 (b.alloc_count * 8) b.bit_count) in
    let last = b.alloc_count - 1 in
    if ltb 7 excess
    then none
    else if excess == 0
    then some b
    else some (record b {
      bits = set b.bits last (u8 (bit_and (get_or b.bits last 0) (0xff <<< excess)));
    })

-- The array replaced by the first bytes of the source: at most as many as needed, if `bounded`.
unfoldable pub copy_raw : Bitfield → List ℕ → ℕ → Bool → Bitfield
copy_raw b bits byte_count bounded =
    let kept = if bounded then min byte_count (bytes_needed b.bit_count) else byte_count in
    record (free_array b) { true_count = 0; bits = take kept bits; alloc_count = kept }

unfoldable pub set_raw : Bitfield → List ℕ → ℕ → Bool → Option Bitfield
set_raw b bits byte_count bounded =
    let copied = copy_raw b bits byte_count bounded in
    Option.map rebuild_true_count (if bounded then mask_excess copied else some copied)

unfoldable pub set_from_bitfield : Bitfield → Bitfield → Option Bitfield
set_from_bitfield b src =
    if has_all src
    then some (set_has_all b)
    else if has_none src
    then some (set_has_none b)
    else set_raw b src.bits src.alloc_count true

-- `bits[nth >> 3] |= (0x80 >> (nth & 7))`
unfoldable pub set_bit : List ℕ → ℕ → List ℕ
set_bit bits nth =
    set bits (nth >>> 3) (u8 (bit_or (get_or bits (nth >>> 3) 0) (0x80 >>> (nth % 8))))

-- The loop of `tr_bitfieldSetFromFlags` from index `i` on: the array and the count.
unfoldable pub set_flags : List Bool → ℕ → List ℕ → ℕ → List ℕ × ℕ
set_flags [] i bits count = (bits, count)
set_flags (flag ∷ flags) i bits count =
    set_flags flags (i + 1) (if flag then set_bit bits i else bits)
      (if flag then u64 (count + 1) else count)

unfoldable pub set_from_flags : Bitfield → List Bool → ℕ → Bitfield
set_from_flags b flags n =
    let b' = ensure_bits_alloced (free_array b) n in
    let (bits, count) = set_flags flags 0 b'.bits 0 in
    set_true_count (record b' { bits = bits }) count

unfoldable pub add : Bitfield → ℕ → Bitfield
add b nth =
    if has b nth
    then b
    else let (done, b') = ensure_nth_bit_alloced b nth in
      if done then inc_true_count (record b' { bits = set_bit b'.bits nth }) 1 else b'

-- `unsigned char` of `~ x`
unfoldable pub not_byte : ℕ → ℕ
not_byte x = 255 - u8 x

-- the bytes of `tr_bitfieldAddRange`, `end` being the last index
unfoldable pub add_range_bits : List ℕ → ℕ → ℕ → List ℕ
add_range_bits bits begin end =
    let sb = begin >>> 3 in
    let sm = not_byte (0xff <<< (8 - begin % 8)) in
    let eb = end >>> 3 in
    let em = u8 (0xff <<< (7 - end % 8)) in
    let bits₁ = set bits sb (u8 (bit_or (get_or bits sb 0) sm)) in
    let bits₂ = set bits₁ eb (u8 (bit_or (get_or bits₁ eb 0) em)) in
    if sb == eb
    then set bits sb (u8 (bit_or (get_or bits sb 0) (bit_and sm em)))
    else if ltb (sb + 1) eb
    then memset bits₂ (sb + 1) (eb - (sb + 1)) 0xff
    else bits₂

unfoldable pub add_range : Bitfield → ℕ → ℕ → Bitfield
add_range b begin end =
    let diff = sub64 (sub64 end begin) (count_range b begin end) in
    let last = sub64 end 1 in
    let (done, b') = ensure_nth_bit_alloced b last in
    if diff == 0
    then b
    else if leb b.bit_count last || ltb last begin
    then b
    else if done
    then inc_true_count (record b' { bits = add_range_bits b'.bits begin last }) (u32 diff)
    else b'

-- `bits[nth >> 3] &= (0xff7f >> (nth & 7))`
unfoldable pub clear_bit : List ℕ → ℕ → List ℕ
clear_bit bits nth =
    set bits (nth >>> 3) (u8 (bit_and (get_or bits (nth >>> 3) 0) (0xff7f >>> (nth % 8))))

unfoldable pub rem : Bitfield → ℕ → Bitfield
rem b nth =
    if has b nth
    then b
    else let (done, b') = ensure_nth_bit_alloced b nth in
      if done then inc_true_count (record b' { bits = clear_bit b'.bits nth }) (2 ^ 32 - 1) else b'

-- the bytes of `tr_bitfieldRemRange`, `end` being the last index
unfoldable pub rem_range_bits : List ℕ → ℕ → ℕ → List ℕ
rem_range_bits bits begin end =
    let sb = begin >>> 3 in
    let sm = u8 (0xff <<< (8 - begin % 8)) in
    let eb = end >>> 3 in
    let em = not_byte (0xff <<< (7 - end % 8)) in
    let bits₁ = set bits sb (u8 (bit_and (get_or bits sb 0) sm)) in
    let bits₂ = set bits₁ eb (u8 (bit_and (get_or bits₁ eb 0) em)) in
    if sb == eb
    then set bits sb (u8 (bit_and (get_or bits sb 0) (bit_or sm em)))
    else if ltb (sb + 1) eb
    then memset bits₂ (sb + 1) (eb - (sb + 1)) 0
    else bits₂

unfoldable pub rem_range : Bitfield → ℕ → ℕ → Bitfield
rem_range b begin end =
    let diff = count_range b begin end in
    let last = sub64 end 1 in
    let (done, b') = ensure_nth_bit_alloced b last in
    if diff == 0
    then b
    else if leb b.bit_count last || ltb last begin
    then b
    else if done
    then inc_true_count (record b' { bits = rem_range_bits b'.bits begin last })
        (u32 (sub64 0 diff))
    else b'
