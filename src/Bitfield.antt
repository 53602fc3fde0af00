-- ===== src/Bitfield.antt =====
-- src/bitfield.c and src/bitfield.h: `tr_bitfield`, an array of bits that is kept only while it is
-- neither empty nor full. A function that updates `*b` returns the new record. `alloc_count` is the
-- length of `bits`, and NULL is the empty list; `size_t` arithmetic wraps at 2 ^ 64.
pub mod Update
mod Byte
mod Masks
pub mod View
mod Count
pub mod Inv
pub mod Queries
pub mod Settle
mod Range
mod Grow
pub mod Single
pub mod Ranges
pub mod Flags
pub mod Raw
pub mod Whole
mod Tests
use libtransmission.Prelude.{
  ℕ, zero, suc, ◌+◌, ◌-◌, ◌*◌, ◌/◌, ◌%◌, ◌^◌, min, max, bit_and, bit_or, Bool, true, false, not,
  ◌&&◌, ◌||◌, List, [], ◌∷◌, ◌++◌, Option, none, some, if◌then◌else◌, ltb, leb, ◌==◌, get_or, set,
  take, replicate, memset, memcpy, u8, u32, u64, sub64, ◌<<<◌, ◌>>>◌,
}

pub record Bitfield : Type 0 where
  pub bits : List ℕ
  pub alloc_count : ℕ
  pub bit_count : ℕ
  pub true_count : ℕ
  pub have_all_hint : Bool
  pub have_none_hint : Bool

-- the number of set bits of each byte
pub true_bit_count : List ℕ
true_bit_count =
    0 ∷ 1 ∷ 1 ∷ 2 ∷ 1 ∷ 2 ∷ 2 ∷ 3 ∷ 1 ∷ 2 ∷ 2 ∷ 3 ∷ 2 ∷ 3 ∷ 3 ∷ 4 ∷ 1 ∷ 2 ∷ 2 ∷ 3 ∷ 2 ∷ 3 ∷ 3 ∷ 4
    ∷ 2 ∷ 3 ∷ 3 ∷ 4 ∷ 3 ∷ 4 ∷ 4 ∷ 5 ∷ 1 ∷ 2 ∷ 2 ∷ 3 ∷ 2 ∷ 3 ∷ 3 ∷ 4 ∷ 2 ∷ 3 ∷ 3 ∷ 4 ∷ 3 ∷ 4 ∷ 4 ∷ 5
    ∷ 2 ∷ 3 ∷ 3 ∷ 4 ∷ 3 ∷ 4 ∷ 4 ∷ 5 ∷ 3 ∷ 4 ∷ 4 ∷ 5 ∷ 4 ∷ 5 ∷ 5 ∷ 6 ∷ 1 ∷ 2 ∷ 2 ∷ 3 ∷ 2 ∷ 3 ∷ 3 ∷ 4
    ∷ 2 ∷ 3 ∷ 3 ∷ 4 ∷ 3 ∷ 4 ∷ 4 ∷ 5 ∷ 2 ∷ 3 ∷ 3 ∷ 4 ∷ 3 ∷ 4 ∷ 4 ∷ 5 ∷ 3 ∷ 4 ∷ 4 ∷ 5 ∷ 4 ∷ 5 ∷ 5 ∷ 6
    ∷ 2 ∷ 3 ∷ 3 ∷ 4 ∷ 3 ∷ 4 ∷ 4 ∷ 5 ∷ 3 ∷ 4 ∷ 4 ∷ 5 ∷ 4 ∷ 5 ∷ 5 ∷ 6 ∷ 3 ∷ 4 ∷ 4 ∷ 5 ∷ 4 ∷ 5 ∷ 5 ∷ 6
    ∷ 4 ∷ 5 ∷ 5 ∷ 6 ∷ 5 ∷ 6 ∷ 6 ∷ 7 ∷ 1 ∷ 2 ∷ 2 ∷ 3 ∷ 2 ∷ 3 ∷ 3 ∷ 4 ∷ 2 ∷ 3 ∷ 3 ∷ 4 ∷ 3 ∷ 4 ∷ 4 ∷ 5
    ∷ 2 ∷ 3 ∷ 3 ∷ 4 ∷ 3 ∷ 4 ∷ 4 ∷ 5 ∷ 3 ∷ 4 ∷ 4 ∷ 5 ∷ 4 ∷ 5 ∷ 5 ∷ 6 ∷ 2 ∷ 3 ∷ 3 ∷ 4 ∷ 3 ∷ 4 ∷ 4 ∷ 5
    ∷ 3 ∷ 4 ∷ 4 ∷ 5 ∷ 4 ∷ 5 ∷ 5 ∷ 6 ∷ 3 ∷ 4 ∷ 4 ∷ 5 ∷ 4 ∷ 5 ∷ 5 ∷ 6 ∷ 4 ∷ 5 ∷ 5 ∷ 6 ∷ 5 ∷ 6 ∷ 6 ∷ 7
    ∷ 2 ∷ 3 ∷ 3 ∷ 4 ∷ 3 ∷ 4 ∷ 4 ∷ 5 ∷ 3 ∷ 4 ∷ 4 ∷ 5 ∷ 4 ∷ 5 ∷ 5 ∷ 6 ∷ 3 ∷ 4 ∷ 4 ∷ 5 ∷ 4 ∷ 5 ∷ 5 ∷ 6
    ∷ 4 ∷ 5 ∷ 5 ∷ 6 ∷ 5 ∷ 6 ∷ 6 ∷ 7 ∷ 3 ∷ 4 ∷ 4 ∷ 5 ∷ 4 ∷ 5 ∷ 5 ∷ 6 ∷ 4 ∷ 5 ∷ 5 ∷ 6 ∷ 5 ∷ 6 ∷ 6 ∷ 7
    ∷ 4 ∷ 5 ∷ 5 ∷ 6 ∷ 5 ∷ 6 ∷ 6 ∷ 7 ∷ 5 ∷ 6 ∷ 6 ∷ 7 ∷ 6 ∷ 7 ∷ 7 ∷ 8 ∷ []

pub byte_at : Bitfield → ℕ → ℕ
byte_at b i = get_or b.bits i 0

pub bits_in_byte : Bitfield → ℕ → ℕ
bits_in_byte b i = get_or true_bit_count (byte_at b i) 0

-- `while (--i >= 0)`, with `i` bytes left
pub count_array_loop : Bitfield → ℕ → ℕ → ℕ
count_array_loop b zero ret = ret
count_array_loop b (suc i) ret = count_array_loop b i (u64 (ret + bits_in_byte b i))

pub count_array : Bitfield → ℕ
count_array b = count_array_loop b b.alloc_count 0

-- the middle bytes: `n` bytes from `i` on
pub count_bytes : Bitfield → ℕ → ℕ → ℕ → ℕ
count_bytes b i zero ret = ret
count_bytes b i (suc n) ret = count_bytes b (i + 1) n (u64 (ret + bits_in_byte b i))

-- `val <<= i; val >>= i` on a byte drops the first `i` bits, `val >>= i; val <<= i` the last `i`.
pub drop_first : ℕ → ℕ → ℕ
drop_first i val = u8 (val <<< i) >>> i

pub drop_last : ℕ → ℕ → ℕ
drop_last i val = u8 (val >>> i <<< i)

pub popcount : ℕ → ℕ
popcount val = get_or true_bit_count val 0

-- The branch of `countRange` for a range that stays within one byte.
pub count_within_byte : Bitfield → ℕ → ℕ → ℕ
count_within_byte b begin end =
    let first_byte = begin >>> 3 in
    popcount (
      drop_last ((first_byte + 1) * 8 - end)
        (drop_first (begin - first_byte * 8) (byte_at b first_byte)))

-- The branch for a range over several bytes.
pub count_across_bytes : Bitfield → ℕ → ℕ → ℕ
count_across_bytes b begin end =
    let first_byte = begin >>> 3 in
    let last_byte = sub64 end 1 >>> 3 in
    let walk_end = min b.alloc_count last_byte in
    let first = popcount (drop_first (begin - first_byte * 8) (byte_at b first_byte)) in
    let ret = count_bytes b (first_byte + 1) (walk_end - (first_byte + 1)) first in
    if ltb last_byte b.alloc_count
    then u64 (ret + popcount (drop_last ((last_byte + 1) * 8 - end) (byte_at b last_byte)))
    else ret

-- `countRange`
pub count_bits_in_range : Bitfield → ℕ → ℕ → ℕ
count_bits_in_range b begin end =
    if b.bit_count == 0
    then 0
    else if leb b.alloc_count (begin >>> 3)
    then 0
    else if begin >>> 3 == sub64 end 1 >>> 3
    then count_within_byte b begin end
    else count_across_bytes b begin end

pub has_all : Bitfield → Bool
has_all b = if b.bit_count == 0 then b.have_all_hint else b.true_count == b.bit_count

pub has_none : Bitfield → Bool
has_none b = if b.bit_count == 0 then b.have_none_hint else b.true_count == 0

pub count_range : Bitfield → ℕ → ℕ → ℕ
count_range b begin end =
    if has_all b then sub64 end begin else if has_none b then 0 else count_bits_in_range b begin end

pub has : Bitfield → ℕ → Bool
has b n =
    if has_all b
    then true
    else if has_none b
    then false
    else if leb b.alloc_count (n >>> 3)
    then false
    else not (bit_and (byte_at b (n >>> 3) <<< (n % 8)) 0x80 == 0)

pub count_true_bits : Bitfield → ℕ
count_true_bits b = b.true_count

pub bytes_needed : ℕ → ℕ
bytes_needed bit_count = (bit_count >>> 3) + (if bit_count % 8 == 0 then 0 else 1)

pub set_all_true : List ℕ → ℕ → List ℕ
set_all_true array bit_count =
    let n = bytes_needed bit_count in
    if ltb 0 n
    then set (memset array 0 (n - 1) 0xff) (n - 1) (u8 (0xff <<< (n * 8 - bit_count)))
    else array

pub get_raw : Bitfield → List ℕ
get_raw b =
    let bits = replicate (bytes_needed b.bit_count) 0 in
    if not (b.alloc_count == 0)
    then memcpy bits b.bits b.alloc_count
    else if has_all b
    then set_all_true bits b.bit_count
    else bits
