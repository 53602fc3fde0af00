-- ===== src/Bitfield/View.antt =====
-- The array of src/bitfield.c as a function from bit numbers to Booleans, and what single writes
-- change of it.
use libtransmission.Prelude.{
  ℕ, ◌+◌, ◌-◌, ◌*◌, ◌/◌, ◌%◌, ◌≤◌, ◌<◌, bit_or, Bool, false, ◌||◌, ◌≡◌, arith, List, ltb, ◌==◌, u8,
  ◌<<<◌, ◌>>>◌, length, length-set, length-memset, memset, get_or-memset, set, get_or, get_or-set,
  get_or_beyond,
}
use libtransmission.Prelude.Bits.{bit_of}
use libtransmission.Bitfield.{bytes_needed, set_all_true}
use libtransmission.Bitfield.Byte.{bit_of-set, bit_of-last_byte, bit_of_ones}
use libtransmission.Bitfield.Update.{set_bit}

-- Bit `n` of an array of bytes; false beyond its end.
abbrev pub bit_at : List ℕ → ℕ → Bool
bit_at bits n = bit_of (get_or bits (n / 8) 0) (n % 8)

abbrev pub IsBytes : List ℕ → Type 0
IsBytes bits = (i : ℕ) → get_or bits i 0 < 256

-- A byte written into an array keeps the bytes bytes.
pub set-IsBytes :
    (bits : List ℕ) (i v : ℕ) → i < length bits → v < 256 → IsBytes bits → IsBytes (set bits i v)
set-IsBytes bits i v h hv hb j = ground (arith, get_or-set bits i j v 0, hb j)

pub bit_at_beyond : (bits : List ℕ) (n : ℕ) → length bits ≤ n / 8 → bit_at bits n ≡ false
bit_at_beyond bits n h = ground (arith, get_or_beyond bits (n / 8) 0 h)

pub set_bit-IsBytes :
    (bits : List ℕ) (n : ℕ) → n / 8 < length bits → IsBytes bits → IsBytes (set_bit bits n)
unfolding set_bit
set_bit-IsBytes bits n h = set-IsBytes bits (n / 8) _ h (omega arith)

pub length-set_bit : (bits : List ℕ) (n : ℕ) → length (set_bit bits n) ≡ length bits
unfolding set_bit
length-set_bit bits n = length-set bits (n / 8) _

pub bit_at-set_bit :
    (bits : List ℕ) (n m : ℕ)
    → IsBytes bits
    → n / 8 < length bits
    → bit_at (set_bit bits n) m ≡ (n == m || bit_at bits m)
unfolding set_bit
bit_at-set_bit bits n m hb h = ground (
  arith,
  get_or-set bits (n / 8) (m / 8) (u8 (bit_or (get_or bits (n / 8) 0) (0x80 >>> (n % 8)))) 0,
  bit_of-set (get_or bits (n / 8) 0) (n % 8) (m % 8) (hb (n / 8)),
)

-- `bytes_needed` is the quotient rounded up.
pub bytes_needed_bounds : (n : ℕ) → (n ≤ 8 * bytes_needed n) × (8 * bytes_needed n < n + 8)
unfolding bytes_needed
bytes_needed_bounds n = ground arith

-- `set_all_true` sets the first `n` bits of an array that is just long enough for them.
pub bit_at-set_all_true :
    (bits : List ℕ) (n m : ℕ)
    → 0 < n
    → length bits ≡ bytes_needed n
    → bit_at (set_all_true bits n) m ≡ ltb m n
unfolding set_all_true
bit_at-set_all_true bits n m pos size =
    let k = bytes_needed n in
    let last = u8 (0xff <<< (k * 8 - n)) in
    ground (
      arith,
      bytes_needed_bounds n,
      length-memset bits 0 (k - 1) 0xff,
      get_or-set (memset bits 0 (k - 1) 0xff) (k - 1) (m / 8) last 0,
      get_or-memset bits 0 (k - 1) (m / 8) 0xff 0,
      get_or_beyond bits (m / 8) 0,
      bit_of-last_byte (k * 8 - n) (m % 8),
      bit_of_ones 0 (m % 8),
    )

pub set_all_true-IsBytes :
    (bits : List ℕ) (n : ℕ) → length bits ≡ bytes_needed n → IsBytes (set_all_true bits n)
unfolding set_all_true
set_all_true-IsBytes bits n size i =
    let k = bytes_needed n in
    let last = u8 (0xff <<< (k * 8 - n)) in
    ground (
      arith,
      length-memset bits 0 (k - 1) 0xff,
      get_or-set (memset bits 0 (k - 1) 0xff) (k - 1) i last 0,
      get_or-memset bits 0 (k - 1) i 0xff 0,
      get_or_beyond bits i 0,
    )

pub length-set_all_true : (bits : List ℕ) (n : ℕ) → length (set_all_true bits n) ≡ length bits
unfolding set_all_true
length-set_all_true bits n =
    let k = bytes_needed n in
    ground (
      arith,
      length-set (memset bits 0 (k - 1) 0xff) (k - 1) (u8 (0xff <<< (k * 8 - n))),
      length-memset bits 0 (k - 1) 0xff,
    )
