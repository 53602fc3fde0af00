-- ===== src/Variant/Benc/Decimal.antt =====
-- Base 10 as the C library reads and writes it, for numbers of 64 bits.
use native.Mathlib.Nat.{add-zero}
use libtransmission.Prelude.{
  ℕ, zero, suc, ◌+◌, ◌-◌, ◌*◌, ◌/◌, ◌%◌, ◌^◌, ◌<◌, ◌≡◌, refl, ap, arith, Bool, true, false, List,
  [], ◌∷◌, ◌++◌, Option, some, if◌then◌else◌, ltb, ◌==◌, length,
}
use libtransmission.Variant.{ℤ, pos, negsuc}
use libtransmission.Variant.Benc.{Numbers, is_digit, is_zero, is_empty, starts_with_zero}
use libtransmission.Variant.Benc.Strings.{InInt64, all_of, is_int_char, IsDecimal}

unfoldable pub digits : ℕ → ℕ → List ℕ
digits zero n = (n % 10 + 48) ∷ []
digits (suc f) n =
    let more = digits f (n / 10) ++ (n % 10 + 48) ∷ [] in if ltb n 10 then (n + 48) ∷ [] else more

unfoldable pub scan : ℕ → ℕ → List ℕ → ℕ × ℕ
scan acc count [] = (acc, count)
scan acc count (c ∷ cs) =
    let more = scan (acc * 10 + (c - 48)) (count + 1) cs in
    if is_digit c then more else (acc, count)

unfoldable pub value : ℕ → List ℕ → ℕ
value acc [] = acc
value acc (c ∷ cs) = value (acc * 10 + (c - 48)) cs

-- The numbers of at most `f + 1` digits are below this.
room : ℕ → ℕ
room zero = 10
room (suc f) = 10 * room f

all_of-append :
    (p : ℕ → Bool) (xs ys : List ℕ)
    → all_of p xs ≡ true
    → all_of p ys ≡ true
    → all_of p (xs ++ ys) ≡ true
all_of-append p [] ys h k = k
all_of-append p (x ∷ xs) ys h k = ground (arith, all_of-append p xs ys)

digits-chars : (f n : ℕ) → all_of is_digit (digits f n) ≡ true
unfolding digits
digits-chars zero n = ground arith
digits-chars (suc f) n = ground (
  arith,
  all_of-append is_digit (digits f (n / 10)) ((n % 10 + 48) ∷ []) (digits-chars f (n / 10)),
)

is_empty-append : (xs ys : List ℕ) → is_empty xs ≡ false → is_empty (xs ++ ys) ≡ false
unfolding is_empty
is_empty-append [] ys h = cc (h)
is_empty-append (x ∷ xs) ys h = refl

starts-append :
    (xs ys : List ℕ) → is_empty xs ≡ false → starts_with_zero (xs ++ ys) ≡ starts_with_zero xs
unfolding is_empty starts_with_zero
starts-append [] ys h = cc (h)
starts-append (x ∷ xs) ys h = refl

digits_some : (f n : ℕ) → is_empty (digits f n) ≡ false
unfolding digits is_empty
digits_some zero n = refl
digits_some (suc f) n =
    ground
      (arith, is_empty-append (digits f (n / 10)) ((n % 10 + 48) ∷ []) (digits_some f (n / 10)))

value-append :
    (acc : ℕ) (xs : List ℕ) (d : ℕ) → value acc (xs ++ d ∷ []) ≡ value acc xs * 10 + (d - 48)
unfolding value
value-append acc [] d = refl
value-append acc (x ∷ xs) d = value-append (acc * 10 + (x - 48)) xs d

value-digits : (f n : ℕ) → n < room f → value 0 (digits f n) ≡ n
unfolding digits room value
value-digits zero n h = omega arith
value-digits (suc f) n h =
    ground (arith, value-append 0 (digits f (n / 10)) (n % 10 + 48), value-digits f (n / 10))

scan-append :
    (acc count : ℕ) (xs rest : List ℕ) (c : ℕ)
    → all_of is_digit xs ≡ true
    → is_digit c ≡ false
    → scan acc count (xs ++ c ∷ rest) ≡ (value acc xs, count + length xs)
unfolding scan value
scan-append acc count [] rest c h k = ground (arith, add-zero count)
scan-append acc count (x ∷ xs) rest c h k =
    ground (arith, scan-append (acc * 10 + (x - 48)) (count + 1) xs rest c)

starts-digits : (f n : ℕ) → n < room f → starts_with_zero (digits f n) ≡ (n == 0)
unfolding digits room starts_with_zero
starts-digits zero n h = ground arith
starts-digits (suc f) n h = ground (
  arith,
  starts-append (digits f (n / 10)) ((n % 10 + 48) ∷ []) (digits_some f (n / 10)),
  starts-digits f (n / 10),
)

-- Twenty digits.
abbrev print_nat : ℕ → List ℕ
print_nat n = digits 19 n

unfoldable pub negated : ℕ → ℤ
negated n = if n == 0 then pos 0 else negsuc (n - 1)

unfoldable pub read_nat : List ℕ → Option (ℕ × ℕ)
read_nat xs = some (scan 0 0 xs)

unfoldable pub read_int : List ℕ → Option (ℤ × ℕ)
read_int [] = some (pos 0, 0)
read_int (c ∷ cs) =
    let (v, n) = scan 0 0 cs in
    let (w, m) = scan 0 0 (c ∷ cs) in if c == b'-' then some (negated v, n + 1) else some (pos w, m)

unfoldable pub print_int : ℤ → List ℕ
print_int (pos n) = print_nat n
print_int (negsuc n) = b'-' ∷ print_nat (n + 1)

unfoldable pub decimal : Numbers
decimal = record {
  strtoll = read_int;
  strtoul = read_nat;
  print_int = print_int;
  print_size = λ n. print_nat n;
  behind = [];
}

twenty : (n : ℕ) → n < 2 ^ 64 → n < room 19
unfolding room
twenty n h = omega arith

nat_read :
    (n c : ℕ) (rest : List ℕ)
    → n < 2 ^ 64
    → is_digit c ≡ false
    → scan 0 0 (print_nat n ++ c ∷ rest) ≡ (n, length (print_nat n))
nat_read n c rest h k = ground (
  arith,
  scan-append 0 0 (print_nat n) rest c (digits-chars 19 n) k,
  value-digits 19 n (twenty n h),
)

int_chars_of : (xs : List ℕ) → all_of is_digit xs ≡ true → all_of is_int_char xs ≡ true
int_chars_of [] h = refl
int_chars_of (x ∷ xs) h = ground (arith, int_chars_of xs)

int_chars : (n : ℤ) → all_of is_int_char (print_int n) ≡ true
unfolding print_int
int_chars (pos n) = int_chars_of (print_nat n) (digits-chars 19 n)
int_chars (negsuc n) = int_chars_of (print_nat (n + 1)) (digits-chars 19 (n + 1))

int_lead : (n : ℤ) → InInt64 n → starts_with_zero (print_int n) ≡ is_zero n
unfolding print_int is_zero starts_with_zero
int_lead (pos n) h = starts-digits 19 n (twenty n (omega arith))
int_lead (negsuc n) h = refl

read_pos :
    (xs rest : List ℕ) (c : ℕ)
    → all_of is_digit xs ≡ true
    → is_empty xs ≡ false
    → read_int (xs ++ c ∷ rest)
      ≡ some (pos (scan 0 0 (xs ++ c ∷ rest)).0, (scan 0 0 (xs ++ c ∷ rest)).1)
unfolding read_int is_empty
read_pos [] rest c h k = cc (k)
read_pos (x ∷ xs) rest c h k = ground arith

int_read :
    (n : ℤ) (c : ℕ) (rest : List ℕ)
    → InInt64 n
    → is_digit c ≡ false
    → read_int (print_int n ++ c ∷ rest) ≡ some (n, length (print_int n))
unfolding print_int
int_read (pos n) c rest h k = ground (
  arith,
  read_pos (print_nat n) rest c (digits-chars 19 n) (digits_some 19 n),
  nat_read n c rest (omega arith) k,
)
int_read (negsuc n) c rest h k =
    unfold read_int negated in ground (arith, nat_read (n + 1) c rest (omega arith) k)

zero_text : print_int (pos 0) ≡ b'0' ∷ []
unfolding print_int digits
zero_text = refl

one_text : print_int (pos 1) ≡ b'1' ∷ []
unfolding print_int digits
one_text = refl

-- The laws that the parser and the printer rely on hold of it.
pub decimal-IsDecimal : IsDecimal decimal
unfolding decimal read_nat
decimal-IsDecimal = record {
  int_chars = int_chars;
  int_lead = int_lead;
  int_read = int_read;
  zero_text = zero_text;
  one_text = one_text;
  size_chars = λ n. digits-chars 19 n;
  size_some = λ n. digits_some 19 n;
  size_read = λ n c rest h k. ap some (nat_read n c rest h k);
}
