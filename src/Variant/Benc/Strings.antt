-- ===== src/Variant/Benc/Strings.antt =====
-- Numbers and strings that are printed are parsed back.
use mathlib.Core.List.{append_assoc}
use libtransmission.Prelude.{
  ℕ, suc, ◌+◌, ◌^◌, ◌<◌, ◌≡◌, refl, ap, arith, Bool, true, false, ◌&&◌, ◌||◌, List, [], ◌∷◌, ◌++◌,
  some, ◌==◌, length, length-append, take, drop,
}
use libtransmission.Variant.{ℤ, pos, negsuc}
use libtransmission.Variant.Benc.{
  Numbers, index_of, is_digit, is_zero, is_empty, starts_with_zero, parse_int, parse_str,
  save_string,
}

abbrev pub InInt64 : ℤ → Type 0
InInt64 (pos n) = n < 2 ^ 63
InInt64 (negsuc n) = n < 2 ^ 63

abbrev pub all_of : (ℕ → Bool) → List ℕ → Bool
all_of p [] = true
all_of p (x ∷ xs) = p x && all_of p xs

abbrev pub is_int_char : ℕ → Bool
is_int_char c = is_digit c || c == b'-'

-- What the C library documents of base 10: numbers are printed in digits, with a minus sign where
-- negative and no leading zeros, and a printed number is read up to the first byte that is no digit.
pub record IsDecimal (num : Numbers) : Type 0 where
  pub int_chars : (n : ℤ) → all_of is_int_char (num.print_int n) ≡ true
  pub int_lead : (n : ℤ) → InInt64 n → starts_with_zero (num.print_int n) ≡ is_zero n
  pub int_read :
      (n : ℤ) (c : ℕ) (rest : List ℕ)
      → InInt64 n
      → is_digit c ≡ false
      → num.strtoll (num.print_int n ++ c ∷ rest) ≡ some (n, length (num.print_int n))
  pub zero_text : num.print_int (pos 0) ≡ b'0' ∷ []
  pub one_text : num.print_int (pos 1) ≡ b'1' ∷ []
  pub size_chars : (n : ℕ) → all_of is_digit (num.print_size n) ≡ true
  pub size_some : (n : ℕ) → is_empty (num.print_size n) ≡ false
  pub size_read :
      (n : ℕ) (c : ℕ) (rest : List ℕ)
      → n < 2 ^ 64
      → is_digit c ≡ false
      → num.strtoul (num.print_size n ++ c ∷ rest) ≡ some (n, length (num.print_size n))

index_of-append :
    (p : ℕ → Bool) (c : ℕ) (xs rest : List ℕ)
    → p c ≡ false
    → all_of p xs ≡ true
    → index_of c (xs ++ c ∷ rest) ≡ some (length xs)
unfolding index_of
index_of-append p c [] rest other h = ground arith
index_of-append p c (x ∷ xs) rest other h = ground (arith, index_of-append p c xs rest other)

drop-append : (c : ℕ) (xs rest : List ℕ) → drop (length xs + 1) (xs ++ c ∷ rest) ≡ rest
drop-append c [] rest = ground arith
drop-append c (x ∷ xs) rest =
    let e : length (x ∷ xs) + 1 ≡ suc (length xs + 1) = omega arith in rw e (drop-append c xs rest)

starts-append : (xs rest : List ℕ) → starts_with_zero (xs ++ b'e' ∷ rest) ≡ starts_with_zero xs
unfolding starts_with_zero
starts-append [] rest = refl
starts-append (x ∷ xs) rest = refl

take_all : (xs ys : List ℕ) → take (length xs) (xs ++ ys) ≡ xs
take_all [] ys = ground arith
take_all (x ∷ xs) ys = ap (λ l. x ∷ l) (take_all xs ys)

drop_all : (xs ys : List ℕ) → drop (length xs) (xs ++ ys) ≡ ys
drop_all [] ys = ground arith
drop_all (x ∷ xs) ys = drop_all xs ys

module _ (num : Numbers) (d : IsDecimal num) where
  -- A printed number and an `e` after it.
  pub parse_int-print :
      (n : ℤ) (rest : List ℕ)
      → InInt64 n
      → parse_int num (num.print_int n ++ b'e' ∷ rest) ≡ some (n, rest)
  unfolding parse_int
  parse_int-print n rest h = ground (
    arith,
    index_of-append is_int_char b'e' (num.print_int n) rest refl (d.int_chars n),
    d.int_read n b'e' rest h refl,
    d.int_lead n h,
    starts-append (num.print_int n) rest,
    drop-append b'e' (num.print_int n) rest,
  )

  -- A printed string.
  pub parse_str-print :
      (s rest : List ℕ)
      → length s < 2 ^ 64
      → parse_str num (save_string num s ++ rest) ≡ some (s, rest)
  unfolding parse_str
  parse_str-print s rest h = rw (append_assoc (num.print_size (length s)) (b':' ∷ s) rest) (
      ground (
        arith,
        index_of-append is_digit b':' (num.print_size (length s)) (s ++ rest) refl
            (d.size_chars (length s)),
        d.size_read (length s) b':' (s ++ rest) h refl,
        drop-append b':' (num.print_size (length s)) (s ++ rest),
        length-append s rest,
        take_all s rest,
        drop_all s rest,
      ))
