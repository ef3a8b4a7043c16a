-- ===== src/Common/Decimal/Laws.antt =====
-- What is printed in decimal reads back.
use cpp_experiments.Common.{
  ℕ, zero, suc, ◌+◌, ◌/◌, ◌%◌, ◌^◌, ◌<◌, ◌≡◌, refl, ap, ◌∙◌, true, some, [], ◌∷◌, arith, ◌==◌,
  lt→ltb,
}
use cpp_experiments.Common.Int.{ℤ, pos, negsuc}
use cpp_experiments.Common.Bytes.{Bytes, NoCr}
use cpp_experiments.Common.Decimal.{
  digits, print_ℕ, print_ℤ, scan_digits, starts_digit, from_chars_size, long_of_text, all_digits,
  stol,
}
use cpp_experiments.Common.Fault.{ok}

scan-digits : (f n : ℕ) (acc : Bytes) → n < f → scan_digits 0 (digits f n acc) ≡ scan_digits n acc
unfolding digits scan_digits
scan-digits zero n acc h = elim h [ ]
scan-digits (suc f) n acc h = ground (arith, scan-digits f (n / 10) ((48 + n % 10) ∷ acc))

starts_digit-digits : (f n : ℕ) (acc : Bytes) → n < f → starts_digit (digits f n acc) ≡ true
unfolding digits starts_digit
starts_digit-digits zero n acc h = elim h [ ]
starts_digit-digits (suc f) n acc h =
    ground (arith, starts_digit-digits f (n / 10) ((48 + n % 10) ∷ acc))

all_digits-digits :
    (f n : ℕ) (acc : Bytes) → all_digits acc ≡ true → all_digits (digits f n acc) ≡ true
unfolding digits all_digits
all_digits-digits zero n acc h = h
all_digits-digits (suc f) n acc h =
    ground (arith, all_digits-digits f (n / 10) ((48 + n % 10) ∷ acc))

NoCr-all_digits : (s : Bytes) → all_digits s ≡ true → NoCr s
unfolding all_digits
NoCr-all_digits [] h = tt
NoCr-all_digits (c ∷ s) h = ground (arith, NoCr-all_digits s)

module _ (n : ℕ) where
  pub scan-print : scan_digits 0 (print_ℕ n) ≡ n
  unfolding print_ℕ scan_digits
  scan-print = scan-digits (suc n) n [] (omega arith)

  pub starts_digit-print : starts_digit (print_ℕ n) ≡ true
  unfolding print_ℕ
  starts_digit-print = starts_digit-digits (suc n) n [] (omega arith)

  pub all_digits-print : all_digits (print_ℕ n) ≡ true
  unfolding print_ℕ all_digits
  all_digits-print = all_digits-digits (suc n) n [] refl

  pub NoCr-print : NoCr (print_ℕ n)
  NoCr-print = NoCr-all_digits (print_ℕ n) all_digits-print

  pub from_chars-print : n < 2 ^ 64 → from_chars_size (print_ℕ n) ≡ some n
  unfolding from_chars_size
  from_chars-print h = rw (starts_digit-print, scan-print, lt→ltb n (2 ^ 64) h)

-- The numbers of a 64-bit long.
abbrev pub IsLong : ℤ → Type 0
IsLong (pos n) = n < 2 ^ 63
IsLong (negsuc n) = n < 2 ^ 63

long_of_text-digits :
    (s : Bytes)
    → starts_digit s ≡ true
    → scan_digits 0 s < 2 ^ 63
    → long_of_text s ≡ some (pos (scan_digits 0 s))
unfolding starts_digit long_of_text
long_of_text-digits [] h k = ground arith
long_of_text-digits (c ∷ s) h k = ground arith

-- A long prints and reads back.
pub long_of_text-print : (z : ℤ) → IsLong z → long_of_text (print_ℤ z) ≡ some z
unfolding print_ℤ
long_of_text-print (pos n) h =
    long_of_text-digits (print_ℕ n) (starts_digit-print n) (rw scan-print h)
    ∙ ap (λ m. some (pos m)) (scan-print n)
long_of_text-print (negsuc n) h =
    unfold long_of_text in
    ground (arith, starts_digit-print (suc n), scan-print (suc n), minus_char)
  where
    minus_char : (b'-' == b'-') ≡ true
    minus_char = refl

pub NoCr-print_ℤ : (z : ℤ) → NoCr (print_ℤ z)
unfolding print_ℤ
NoCr-print_ℤ (pos n) = NoCr-print n
NoCr-print_ℤ (negsuc n) = ((λ e. omega arith), NoCr-print (suc n))

pub stol-print : (z : ℤ) → IsLong z → stol (print_ℤ z) ≡ ok z
unfolding stol
stol-print z h = rw (long_of_text-print z h, stol) refl
