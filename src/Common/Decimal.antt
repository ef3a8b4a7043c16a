-- ===== src/Common/Decimal.antt =====
-- Decimal texts: std::to_string and operator<< of integers, std::from_chars, std::stol, std::stoul
-- on the inputs that the programs give them.
pub mod Laws
use cpp_experiments.Common.{
  ℕ, zero, suc, ◌+◌, ◌-◌, ◌*◌, ◌/◌, ◌%◌, ◌^◌, ◌<◌, ◌≡◌, Bool, true, false, ◌&&◌, Option, none, some,
  [], ◌∷◌, arith, ltb, leb, ◌==◌, if◌then◌else◌,
}
use cpp_experiments.Common.Int.{ℤ, pos, negsuc}
use cpp_experiments.Common.Bytes.{Bytes, NoCr}
use cpp_experiments.Common.Fault.{Run, ok, fault, thrown}

abbrev pub is_digit : ℕ → Bool
is_digit c = leb 48 c && leb c 57

-- The fuel bounds the number of digits.
unfoldable pub digits : ℕ → ℕ → Bytes → Bytes
digits zero n acc = acc
digits (suc f) n acc =
    let d = (48 + n % 10) ∷ acc in let rest = digits f (n / 10) d in if ltb n 10 then d else rest

unfoldable pub print_ℕ : ℕ → Bytes
unfolding digits
print_ℕ n = digits (suc n) n []

unfoldable pub print_ℤ : ℤ → Bytes
print_ℤ (pos n) = print_ℕ n
print_ℤ (negsuc n) = b'-' ∷ print_ℕ (suc n)

-- The value of the longest prefix of digits.
unfoldable pub scan_digits : ℕ → Bytes → ℕ
scan_digits v [] = v
scan_digits v (c ∷ s) = if is_digit c then scan_digits (v * 10 + (c - 48)) s else v

unfoldable pub starts_digit : Bytes → Bool
starts_digit [] = false
starts_digit (c ∷ s) = is_digit c

-- std::from_chars into a std::size_t.
unfoldable pub from_chars_size : Bytes → Option ℕ
unfolding scan_digits starts_digit
from_chars_size s =
    if starts_digit s
    then if ltb (scan_digits 0 s) (2 ^ 64) then some (scan_digits 0 s) else none
    else none

abbrev negated : ℕ → ℤ
negated zero = pos 0
negated (suc n) = negsuc n

-- A decimal text with an optional minus sign, in the range of a 64-bit long.
unfoldable pub long_of_text : Bytes → Option ℤ
unfolding scan_digits starts_digit
long_of_text [] = none
long_of_text (c ∷ s) =
    if c == b'-'
    then if starts_digit s
      then if leb (scan_digits 0 s) (2 ^ 63) then some (negated (scan_digits 0 s)) else none
      else none
    else if is_digit c
    then if ltb (scan_digits 0 (c ∷ s)) (2 ^ 63) then some (pos (scan_digits 0 (c ∷ s))) else none
    else none

-- std::isdigit on every byte.
unfoldable pub all_digits : Bytes → Bool
all_digits [] = true
all_digits (c ∷ s) = is_digit c && all_digits s

-- std::stoul on a text of digits: it throws on the empty text and out of range.
unfoldable pub stoul : Bytes → Run ℕ
stoul s = elim (from_chars_size s) [ none ↦ fault thrown | some n ↦ ok n ]

-- std::stol on digits behind an optional minus sign.
unfoldable pub stol : Bytes → Run ℤ
stol s = elim (long_of_text s) [ none ↦ fault thrown | some n ↦ ok n ]
