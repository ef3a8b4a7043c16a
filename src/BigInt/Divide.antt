-- ===== src/BigInt/Divide.antt =====
-- `div` of misc/bigint.hpp: long division, each digit of the quotient by a binary search.
pub mod Search
pub mod Exact
pub mod Truncation
use cpp_experiments.Common.{
  ℕ, zero, suc, ◌+◌, ◌/◌, ◌%◌, Bool, true, false, Option, none, some, [], ◌∷◌, leb, if◌then◌else◌,
}
use cpp_experiments.Common.Fault.{Run, ok, fault, undefined, thrown, ◌>>=◌, or_fault}
use cpp_experiments.BigInt.{
  Digits, clean, Comparison, less, same, more, abs_compare, sub_digits, mul_digits,
}

abbrev pub at_most : Comparison → Bool
at_most less = true
at_most same = true
at_most more = false

-- `low - 1` and so on for an unsigned short.
abbrev pub one_less : ℕ → ℕ
one_less n = (n + 65535) % 65536

-- `quot` and `prod`, which are not set at first.
abbrev pub Best : Type 0
Best = Option (ℕ × Digits)

-- The binary search. The interval of ten thousand digits is halved, so that fifteen rounds reach
-- its end; to run out of them counts as undefined.
unfoldable pub search : ℕ → ℕ → ℕ → Digits → Digits → Best → Run Best
search zero low high d2 remainder best = fault undefined
search (suc fuel) low high d2 remainder best =
    let mid = (low + high) / 2 in
    let round = mul_digits d2 (mid ∷ []) >>= λ temp.
    let fits = at_most (abs_compare temp remainder) in
    search fuel (if fits then mid + 1 else low) (if fits then high else one_less mid) d2 remainder
      (if fits then some (mid, temp) else best) in
    if leb low high then round else ok best

-- Where the remainder is not below the divisor: the search, and the subtraction.
unfoldable pub divide_once : Digits → Digits → Run (ℕ × Digits)
unfolding search
divide_once d2 remainder = do
  best ← search 15 0 9999 d2 remainder none
  (quot, prod) ← or_fault best undefined
  ok (quot, sub_digits remainder prod)

-- One digit of the quotient, for the dividend's next digit in front of the remainder.
unfoldable pub div_digit : Digits → Digits → Run (ℕ × Digits)
unfolding abs_compare divide_once
div_digit d2 remainder = elim (abs_compare remainder d2) [
  | less ↦ ok (0, remainder)
  | same ↦ divide_once d2 remainder
  | more ↦ divide_once d2 remainder
]

-- The loop from the high end: the quotient and the remainder of the digits above come first.
unfoldable pub div_loop : Digits → Digits → Run (Digits × Digits)
unfolding div_digit
div_loop [] d2 = ok ([], [])
div_loop (d ∷ ds) d2 = do
  (quotient, remainder) ← div_loop ds d2
  (quot, rest) ← div_digit d2 (d ∷ remainder)
  ok (quot ∷ quotient, rest)

unfoldable pub div_digits : Digits → Digits → Run (Digits × Digits)
unfolding div_loop clean
div_digits d1 [] = fault thrown
div_digits d1 (e ∷ es) = do
  (quotient, remainder) ← div_loop d1 (e ∷ es)
  ok (clean quotient, clean remainder)
