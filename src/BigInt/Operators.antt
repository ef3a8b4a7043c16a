-- ===== src/BigInt/Operators.antt =====
-- The operators of BigInt, and its conversions from a number, from a text and to a text.
use cpp_experiments.Common.{ℕ, Bool, true, false, not, ◌&&◌, [], ◌∷◌, ltb, if◌then◌else◌}
use cpp_experiments.Common.Fault.{Run, ok, fault, thrown, ◌>>=◌}
use cpp_experiments.BigInt.{
  Digits, BigInt, less, same, more, abs_compare, add_digits, sub_digits, mul_digits, digits_of,
}
use cpp_experiments.BigInt.Divide.{div_digits}

unfoldable pub empty : Digits → Bool
empty [] = true
empty (d ∷ ds) = not (ltb 0 d) && empty ds

-- BigInt{}
abbrev pub nought : BigInt
nought = record { digits = []; negative = false }

-- The comparison of two signs by `^`.
abbrev pub differ : Bool → Bool → Bool
differ true b = not b
differ false b = b

unfoldable pub negate : BigInt → BigInt
negate a = record a { negative = not a.negative }

-- Both signs being as given, the difference of the digits with the sign that goes with it.
unfoldable pub signed_difference : Digits → Digits → Bool → Bool → BigInt
unfolding abs_compare sub_digits
signed_difference d1 d2 if_more if_less = elim (abs_compare d1 d2) [
  | same ↦ nought
  | more ↦ record { digits = sub_digits d1 d2; negative = if_more }
  | less ↦ record { digits = sub_digits d2 d1; negative = if_less }
]

-- operator+
unfoldable pub plus : BigInt → BigInt → BigInt
unfolding add_digits signed_difference
plus a b =
    if differ a.negative b.negative
    then signed_difference a.digits b.digits a.negative b.negative
    else record { digits = add_digits a.digits b.digits; negative = a.negative }

-- operator-
unfoldable pub minus : BigInt → BigInt → BigInt
unfolding add_digits signed_difference
minus a b =
    if differ a.negative b.negative
    then record { digits = add_digits a.digits b.digits; negative = a.negative }
    else signed_difference a.digits b.digits a.negative (not b.negative)

-- operator*
unfoldable pub times : BigInt → BigInt → Run BigInt
unfolding mul_digits
times a b = do
  digits ← mul_digits a.digits b.digits
  ok (record { digits = digits; negative = differ a.negative b.negative })

-- operator/
unfoldable pub divide : BigInt → BigInt → Run BigInt
unfolding empty abs_compare div_digits
divide a b = if empty b.digits then fault thrown else elim (abs_compare a.digits b.digits) [
  | same ↦ ok (record { digits = 1 ∷ []; negative = differ a.negative b.negative })
  | less ↦ ok nought
  | more ↦ div_digits a.digits b.digits >>= λ (quotient, remainder).
      ok (record { digits = quotient; negative = differ a.negative b.negative })
]

-- operator%
unfoldable pub modulo : BigInt → BigInt → Run BigInt
unfolding empty abs_compare div_digits
modulo a b = if empty b.digits then fault thrown else elim (abs_compare a.digits b.digits) [
  | same ↦ ok nought
  | less ↦ ok (record { digits = a.digits; negative = a.negative })
  | more ↦ div_digits a.digits b.digits >>= λ (quotient, remainder).
      ok (record { digits = remainder; negative = a.negative })
]

-- The constructor from a number that is not negative, and from one that is, by its absolute value.
unfoldable pub of_number : Bool → ℕ → BigInt
unfolding digits_of
of_number negative n = record { digits = digits_of n n; negative = negative }
