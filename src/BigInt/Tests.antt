-- ===== src/BigInt/Tests.antt =====
-- BigInt on concrete numbers.
use cpp_experiments.Common.{◌≡◌, refl, true, false, [], ◌∷◌, arith}
use cpp_experiments.Common.Int.{◌+ℤ◌, ◌-ℤ◌, ◌*ℤ◌}
use cpp_experiments.Common.Bytes.{codes}
use cpp_experiments.Common.Fault.{ok}
use cpp_experiments.BigInt.{BigInt, mul_digits, sub_digits, compare, less}
use cpp_experiments.BigInt.Operators.{plus, minus, times, divide, modulo, negate, nought}
use cpp_experiments.BigInt.Signed.{
  signed, IsValid, Orders, signed-plus, signed-minus, signed-times, compare-Orders,
}
use cpp_experiments.BigInt.Divide.Truncation.{Divides, divide-modulo}
use cpp_experiments.BigInt.Text.{from_text, to_text}
use cpp_experiments.BigInt.Text.Printing.{from_text-to_text}

-- 12 345 678 and -9 999.
abbrev big : BigInt
big = record { digits = 5678 ∷ 1234 ∷ []; negative = false }

abbrev debt : BigInt
debt = record { digits = 9999 ∷ []; negative = true }

big-IsValid : IsValid big
big-IsValid = omega arith

debt-IsValid : IsValid debt
debt-IsValid = omega arith

signed-plus_example : (signed (plus big debt) ≡ signed big +ℤ signed debt) × IsValid (plus big debt)
signed-plus_example = signed-plus big debt big-IsValid debt-IsValid

signed-minus_case : (signed (minus debt big) ≡ signed debt -ℤ signed big) × IsValid (minus debt big)
signed-minus_case = signed-minus debt big debt-IsValid big-IsValid

signed-times_example :
    (c : BigInt) × (times big debt ≡ ok c) × (signed c ≡ signed big *ℤ signed debt) × IsValid c
signed-times_example = signed-times big debt big-IsValid debt-IsValid

compare-Orders_example : Orders (compare debt big) (signed debt) (signed big)
compare-Orders_example =
    compare-Orders debt big debt-IsValid big-IsValid (λ e. λ z. omega arith) (λ e. λ z. omega arith)

-- -12 345 678.
abbrev loss : BigInt
loss = record { digits = 5678 ∷ 1234 ∷ []; negative = true }

loss-IsValid : IsValid loss
loss-IsValid = omega arith

divide-modulo_example :
    (q : BigInt) × (r : BigInt) × (divide loss debt ≡ ok q)
    × (modulo loss debt ≡ ok r)
    × Divides loss debt q r
divide-modulo_example =
    divide-modulo loss debt loss-IsValid debt-IsValid (omega arith) (omega arith, (omega arith, tt))

from_text-to_text_example :
    (b : BigInt) × (from_text (to_text debt) ≡ ok b) × (signed b ≡ signed debt)
from_text-to_text_example = from_text-to_text debt (omega arith)

-- 700 000 005 / 7: the remainder zero of the digits above meets a digit zero, and the quotient,
-- which is 100 000 000 rest 5, comes out wrong.
wrong_quotient :
    divide
      (record { digits = 5 ∷ 0 ∷ 7 ∷ []; negative = false })
      (record { digits = 7 ∷ []; negative = false })
    ≡ ok (record { digits = 1428 ∷ 0 ∷ 1 ∷ []; negative = false })
unfolding divide mul_digits sub_digits
wrong_quotient = refl

-- Zero with a sign is less than zero.
negative_zero : compare (negate nought) nought ≡ less
unfolding compare negate
negative_zero = refl

printed : to_text debt ≡ codes "-9999"
unfolding to_text
printed = refl

-- Zeros in front leave a digit zero at the high end.
zeros_in_front :
    from_text (codes "00000001") ≡ ok (record { digits = 1 ∷ 0 ∷ []; negative = false })
unfolding from_text
zeros_in_front = refl
