-- ===== src/BigInt/Signed.antt =====
-- The operators of BigInt on the integers that their operands stand for.
use cpp_experiments.Common.{
  ℕ, ◌+◌, ◌*◌, ◌<◌, ◌≡◌, ◌≢◌, refl, ap, ◌∙◌, Bool, true, false, not, [], ◌∷◌, arith, if◌then◌else◌,
}
use cpp_experiments.Common.Int.{ℤ, pos, ◌+ℤ◌, ◌-ℤ◌, ◌*ℤ◌, sub_ℕ, pos_part, neg_part}
use cpp_experiments.Common.Fault.{ok}
use cpp_experiments.BigInt.{
  Digits, BigInt, Comparison, less, same, more, abs_compare, compare, opposite,
}
use cpp_experiments.BigInt.Value.{value, InRange, IsClean, Says, abs_compare-Says}
use cpp_experiments.BigInt.Sum.{value-add_digits, add_digits-InRange, add_digits-IsClean}
use cpp_experiments.BigInt.Difference.{value-sub_digits, sub_digits-InRange, sub_digits-IsClean}
use cpp_experiments.BigInt.Product.{mul_digits-Makes}
use cpp_experiments.BigInt.Operators.{signed_difference, plus, minus, times, differ, empty}

abbrev pub with_sign : Bool → ℕ → ℤ
with_sign false n = pos n
with_sign true n = sub_ℕ 0 n

abbrev pub signed : BigInt → ℤ
signed a = with_sign a.negative (value a.digits)

-- Every digit is below the base, and the highest is not zero.
abbrev pub IsValid : BigInt → Type 0
IsValid a = InRange a.digits × IsClean a.digits

pub value-empty : (ds : Digits) → empty ds ≡ true → value ds ≡ 0
unfolding empty
value-empty [] h = refl
value-empty (d ∷ ds) h = ground (arith, value-empty ds)

signed-signed_difference :
    (d1 d2 : Digits) (p n : Bool)
    → InRange d1
    → InRange d2
    → IsClean d1
    → IsClean d2
    → n ≡ not p
    → signed (signed_difference d1 d2 p n) ≡ with_sign p (value d1) +ℤ with_sign n (value d2)
unfolding signed_difference ◌+ℤ◌
signed-signed_difference d1 d2 p n h k c d e =
    ground (
      arith,
      abs_compare-Says d1 d2 h k c d,
      value-sub_digits d1 d2 h k,
      value-sub_digits d2 d1 k h,
    )

signed_difference-IsValid :
    (d1 d2 : Digits) (p n : Bool) → InRange d1 → InRange d2 → IsValid (signed_difference d1 d2 p n)
unfolding signed_difference
signed_difference-IsValid d1 d2 p n h k = ground (
  arith,
  sub_digits-InRange d1 d2 h k,
  sub_digits-InRange d2 d1 k h,
  sub_digits-IsClean d1 d2,
  sub_digits-IsClean d2 d1,
)

sum_same : (p : Bool) (m n : ℕ) → with_sign p (m + n) ≡ with_sign p m +ℤ with_sign p n
unfolding ◌+ℤ◌
sum_same p m n = ground arith

difference_sum :
    (p : Bool) (m n : ℕ) → with_sign p m +ℤ with_sign (not p) n ≡ with_sign p m -ℤ with_sign p n
unfolding ◌+ℤ◌ ◌-ℤ◌
difference_sum p m n = ground arith

difference_other : (p : Bool) (m n : ℕ) → with_sign p (m + n) ≡ with_sign p m -ℤ with_sign (not p) n
unfolding ◌-ℤ◌
difference_other p m n = ground arith

product_signs :
    (p q : Bool) (m n : ℕ) → with_sign (differ p q) (m * n) ≡ with_sign p m *ℤ with_sign q n
unfolding ◌*ℤ◌
product_signs p q m n = ground arith

plus_signs :
    (p q : Bool) (d1 d2 : Digits)
    → InRange d1
    → InRange d2
    → IsClean d1
    → IsClean d2
    → signed (plus (record { digits = d1; negative = p }) (record { digits = d2; negative = q }))
      ≡ with_sign p (value d1) +ℤ with_sign q (value d2)
unfolding plus
plus_signs true true d1 d2 h k c d =
    ap (with_sign true) (value-add_digits d1 d2) ∙ sum_same true _ _
plus_signs false false d1 d2 h k c d =
    ap (with_sign false) (value-add_digits d1 d2) ∙ sum_same false _ _
plus_signs true false d1 d2 h k c d = signed-signed_difference d1 d2 true false h k c d refl
plus_signs false true d1 d2 h k c d = signed-signed_difference d1 d2 false true h k c d refl

minus_signs :
    (p q : Bool) (d1 d2 : Digits)
    → InRange d1
    → InRange d2
    → IsClean d1
    → IsClean d2
    → signed (minus (record { digits = d1; negative = p }) (record { digits = d2; negative = q }))
      ≡ with_sign p (value d1) -ℤ with_sign q (value d2)
unfolding minus
minus_signs true true d1 d2 h k c d =
    signed-signed_difference d1 d2 true false h k c d refl
    ∙ difference_sum true (value d1) (value d2)
minus_signs false false d1 d2 h k c d =
    signed-signed_difference d1 d2 false true h k c d refl
    ∙ difference_sum false (value d1) (value d2)
minus_signs true false d1 d2 h k c d =
    ap (with_sign true) (value-add_digits d1 d2) ∙ difference_other true _ _
minus_signs false true d1 d2 h k c d =
    ap (with_sign false) (value-add_digits d1 d2) ∙ difference_other false _ _

module _ (a b : BigInt) (h : IsValid a) (k : IsValid b) where
  -- The sum of two valid integers stands for the sum of the numbers, whatever their signs are, and
  -- is valid.
  pub signed-plus : (signed (plus a b) ≡ signed a +ℤ signed b) × IsValid (plus a b)
  signed-plus = (plus_signs a.negative b.negative a.digits b.digits h.0 k.0 h.1 k.1, plus-IsValid)
    where
      plus-IsValid : IsValid (plus a b)
      plus-IsValid =
          unfold plus in
          ground (
            arith,
            signed_difference-IsValid a.digits b.digits a.negative b.negative h.0 k.0,
            add_digits-InRange a.digits b.digits,
            add_digits-IsClean a.digits b.digits h.1 k.1,
          )

  -- The difference of two valid integers stands for the difference of the numbers, and is valid.
  pub signed-minus : (signed (minus a b) ≡ signed a -ℤ signed b) × IsValid (minus a b)
  signed-minus =
      (minus_signs a.negative b.negative a.digits b.digits h.0 k.0 h.1 k.1, minus-IsValid)
    where
      minus-IsValid : IsValid (minus a b)
      minus-IsValid =
          unfold minus in
          ground (
            arith,
            signed_difference-IsValid a.digits b.digits a.negative (not b.negative) h.0 k.0,
            add_digits-InRange a.digits b.digits,
            add_digits-IsClean a.digits b.digits h.1 k.1,
          )

  -- The product of two valid integers is computed with no access outside the vector, stands for the
  -- product of the numbers, and is valid.
  pub signed-times :
      (c : BigInt) × (times a b ≡ ok c) × (signed c ≡ signed a *ℤ signed b) × IsValid c
  unfolding times
  signed-times =
      let (ds, made, v, i, c) = mul_digits-Makes a.digits b.digits h.0 k.0 in
      (
        record { digits = ds; negative = differ a.negative b.negative },
        rw made refl,
        ap (with_sign (differ a.negative b.negative)) v ∙ product_signs a.negative b.negative _ _,
        (i, c),
      )

-- The sign of zero: it is not negative.
abbrev pub IsProper : BigInt → Type 0
IsProper a = a.negative ≡ true → value a.digits ≢ 0

-- What a comparison says of two integers.
abbrev pub Orders : Comparison → ℤ → ℤ → Type 0
Orders less a b = pos_part a + neg_part b < pos_part b + neg_part a
Orders same a b = a ≡ b
Orders more a b = pos_part b + neg_part a < pos_part a + neg_part b

compare_signs :
    (p q : Bool) (c : Comparison) (m n : ℕ)
    → Says c m n
    → (p ≡ true → m ≢ 0)
    → (q ≡ true → n ≢ 0)
    → Orders
        (if p then if q then opposite c else less else if q then more else c)
        (with_sign p m)
        (with_sign q n)
unfolding opposite
compare_signs true true less m n s h k = ground arith
compare_signs true true same m n s h k = ap (with_sign true) s
compare_signs true true more m n s h k = ground arith
compare_signs true false c m n s h k = ground (arith, h refl)
compare_signs false true c m n s h k = ground (arith, k refl)
compare_signs false false less m n s h k = omega arith
compare_signs false false same m n s h k = ap pos s
compare_signs false false more m n s h k = omega arith

-- compare orders two valid integers as the numbers that they stand for, unless one of them is a
-- zero with the sign of a negative number.
pub compare-Orders :
    (a b : BigInt)
    → IsValid a
    → IsValid b
    → IsProper a
    → IsProper b
    → Orders (compare a b) (signed a) (signed b)
unfolding compare
compare-Orders a b h k p q =
    compare_signs a.negative b.negative (abs_compare a.digits b.digits) (value a.digits)
      (value b.digits) (abs_compare-Says a.digits b.digits h.0 k.0 h.1 k.1) p q
