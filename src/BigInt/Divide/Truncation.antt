-- ===== src/BigInt/Divide/Truncation.antt =====
-- The operators / and % of BigInt.
use cpp_experiments.Common.{
  ℕ, ◌+◌, ◌*◌, ◌≤◌, ◌<◌, ◌≡◌, ◌⊎◌, refl, ◌∙◌, Bool, true, false, [], ◌∷◌, arith, Bool-cases, inl,
  inr,
}
use cpp_experiments.Common.Int.{ℤ, pos, ◌+ℤ◌, ◌*ℤ◌}
use cpp_experiments.Common.Fault.{Run, ok, ◌>>=◌}
use cpp_experiments.BigInt.{Digits, BigInt, less, same, more, abs_compare}
use cpp_experiments.BigInt.Value.{value, Says, abs_compare-Says}
use cpp_experiments.BigInt.Operators.{empty, differ, nought, divide, modulo}
use cpp_experiments.BigInt.Divide.{div_digits}
use cpp_experiments.BigInt.Divide.Exact.{Steady, div_digits-Divided}
use cpp_experiments.BigInt.Signed.{with_sign, signed, IsValid, value-empty}

-- The quotient and the remainder of `a` by `b`, as C++ divides integers: the quotient is not larger
-- than the exact one in its absolute value, so that it is rounded towards zero, and a remainder that
-- is not zero has the sign of `a`, a quotient that is not zero the product of the signs.
pub record Divides (a b q r : BigInt) : Type 0 where
  pub whole : signed a ≡ signed q *ℤ signed b +ℤ signed r
  pub remainder_lt : value r.digits < value b.digits
  pub towards_zero : value q.digits * value b.digits ≤ value a.digits
  pub remainder_sign : (value r.digits ≡ 0) ⊎ (r.negative ≡ a.negative)
  pub quotient_sign : (value q.digits ≡ 0) ⊎ (q.negative ≡ differ a.negative b.negative)
  pub quotient : IsValid q
  pub remainder : IsValid r

not_empty : (ds : Digits) → 0 < value ds → empty ds ≡ false
not_empty ds k = elim (Bool-cases (empty ds)) [
  | inl e ↦ absurd (omega (arith, value-empty ds e))
  | inr e ↦ e
]

recombine :
    (p s : Bool) (m n q r : ℕ)
    → m ≡ q * n + r
    → with_sign p m ≡ with_sign (differ p s) q *ℤ with_sign s n +ℤ with_sign p r
unfolding ◌*ℤ◌ ◌+ℤ◌
recombine p s m n q r e = ground arith

abbrev Both : BigInt → BigInt → Run BigInt → Run BigInt → Type 0
Both a b m n = (q : BigInt) × (r : BigInt) × (m ≡ ok q) × (n ≡ ok r) × Divides a b q r

module _ (a b : BigInt) (h : IsValid a) (k : IsValid b) (p : 0 < value b.digits) where
  even :
      value a.digits ≡ value b.digits
      → Both a b
          (ok (record { digits = 1 ∷ []; negative = differ a.negative b.negative }))
          (ok nought)
  even e = (
    record { digits = 1 ∷ []; negative = differ a.negative b.negative },
    nought,
    refl,
    refl,
    record {
      whole =
          recombine a.negative b.negative (value a.digits) (value b.digits) 1 0 (omega arith)
          ∙ zero_sign a.negative _;
      remainder_lt = p;
      towards_zero = omega (arith, e);
      remainder_sign = inl refl;
      quotient_sign = inr refl;
      quotient = ((omega arith, tt), omega arith);
      remainder = (tt, tt);
    },
  )
    where
      zero_sign : (s : Bool) (x : ℤ) → x +ℤ with_sign s 0 ≡ x +ℤ pos 0
      zero_sign true x = refl
      zero_sign false x = refl

  under :
      value a.digits < value b.digits
      → Both a b (ok nought) (ok (record { digits = a.digits; negative = a.negative }))
  under lt = (
    nought,
    a,
    refl,
    refl,
    record {
      whole =
          recombine a.negative b.negative (value a.digits) (value b.digits) 0 (value a.digits)
            (omega arith)
          ∙ zero_quotient (differ a.negative b.negative) _ _;
      remainder_lt = lt;
      towards_zero = omega arith;
      remainder_sign = inr refl;
      quotient_sign = inl refl;
      quotient = (tt, tt);
      remainder = h;
    },
  )
    where
      zero_quotient : (s : Bool) (x y : ℤ) → with_sign s 0 *ℤ x +ℤ y ≡ pos 0 *ℤ x +ℤ y
      zero_quotient true x y = refl
      zero_quotient false x y = refl

  over :
      Steady (value b.digits) a.digits
      → Both a b
          (div_digits a.digits b.digits >>= λ (quotient, remainder).
            ok (record { digits = quotient; negative = differ a.negative b.negative }))
          (div_digits a.digits b.digits >>= λ (quotient, remainder).
            ok (record { digits = remainder; negative = a.negative }))
  over s =
      let (q, r, e, whole, lt, vq, vr) = div_digits-Divided a.digits b.digits h.0 k.0 k.1 p s in
      (
        record { digits = q; negative = differ a.negative b.negative },
        record { digits = r; negative = a.negative },
        rw e refl,
        rw e refl,
        record {
          whole = recombine a.negative b.negative _ _ (value q) (value r) whole;
          remainder_lt = lt;
          towards_zero = below (value q * value b.digits) (value r) whole;
          remainder_sign = inr refl;
          quotient_sign = inr refl;
          quotient = vq;
          remainder = vr;
        },
      )
    where
      below : (m n : ℕ) → value a.digits ≡ m + n → m ≤ value a.digits
      below m n f = omega (arith, f)

  -- For valid integers and a divisor that is not zero, where no digit zero of the dividend meets a
  -- remainder zero of the digits above it: the operators / and % return valid q and r with a = q * b + r
  -- and |r| < |b|. The quotient is rounded towards zero, |q| * |b| being at most |a|, and has the
  -- product of the signs unless it is zero; the remainder has the sign of a unless it is zero.
  pub divide-modulo :
      Steady (value b.digits) a.digits
      → (q : BigInt) × (r : BigInt) × (divide a b ≡ ok q) × (modulo a b ≡ ok r) × Divides a b q r
  unfolding divide modulo
  divide-modulo s = rw (not_empty b.digits p) (
      elim (abs_compare a.digits b.digits)
          as (λ c.
            Says c (value a.digits) (value b.digits)
            → Both a b
                (elim c [
                  | same ↦ ok (record { digits = 1 ∷ []; negative = differ a.negative b.negative })
                  | less ↦ ok nought
                  | more ↦ div_digits a.digits b.digits >>= λ (quotient, remainder).
                      ok (record { digits = quotient; negative = differ a.negative b.negative })
                ])
                (elim c [
                  | same ↦ ok nought
                  | less ↦ ok (record { digits = a.digits; negative = a.negative })
                  | more ↦ div_digits a.digits b.digits >>= λ (quotient, remainder).
                      ok (record { digits = remainder; negative = a.negative })
                ])) [ less ↦ under | same ↦ even | more ↦ λ _. over s ]
        (abs_compare-Says a.digits b.digits h.0 k.0 h.1 k.1))
