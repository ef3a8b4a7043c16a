-- ===== src/BigInt/Divide/Exact.antt =====
-- `div` of misc/bigint.hpp gives the quotient and the remainder, where no partial remainder is zero
-- in front of a digit zero.
use native.Mathlib.Nat.{mul-add-mod_self_right, mod-eq_of_lt}
use cpp_experiments.Common.{ℕ, ◌+◌, ◌*◌, ◌%◌, ◌<◌, ◌≡◌, refl, ap, ◌∙◌, none, [], ◌∷◌, arith}
use cpp_experiments.Common.Fault.{Run, ok, ◌>>=◌, or_fault}
use cpp_experiments.BigInt.{Digits, base, clean, sub_digits, abs_compare, less, same, more}
use cpp_experiments.BigInt.Value.{
  value, InRange, IsClean, Says, abs_compare-Says, cons-IsClean, value-clean, clean-InRange,
  clean-IsClean,
}
use cpp_experiments.BigInt.Difference.{value-sub_digits, sub_digits-InRange, sub_digits-IsClean}
use cpp_experiments.BigInt.Divide.{divide_once, div_digit, div_loop, div_digits}
use cpp_experiments.BigInt.Divide.Search.{search-Finds}

-- One digit of the quotient of `v` by `d`, and the remainder.
abbrev OneDigit : ℕ → ℕ → Run (ℕ × Digits) → Type 0
OneDigit v d m =
    (q : ℕ) × (r : Digits) × (m ≡ ok (q, r))
    × (v ≡ q * d + value r)
    × (value r < d)
    × (q < base)
    × InRange r
    × IsClean r

lt_of_mul : (q n d : ℕ) → q * d < n * d → q < n
lt_of_mul q n d h = grind arith

module _ (d2 rem : Digits) (h : InRange d2) (k : InRange rem) (c : IsClean rem) where
  divide_once-OneDigit :
      value rem < base * value d2 → OneDigit (value rem) (value d2) (divide_once d2 rem)
  unfolding divide_once
  divide_once-OneDigit lt =
      let (q, p, found, fits, next) =
        search-Finds d2 rem h k c 14 0 9999 none (omega arith) (omega arith) (omega arith) lt
          refl in
      let exact = value-sub_digits rem p k fits.in_range fits.below in
      let product = fits.product in
      (
        q,
        sub_digits rem p,
        rw (found, or_fault) refl,
        omega arith,
        omega arith,
        lt_of_mul q base (value d2) (omega (arith, fits.below)),
        sub_digits-InRange rem p k fits.in_range,
        sub_digits-IsClean rem p,
      )

  below-OneDigit : value rem < value d2 → OneDigit (value rem) (value d2) (ok (0, rem))
  below-OneDigit lt = (0, rem, refl, omega arith, lt, omega arith, k, c)

  div_digit-OneDigit :
      IsClean d2 → value rem < base * value d2 → OneDigit (value rem) (value d2) (div_digit d2 rem)
  unfolding div_digit
  div_digit-OneDigit clean_d2 lt =
      elim (abs_compare rem d2)
          as (λ t.
            Says t (value rem) (value d2)
            → OneDigit (value rem) (value d2) (elim t [
              | less ↦ ok (0, rem)
              | same ↦ divide_once d2 rem
              | more ↦ divide_once d2 rem
            ])) [
              | less ↦ below-OneDigit
              | same ↦ λ s. divide_once-OneDigit lt
              | more ↦ λ s. divide_once-OneDigit lt
            ]
        (abs_compare-Says rem d2 k h c clean_d2)

-- Quotient and remainder of `v` by `d`.
abbrev pub Divided : ℕ → ℕ → Run (Digits × Digits) → Type 0
Divided v d m =
    (q : Digits) × (r : Digits) × (m ≡ ok (q, r))
    × (v ≡ value q * d + value r)
    × (value r < d)
    × InRange q
    × InRange r
    × IsClean r

-- No digit zero meets a remainder zero of the digits above it.
abbrev pub Steady : ℕ → Digits → Type 0
Steady d [] = Unit {0}
Steady d (x ∷ xs) = (0 < x + value xs % d) × Steady d xs

mod_unique : (v q d r : ℕ) → v ≡ q * d + r → r < d → v % d ≡ r
mod_unique v q d r e h = ap (λ n. n % d) e ∙ mul-add-mod_self_right q d r ∙ mod-eq_of_lt h

join_digit : (x n d : ℕ) → (x + base * n) * d ≡ x * d + base * (n * d)
join_digit x n d = grind arith

extend :
    (x v d : ℕ) (rem : Digits) (q : Digits) (m : Run (ℕ × Digits))
    → OneDigit (x + base * value rem) d m
    → v ≡ value q * d + value rem
    → InRange q
    → Divided (x + base * v) d (m >>= λ (quot, rest). ok (quot ∷ q, rest))
extend x v d rem q m (n, r, e, exact, lt, b, i, c) whole j =
    let s = join_digit n (value q) d in (n ∷ q, r, rw e refl, omega arith, lt, (b, j), i, c)

div_loop-Divided :
    (ds d2 : Digits)
    → InRange ds
    → InRange d2
    → IsClean d2
    → 0 < value d2
    → Steady (value d2) ds
    → Divided (value ds) (value d2) (div_loop ds d2)
unfolding div_loop
div_loop-Divided [] d2 h k c p s = ([], [], refl, omega arith, p, tt, tt, tt)
div_loop-Divided (x ∷ ds) d2 h k c p s =
    let (q, r, e, whole, lt, j, i, cr) = div_loop-Divided ds d2 h.1 k c p s.1 in
    let left = mod_unique (value ds) (value q) (value d2) (value r) whole lt in
    rw e (
      extend x (value ds) (value d2) r q (div_digit d2 (x ∷ r))
        (div_digit-OneDigit d2 (x ∷ r) k (h.0, i) (cons-IsClean x r cr (omega (arith, s.0))) c
          (omega (arith, h.0)))
        whole j)

-- Both results are clean in the end.
pub div_digits-Divided :
    (ds d2 : Digits)
    → InRange ds
    → InRange d2
    → IsClean d2
    → 0 < value d2
    → Steady (value d2) ds
    → (q : Digits) × (r : Digits) × (div_digits ds d2 ≡ ok (q, r))
      × (value ds ≡ value q * value d2 + value r)
      × (value r < value d2)
      × (InRange q × IsClean q)
      × (InRange r × IsClean r)
unfolding div_digits
div_digits-Divided ds [] h k c p s = absurd (omega arith)
div_digits-Divided ds (e ∷ es) h k c p s =
    let (q, r, found, whole, lt, j, i, cr) = div_loop-Divided ds (e ∷ es) h k c p s in
    (
      clean q,
      clean r,
      rw found refl,
      rw (value-clean q, value-clean r) whole,
      rw (value-clean r) lt,
      (clean-InRange q j, clean-IsClean q),
      (clean-InRange r i, clean-IsClean r),
    )
