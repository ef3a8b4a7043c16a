-- ===== src/BigInt/Value.antt =====
-- The numbers that digits stand for, and the digits that `clean` and the comparison see.
use cpp_experiments.Common.{ℕ, ◌+◌, ◌*◌, ◌<◌, ◌≡◌, refl, [], ◌∷◌, arith, length}
use cpp_experiments.BigInt.{
  Digits, base, clean, keep_digit, unless_same, Comparison, less, same, more, compare_high,
  abs_compare,
}

abbrev pub value : Digits → ℕ
value [] = 0
value (d ∷ ds) = d + base * value ds

-- The place behind the last digit.
abbrev pub weight : Digits → ℕ
weight [] = 1
weight (d ∷ ds) = base * weight ds

abbrev pub InRange : Digits → Type 0
InRange [] = Unit {0}
InRange (d ∷ ds) = (d < base) × InRange ds

-- The highest digit is not zero.
abbrev pub IsClean : Digits → Type 0
IsClean [] = Unit {0}
IsClean (d ∷ []) = 0 < d
IsClean (d ∷ e ∷ es) = IsClean (e ∷ es)

pub value-lt-weight : (ds : Digits) → InRange ds → value ds < weight ds
value-lt-weight [] h = omega arith
value-lt-weight (d ∷ ds) h = omega (arith, value-lt-weight ds h.1)

value-keep_digit : (d : ℕ) (ds : Digits) → value (keep_digit d ds) ≡ d + base * value ds
value-keep_digit d [] = ground arith
value-keep_digit d (e ∷ es) = refl

pub value-clean : (ds : Digits) → value (clean ds) ≡ value ds
unfolding clean
value-clean [] = refl
value-clean (d ∷ ds) = omega (arith, value-keep_digit d (clean ds), value-clean ds)

keep_digit-InRange : (d : ℕ) (ds : Digits) → d < base → InRange ds → InRange (keep_digit d ds)
keep_digit-InRange d [] h k = ground arith
keep_digit-InRange d (e ∷ es) h k = (h, k)

pub clean-InRange : (ds : Digits) → InRange ds → InRange (clean ds)
unfolding clean
clean-InRange [] h = tt
clean-InRange (d ∷ ds) h = keep_digit-InRange d (clean ds) h.0 (clean-InRange ds h.1)

keep_digit-IsClean : (d : ℕ) (ds : Digits) → IsClean ds → IsClean (keep_digit d ds)
keep_digit-IsClean d [] h = ground arith
keep_digit-IsClean d (e ∷ es) h = h

pub clean-IsClean : (ds : Digits) → IsClean (clean ds)
unfolding clean
clean-IsClean [] = tt
clean-IsClean (d ∷ ds) = keep_digit-IsClean d (clean ds) (clean-IsClean ds)

pub clean_pos : (ds : Digits) (d : ℕ) → IsClean (d ∷ ds) → 0 < value (d ∷ ds)
clean_pos [] d h = omega arith
clean_pos (e ∷ es) d h = omega (arith, clean_pos es e h)

-- A shorter number is less, where the longer one is clean.
pub value-lt_of_length :
    (ds es : Digits) → InRange ds → IsClean es → length ds < length es → value ds < value es
value-lt_of_length [] (e ∷ es) h k l = clean_pos es e k
value-lt_of_length (d ∷ ds) (e ∷ []) h k l = absurd (omega arith)
value-lt_of_length (d ∷ ds) (e ∷ f ∷ es) h k l = omega (arith, value-lt_of_length ds (f ∷ es) h.1 k)
value-lt_of_length ds [] h k l = absurd (omega arith)

-- What the result of a comparison says of two numbers.
abbrev pub Says : Comparison → ℕ → ℕ → Type 0
Says less a b = a < b
Says same a b = a ≡ b
Says more a b = b < a

unless_same-Says :
    (c : Comparison) (d e v w : ℕ)
    → d < base
    → e < base
    → Says c v w
    → Says (unless_same c d e) (d + base * v) (e + base * w)
unless_same-Says less d e v w h k s = omega arith
unless_same-Says more d e v w h k s = omega arith
unless_same-Says same d e v w h k s = ground arith

pub compare_high-Says :
    (ds es : Digits)
    → InRange ds
    → InRange es
    → length ds ≡ length es
    → Says (compare_high ds es) (value ds) (value es)
unfolding compare_high
compare_high-Says [] [] h k l = refl
compare_high-Says [] (e ∷ es) h k l = absurd (omega arith)
compare_high-Says (d ∷ ds) [] h k l = absurd (omega arith)
compare_high-Says (d ∷ ds) (e ∷ es) h k l =
    unless_same-Says (compare_high ds es) d e (value ds) (value es) h.0 k.0
      (compare_high-Says ds es h.1 k.1 (omega arith))

-- absCompare orders clean digits as the numbers that they stand for.
pub abs_compare-Says :
    (ds es : Digits)
    → InRange ds
    → InRange es
    → IsClean ds
    → IsClean es
    → Says (abs_compare ds es) (value ds) (value es)
unfolding abs_compare
abs_compare-Says ds es h k c e =
    ground (
      arith,
      value-lt_of_length ds es h e,
      value-lt_of_length es ds k c,
      compare_high-Says ds es h k,
    )

pub tail-IsClean : (d : ℕ) (ds : Digits) → IsClean (d ∷ ds) → IsClean ds
tail-IsClean d [] h = tt
tail-IsClean d (e ∷ es) h = h

pub cons-IsClean : (d : ℕ) (ds : Digits) → IsClean ds → 0 < value (d ∷ ds) → IsClean (d ∷ ds)
cons-IsClean d [] h k = omega arith
cons-IsClean d (e ∷ es) h k = h
