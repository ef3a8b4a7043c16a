-- ===== src/BigInt/Text/Printing.antt =====
-- What operator std::string writes is read back as the same number.
use mathlib.Core.List.{reverse, reverse-append, reverse-cons}
use cpp_experiments.Common.{
  ℕ, ◌+◌, ◌-◌, ◌*◌, ◌/◌, ◌%◌, ◌<◌, ◌≡◌, refl, ◌∙◌, inl, inr, Bool, true, false, ◌||◌, [], ◌∷◌, ◌++◌,
  append-nil, arith, ◌==◌, Bool-cases,
}
use cpp_experiments.Common.Bytes.{Bytes}
use cpp_experiments.Common.Decimal.{is_digit, scan_digits, all_digits}
use cpp_experiments.Common.Fault.{Run, ok}
use cpp_experiments.BigInt.{BigInt, Digits, base}
use cpp_experiments.BigInt.Value.{value, InRange}
use cpp_experiments.BigInt.Operators.{empty}
use cpp_experiments.BigInt.Signed.{signed, with_sign, value-empty}
use cpp_experiments.BigInt.Text.{
  low_chars, all_chars, strip, keep_char, minus_sign, to_text, from_text, from_digits,
}
use cpp_experiments.BigInt.Text.Reading.{from_digits-value}

-- The number of a text of digits with the lowest first.
abbrev low_value : Bytes → ℕ
low_value [] = 0
low_value (c ∷ s) = (c - 48) + 10 * low_value s

all_digits-append :
    (s t : Bytes) → all_digits s ≡ true → all_digits t ≡ true → all_digits (s ++ t) ≡ true
unfolding all_digits
all_digits-append [] t h k = k
all_digits-append (c ∷ s) t h k = ground (arith, all_digits-append s t)

scan-append :
    (v : ℕ) (s : Bytes) (c : ℕ)
    → all_digits s ≡ true
    → is_digit c ≡ true
    → scan_digits v (s ++ c ∷ []) ≡ scan_digits v s * 10 + (c - 48)
unfolding scan_digits all_digits
scan-append v [] c h k = ground arith
scan-append v (d ∷ s) c h k = ground (arith, scan-append (v * 10 + (d - 48)) s c)

reversed :
    (s : Bytes)
    → all_digits s ≡ true
    → (all_digits (reverse s) ≡ true) × (scan_digits 0 (reverse s) ≡ low_value s)
unfolding all_digits scan_digits
reversed [] h = (refl, refl)
reversed (c ∷ s) h =
    let (d, v) = reversed s (ground arith) in
    rw (reverse-cons c s) (
      all_digits-append (reverse s) (c ∷ []) d (ground arith),
      scan-append 0 (reverse s) c d (ground arith) ∙ omega arith,
    )

digit_char : (n : ℕ) → is_digit (48 + n % 10) ≡ true
digit_char n = ground arith

low_chars-append :
    (n : ℕ) (s : Bytes)
    → n < base
    → all_digits s ≡ true
    → (all_digits (low_chars 4 n ++ s) ≡ true)
      × (low_value (low_chars 4 n ++ s) ≡ n + base * low_value s)
unfolding low_chars all_digits
low_chars-append n s h k = (
  rw (digit_char n, digit_char (n / 10), digit_char (n / 10 / 10), digit_char (n / 10 / 10 / 10)) k,
  omega arith,
)

all_chars-value :
    (ds : Digits)
    → InRange ds
    → (all_digits (all_chars ds) ≡ true) × (low_value (all_chars ds) ≡ value ds)
unfolding all_chars all_digits
all_chars-value [] h = (refl, refl)
all_chars-value (d ∷ ds) h =
    let (k, v) = all_chars-value ds h.1 in
    let (l, w) = low_chars-append d (all_chars ds) h.0 k in (l, omega arith)

keep_char-value :
    (c : ℕ) (s : Bytes)
    → is_digit c ≡ true
    → all_digits s ≡ true
    → (all_digits (keep_char c s) ≡ true)
      × (low_value (keep_char c s) ≡ (c - 48) + 10 * low_value s)
unfolding all_digits
keep_char-value c [] h k = ground arith
keep_char-value c (d ∷ s) h k = (rw (h, k) refl, refl)

strip-value :
    (s : Bytes)
    → all_digits s ≡ true
    → (all_digits (strip s) ≡ true) × (low_value (strip s) ≡ low_value s)
unfolding strip all_digits
strip-value [] h = (refl, refl)
strip-value (c ∷ s) h =
    let (d, v) = strip-value s (ground arith) in
    let (e, w) = keep_char-value c (strip s) (ground arith) d in (e, omega arith)

-- Read with the number `n` and the sign `p`.
abbrev Reads : Bool → ℕ → Run BigInt → Type 0
Reads p n m = (b : BigInt) × (m ≡ ok b) × (signed b ≡ with_sign p n)

from_digits-Reads :
    (p : Bool) (s : Bytes) → all_digits s ≡ true → Reads p (scan_digits 0 s) (from_digits p s)
from_digits-Reads p s h = let (b, e, v, sign) = from_digits-value p s h in (b, e, rw (v, sign) refl)

not_sign : (c : ℕ) → is_digit c ≡ true → (c == b'-' || c == b'+') ≡ false
not_sign c h = ground arith

from_text-digits : (s : Bytes) → all_digits s ≡ true → Reads false (scan_digits 0 s) (from_text s)
unfolding from_text
from_text-digits [] h = (record { digits = []; negative = false }, refl, unfold scan_digits in refl)
from_text-digits (c ∷ s) h = rw (not_sign c (first_digit c s h)) (from_digits-Reads false (c ∷ s) h)
  where
    first_digit : (c : ℕ) (s : Bytes) → all_digits (c ∷ s) ≡ true → is_digit c ≡ true
    first_digit c s h = unfold all_digits in ground arith

from_text-minus :
    (s : Bytes) → all_digits s ≡ true → Reads true (scan_digits 0 s) (from_text (b'-' ∷ s))
unfolding from_text
from_text-minus s h = from_digits-Reads true s h

signed_text :
    (p : Bool) (s : Bytes) (n : ℕ)
    → all_digits s ≡ true
    → low_value s ≡ n
    → Reads p n (from_text (reverse (s ++ minus_sign p)))
signed_text false s n h e =
    let (d, v) = reversed s h in rw (append-nil s, ← (v ∙ e)) (from_text-digits (reverse s) d)
signed_text true s n h e =
    let (d, v) = reversed s h in
    rw (reverse-append s (b'-' ∷ []), ← (v ∙ e)) (from_text-minus (reverse s) d)

-- Every integer whose digits are below the base is written as a text that reads back, with no
-- exception, to the same number.
pub from_text-to_text :
    (a : BigInt)
    → InRange a.digits
    → (b : BigInt) × (from_text (to_text a) ≡ ok b) × (signed b ≡ signed a)
unfolding to_text
from_text-to_text a h = elim (Bool-cases (empty a.digits)) [
  | inl e ↦
      let nothing = value-empty a.digits e in
      rw (e, nothing)
        (no_sign a.negative (from_text-digits (b'0' ∷ []) (unfold all_digits in refl)))
  | inr e ↦
      let (k, v) = all_chars-value a.digits h in
      let (l, w) = strip-value (all_chars a.digits) k in
      rw e (signed_text a.negative (strip (all_chars a.digits)) (value a.digits) l (w ∙ v))
]
  where
    no_sign :
        (p : Bool)
        → Reads false (scan_digits 0 (b'0' ∷ [])) (from_text (b'0' ∷ []))
        → Reads p 0 (from_text (b'0' ∷ []))
    no_sign true (b, e, v) = (b, e, v ∙ unfold scan_digits in refl)
    no_sign false (b, e, v) = (b, e, v ∙ unfold scan_digits in refl)
