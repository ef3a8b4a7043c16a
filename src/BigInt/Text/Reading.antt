-- ===== src/BigInt/Text/Reading.antt =====
-- The constructor from a text reads the number that the digits write.
use cpp_experiments.Common.{
  ℕ, ◌+◌, ◌-◌, ◌*◌, ◌%◌, ◌≤◌, ◌<◌, ◌≡◌, ◌≢◌, refl, ap, sym, ◌∙◌, ◌⊎◌, inl, inr, Bool, true, [], ◌∷◌,
  ◌++◌, arith, ◌==◌, if◌then◌else◌, Bool-cases,
}
use cpp_experiments.Common.Bytes.{Bytes}
use cpp_experiments.Common.Decimal.{is_digit, scan_digits, all_digits}
use cpp_experiments.Common.Fault.{ok}
use cpp_experiments.BigInt.{BigInt, Digits, base}
use cpp_experiments.BigInt.Value.{value, weight}
use cpp_experiments.BigInt.Text.{Chunks, take_digit, read_chunks, from_digits}

value-append : (ds : Digits) (d : ℕ) → value (ds ++ d ∷ []) ≡ value ds + weight ds * d
value-append [] d = omega arith
value-append (e ∷ ds) d = grind (arith, value-append ds d)

weight-append : (ds : Digits) (d : ℕ) → weight (ds ++ d ∷ []) ≡ base * weight ds
weight-append [] d = refl
weight-append (e ∷ ds) d = omega (arith, weight-append ds d)

abbrev IsPower : ℕ → Type 0
IsPower p = (p ≡ 1) ⊎ ((p ≡ 10) ⊎ ((p ≡ 100) ⊎ (p ≡ 1000)))

-- The chunks hold the number that is read so far, for whatever stands in front of it.
pub record Holds (s : Bytes) (k : Chunks) : Type 0 where
  pub number : (v : ℕ) → scan_digits v s ≡ value k.full + weight k.full * (k.acc + k.pow * v)
  pub small : k.acc < k.pow
  pub power : IsPower k.pow

distribute : (w a p x v : ℕ) → w * (a + p * (v * 10 + x)) ≡ w * (a + p * x) + w * (10 * p * v)
distribute w a p x v = grind arith

times_digit : (p x : ℕ) → x ≤ 9 → p * x ≤ 9 * p
times_digit p x h = grind arith

digit_bound : (c : ℕ) → is_digit c ≡ true → c - 48 ≤ 9
digit_bound c h = ground arith

scan_cons :
    (v c : ℕ) (s : Bytes)
    → is_digit c ≡ true
    → scan_digits v (c ∷ s) ≡ scan_digits (v * 10 + (c - 48)) s
unfolding scan_digits
scan_cons v c s h = rw h refl

next-IsPower : (p : ℕ) → IsPower p → (p * 10 ≢ base) → IsPower (10 * p)
next-IsPower p (inl e) n = inr (inl (omega arith))
next-IsPower p (inr (inl e)) n = inr (inr (inl (omega arith)))
next-IsPower p (inr (inr (inl e))) n = inr (inr (inr (omega arith)))
next-IsPower p (inr (inr (inr e))) n = absurd (n (omega arith))

power-le : (p : ℕ) → IsPower p → p ≤ 1000
power-le p (inl e) = omega arith
power-le p (inr (inl e)) = omega arith
power-le p (inr (inr (inl e))) = omega arith
power-le p (inr (inr (inr e))) = omega arith

full_sum :
    (u w a p x v : ℕ)
    → p * 10 ≡ base
    → u + w * (a + p * (v * 10 + x)) ≡ u + w * (a + p * x) + base * w * (0 + 1 * v)
full_sum u w a p x v e =
    let tens : 10 * p ≡ base = omega arith in rw (distribute w a p x v, tens) (grind arith)

module _ (c : ℕ) (s : Bytes) (full : Digits) (a p : ℕ) (d : is_digit c ≡ true)
    (h : Holds s (record { full = full; acc = a; pow = p })) where
  Holds-full :
      p * 10 ≡ base
      → Holds (c ∷ s) (record { full = full ++ (a + p * (c - 48)) ∷ []; acc = 0; pow = 1 })
  Holds-full e = record {
    number = λ v.
        scan_cons v c s d
        ∙ h.number (v * 10 + (c - 48))
        ∙ full_sum (value full) (weight full) a p (c - 48) v e
        ∙ rw (value-append full (a + p * (c - 48)), weight-append full (a + p * (c - 48)));
    small = omega arith;
    power = inl refl;
  }

  Holds-more :
      p * 10 ≢ base → Holds (c ∷ s) (record { full = full; acc = a + p * (c - 48); pow = 10 * p })
  Holds-more e = record {
    number = λ v.
        scan_cons v c s d
        ∙ h.number (v * 10 + (c - 48))
        ∙ grind (arith, distribute (weight full) a p (c - 48) v);
    small = omega (arith, times_digit p (c - 48) (digit_bound c d), h.small);
    power = next-IsPower p h.power e;
  }

  take_digit-Holds :
      (k' : Chunks) × (take_digit c (record { full = full; acc = a; pow = p }) ≡ ok k')
      × Holds (c ∷ s) k'
  unfolding take_digit
  take_digit-Holds =
      let b = times_digit p (c - 48) (digit_bound c d) in
      let l = power-le p h.power in
      let m : a < p = h.small in
      let acc_fits : (a + p * (c - 48)) % 65536 ≡ a + p * (c - 48) = omega arith in
      let pow_fits : p * 10 % 65536 ≡ 10 * p = omega arith in
      elim (Bool-cases (10 * p == base)) [
        | inl e ↦ (_, rw (d, acc_fits, pow_fits, e) refl, Holds-full (ground arith))
        | inr e ↦ (_, rw (d, acc_fits, pow_fits, e) refl, Holds-more (ground arith))
      ]

all_head : (c : ℕ) (s : Bytes) → all_digits (c ∷ s) ≡ true → is_digit c ≡ true
unfolding all_digits
all_head c s h = ground arith

all_tail : (c : ℕ) (s : Bytes) → all_digits (c ∷ s) ≡ true → all_digits s ≡ true
unfolding all_digits
all_tail c s h = ground arith

pub read_chunks-Holds :
    (s : Bytes) → all_digits s ≡ true → (k : Chunks) × (read_chunks s ≡ ok k) × Holds s k
unfolding read_chunks
read_chunks-Holds [] h = (record { full = []; acc = 0; pow = 1 }, refl, nothing)
  where
    nothing : Holds [] (record { full = []; acc = 0; pow = 1 })
    nothing = record {
      number = λ v. unfold scan_digits in omega arith;
      small = omega arith;
      power = inl refl;
    }
read_chunks-Holds (c ∷ s) h =
    let (k, e, holds) = read_chunks-Holds s (all_tail c s h) in
    rw e (take_digit-Holds c s k.full k.acc k.pow (all_head c s h) holds)

last_chunk :
    (full : Digits) (acc : ℕ)
    → value (if acc == 0 then full else full ++ acc ∷ []) ≡ value full + weight full * acc
last_chunk full acc = elim (Bool-cases (acc == 0)) [
  | inl e ↦ let nought : acc ≡ 0 = ground arith in rw (e, nought) (omega arith)
  | inr e ↦ rw e (value-append full acc)
]

-- A text of digits is read to an integer of the number that it writes, with the sign that stood in
-- front of it.
pub from_digits-value :
    (negative : Bool) (s : Bytes)
    → all_digits s ≡ true
    → (a : BigInt) × (from_digits negative s ≡ ok a)
      × (value a.digits ≡ scan_digits 0 s)
      × (a.negative ≡ negative)
unfolding from_digits
from_digits-value negative s h =
    let (k, e, holds) = read_chunks-Holds s h in
    let whole = holds.number 0 in
    (
      record { digits = if k.acc == 0 then k.full else k.full ++ k.acc ∷ []; negative = negative },
      rw e refl,
      last_chunk k.full k.acc
          ∙ ap (λ n. value k.full + weight k.full * n) (nothing_more k.acc k.pow)
          ∙ sym whole,
      refl,
    )
  where
    nothing_more : (a p : ℕ) → a ≡ a + p * 0
    nothing_more a p = omega arith
