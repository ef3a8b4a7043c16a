-- ===== src/BigInt/Divide/Search.antt =====
-- The binary search finds the digit of the quotient, within its rounds.
use cpp_experiments.Common.{
  ℕ, zero, suc, ◌+◌, ◌*◌, ◌/◌, ◌≤◌, ◌<◌, ◌≡◌, refl, ◌∙◌, true, false, none, some, [], ◌∷◌, arith,
  leb, leb→le, Bool-cases, inl, inr,
}
use cpp_experiments.Common.Fault.{Run, ok}
use cpp_experiments.BigInt.{Digits, base, abs_compare, Comparison, less, same, more}
use cpp_experiments.BigInt.Value.{value, InRange, IsClean, Says, abs_compare-Says}
use cpp_experiments.BigInt.Product.{mul_digits-Makes}
use cpp_experiments.BigInt.Divide.{search, Best, at_most, one_less}

-- How long an interval may be for the rounds to reach its end.
abbrev pub reach : ℕ → ℕ
reach zero = 0
reach (suc f) = suc (2 * reach f)

-- A digit and its product with the divisor, which is at most the remainder.
pub record Quotient (d : ℕ) (r : ℕ) (q : ℕ) (p : Digits) : Type 0 where
  pub product : value p ≡ q * d
  pub below : value p ≤ r
  pub in_range : InRange p

-- What is known of the best digit so far, which is the one below the interval.
abbrev pub Known : ℕ → ℕ → ℕ → Best → Type 0
Known d r low none = low ≡ 0
Known d r low (some (q, p)) = (low ≡ suc q) × Quotient d r q p

-- The search returns the greatest digit whose product fits.
abbrev pub Finds : ℕ → ℕ → Run Best → Type 0
Finds d r m = (q : ℕ) × (p : Digits) × (m ≡ ok (some (q, p))) × Quotient d r q p × (r < suc q * d)

at_most_iff :
    (c : Comparison) (a b : ℕ)
    → Says c a b
    → (at_most c ≡ true → a ≤ b) × (at_most c ≡ false → b < a)
at_most_iff less a b h = ((λ e. omega arith), (λ e. cc))
at_most_iff same a b h = ((λ e. omega arith), (λ e. cc))
at_most_iff more a b h = ((λ e. cc), (λ e. h))

finished :
    (d r low high : ℕ) (best : Best)
    → low ≡ suc high
    → r < suc high * d
    → Known d r low best
    → Finds d r (ok best)
finished d r low high none e h k = absurd (omega arith)
finished d r low high (some (q, p)) e h k =
    let last : high ≡ q = omega (arith, k.0) in (q, p, refl, k.1, rw (← last) h)

leb_past : (low high : ℕ) → low ≡ suc high → leb low high ≡ false
leb_past low high e = ground arith

past : (low high : ℕ) → leb low high ≡ false → low ≤ suc high → low ≡ suc high
past low high e h = ground arith

one_mul : (m v : ℕ) → v * (m + base * 0) ≡ m * v
one_mul m v = grind arith

pos_of_mul : (m v : ℕ) → 0 < m * v → 0 < m
pos_of_mul zero v h = absurd (omega arith)
pos_of_mul (suc m) v h = omega arith

module _ (d2 remainder : Digits) (h : InRange d2) (k : InRange remainder)
    (clean : IsClean remainder) where
  pub search-Finds :
      (fuel low high : ℕ) (best : Best)
      → suc high ≤ base
      → low ≤ suc high
      → suc high ≤ low + reach fuel
      → value remainder < suc high * value d2
      → Known (value d2) (value remainder) low best
      → Finds (value d2) (value remainder) (search (suc fuel) low high d2 remainder best)
  unfolding search
  search-Finds zero low high best a b c lt known =
      rw (leb_past low high (omega arith))
        (finished (value d2) (value remainder) low high best (omega arith) lt known)
  search-Finds (suc fuel) low high best a b c lt known = elim (Bool-cases (leb low high)) [
    | inr end ↦
        rw end (finished (value d2) (value remainder) low high best (past low high end b) lt known)
    | inl open_still ↦
        let mid = (low + high) / 2 in
        let inside : low ≤ high = leb→le low high open_still in
        let (p, made, v, i, is_clean) = mul_digits-Makes d2 (mid ∷ []) h (omega arith, tt) in
        let product : value p ≡ mid * value d2 = v ∙ one_mul mid (value d2) in
        let test =
          at_most_iff (abs_compare p remainder) (value p) (value remainder)
            (abs_compare-Says p remainder i k is_clean clean) in
        rw (open_still, made)
          (elim (Bool-cases (at_most (abs_compare p remainder))) [
            | inl fits ↦ rw fits (
                search-Finds fuel (mid + 1) high (some (mid, p)) a (omega arith) (omega arith) lt
                  (omega arith, record { product = product; below = test.0 fits; in_range = i }))
            | inr big ↦
                let above = test.1 big in
                let positive : 0 < mid = pos_of_mul mid (value d2) (rw (← product) (omega arith)) in
                let before : suc (one_less mid) ≡ mid = omega arith in
                rw big (
                  search-Finds fuel low (one_less mid) best (omega arith) (omega arith)
                    (omega arith) (rw (before, ← product) above) known)
          ])
  ]
