-- ===== src/BoundedInteger/Modular.antt =====
-- The operators of a bounded integer are addition and subtraction modulo its maximum plus one.
use cpp_experiments.Common.{
  ℕ, suc, ◌+◌, ◌-◌, ◌%◌, ◌^◌, ◌≤◌, ◌<◌, ◌≡◌, refl, sym, ap, ◌∙◌, false, ◌==◌, ltb, leb,
  if◌then◌else◌, arith, inl, inr, Bool-cases,
}
use native.Mathlib.Nat.{
  mod-lt, mod-eq_of_lt, mod-eq-sub-mod, mod-add-mod, add-mod-mod, add-mod_right, le_of_lt,
}
use cpp_experiments.BoundedInteger.{
  tmax, Bounded, plus32, minus32, bounded, add_assign, sub_assign, add, sub,
}

abbrev pub IsBounded : Bounded → Type 0
IsBounded b = (b.val ≤ b.max) × (b.max < 2 ^ 32)

mod_high : (a b n : ℕ) → n ≤ a + b → a < n → b ≤ n → (a + b) % n ≡ a + b - n
mod_high a b n p h k = mod-eq-sub-mod p ∙ mod-eq_of_lt (omega arith)

wrap : (a b n : ℕ) → a < n → b ≤ n → (if leb n (a + b) then a + b - n else a + b) ≡ (a + b) % n
wrap a b n h k =
    ground (arith, λ (p : a + b < n). mod-eq_of_lt p, λ (p : n ≤ a + b). mod_high a b n p h k)

plus32-suc : (max : ℕ) → max < 2 ^ 32 → (max == tmax) ≡ false → plus32 max 1 ≡ suc max
plus32-suc max h k = ground arith

add_assign_small :
    (max val rest : ℕ)
    → val ≤ max
    → max < 2 ^ 32
    → rest < suc max
    → (if leb rest (minus32 max val)
        then plus32 rest val
        else minus32 (minus32 rest (minus32 max val)) 1)
      ≡ (if leb (suc max) (val + rest) then val + rest - suc max else val + rest)
add_assign_small max val rest h k l = ground arith

add_val :
    (max val other : ℕ)
    → val ≤ max
    → max < 2 ^ 32
    → (if max == tmax
        then plus32 val other
        else if leb (other % plus32 max 1) (minus32 max val)
        then plus32 (other % plus32 max 1) val
        else minus32 (minus32 (other % plus32 max 1) (minus32 max val)) 1)
      ≡ (val + other) % suc max
add_val max val other h k = elim (Bool-cases (max == tmax)) [
  | inl e ↦ let top : max ≡ tmax = ground arith in rw (e, top) refl
  | inr e ↦
      rw (e, plus32-suc max k e)
        (add_assign_small max val (other % suc max) h k (mod-lt other (omega arith))
          ∙ wrap val (other % suc max) (suc max) (omega arith)
              (le_of_lt (mod-lt other (omega arith)))
          ∙ add-mod-mod val other (suc max))
]

sub_assign_small :
    (max val rest : ℕ)
    → val ≤ max
    → max < 2 ^ 32
    → rest < suc max
    → (if leb rest val then minus32 val rest else plus32 (minus32 max (minus32 rest val)) 1) ≡ (
        if leb (suc max) (val + (suc max - rest))
        then val + (suc max - rest) - suc max
        else val + (suc max - rest))
sub_assign_small max val rest h k l = ground arith

-- operator+= adds modulo the maximum plus one, for a value in its range and any operand, also where
-- the maximum is the greatest number of 32 bits; the maximum stays.
pub add_assign-mod :
    (b : Bounded) (other : ℕ)
    → IsBounded b
    → add_assign b other ≡ record b { val = (b.val + other) % suc b.max }
unfolding add_assign
add_assign-mod b other (h, k) = ap (λ v. record b { val = v }) (add_val b.max b.val other h k)

sub_val :
    (max val other : ℕ)
    → val ≤ max
    → max < 2 ^ 32
    → other < 2 ^ 32
    → (if max == tmax
        then minus32 val other
        else if leb (other % plus32 max 1) val
        then minus32 val (other % plus32 max 1)
        else plus32 (minus32 max (minus32 (other % plus32 max 1) val)) 1)
      ≡ (val + (suc max - other % suc max)) % suc max
sub_val max val other h k l = elim (Bool-cases (max == tmax)) [
  | inl e ↦
      let top : max ≡ tmax = ground arith in
      rw (e, top, mod-eq_of_lt l) (ap (λ n. n % 2 ^ 32) (omega arith))
  | inr e ↦
      let small = mod-lt other {m = suc max} (omega arith) in
      rw (e, plus32-suc max k e)
        (sub_assign_small max val (other % suc max) h k small
          ∙ wrap val (suc max - other % suc max) (suc max) (omega arith) (omega arith))
]

-- operator-= adds what the operand, taken modulo the maximum plus one, leaves of that number.
pub sub_assign-mod :
    (b : Bounded) (other : ℕ)
    → IsBounded b
    → other < 2 ^ 32
    → sub_assign b other ≡ record b { val = (b.val + (suc b.max - other % suc b.max)) % suc b.max }
unfolding sub_assign
sub_assign-mod b other (h, k) l = ap (λ v. record b { val = v }) (sub_val b.max b.val other h k l)

whole :
    (max val other : ℕ) → val ≤ max → (val + (suc max - other % suc max) + other) % suc max ≡ val
whole max val other h =
    let small = mod-lt other {m = suc max} (omega arith) in
    sym (add-mod-mod (val + (suc max - other % suc max)) other (suc max))
    ∙ ap (λ n. n % suc max) (omega arith)
    ∙ add-mod_right val (suc max)
    ∙ mod-eq_of_lt (omega arith)

undone :
    (max val other : ℕ)
    → val ≤ max
    → ((val + (suc max - other % suc max)) % suc max + other) % suc max ≡ val
undone max val other h = mod-add-mod _ (suc max) other ∙ whole max val other h

redone :
    (max val other : ℕ)
    → val ≤ max
    → ((val + other) % suc max + (suc max - other % suc max)) % suc max ≡ val
redone max val other h =
    mod-add-mod _ (suc max) _ ∙ ap (λ n. n % suc max) (omega arith) ∙ whole max val other h

-- What operator+= leaves is in its range.
pub add_assign-IsBounded : (b : Bounded) (other : ℕ) → IsBounded b → IsBounded (add_assign b other)
add_assign-IsBounded b other h =
    rw (add_assign-mod b other h)
      (omega (arith, mod-lt (b.val + other) {m = suc b.max} (omega arith)), h.1)

pub sub_assign-IsBounded :
    (b : Bounded) (other : ℕ) → IsBounded b → other < 2 ^ 32 → IsBounded (sub_assign b other)
sub_assign-IsBounded b other h l = rw (sub_assign-mod b other h l) (
  omega (arith, mod-lt (b.val + (suc b.max - other % suc b.max)) {m = suc b.max} (omega arith)),
  h.1,
)

not_top : (max val : ℕ) → max < val → val < 2 ^ 32 → (max == tmax) ≡ false
not_top max val h k = ground arith

-- The constructor takes a value beyond the maximum into the range, and the maximum of the type is
-- no exception: no value is beyond it.
pub bounded-IsBounded : (max val : ℕ) → max < 2 ^ 32 → val < 2 ^ 32 → IsBounded (bounded max val)
unfolding bounded
bounded-IsBounded max val h k = elim (Bool-cases (ltb max val)) [
  | inl e ↦
      let small = mod-lt val {m = suc max} (omega arith) in
      let less : max < val = ground arith in
      rw (e, plus32-suc max h (not_top max val less k)) (omega arith, h)
  | inr e ↦ rw e (ground arith, h)
]

-- The constructor keeps a value that is in range.
bounded_kept : (b : Bounded) → IsBounded b → bounded b.max b.val ≡ b
unfolding bounded
bounded_kept b h = ap (λ v. record b { val = v }) (ground arith)

-- operator+ after operator- of the same operand gives the bounded integer back, and the other way
-- around, for a value in its range and any operand of 32 bits, also one beyond the maximum.
pub add-sub :
    (b : Bounded) (other : ℕ)
    → IsBounded b
    → other < 2 ^ 32
    → (add (sub b other) other ≡ b) × (sub (add b other) other ≡ b)
unfolding add sub
add-sub b other h l =
    let low = sub_assign-IsBounded b other h l in
    let high = add_assign-IsBounded b other h in
    (
      rw
          (
            bounded_kept b h,
            bounded_kept (sub_assign b other) low,
            add_assign-mod (sub_assign b other) other low,
            sub_assign-mod b other h l,
          )
          (ap (λ v. record b { val = v }) (undone b.max b.val other h.0)),
      rw
          (
            bounded_kept b h,
            bounded_kept (add_assign b other) high,
            sub_assign-mod (add_assign b other) other high l,
            add_assign-mod b other h,
          )
          (ap (λ v. record b { val = v }) (redone b.max b.val other h.0)),
    )
