-- ===== src/BigInt/Sum.antt =====
-- `add` of misc/bigint.hpp adds, and its digits are in range and clean.
use cpp_experiments.Common.{ℕ, zero, suc, ◌+◌, ◌/◌, ◌%◌, ◌≤◌, ◌≡◌, [], ◌∷◌, arith}
use cpp_experiments.BigInt.{Digits, base, digits_of, add_loop, add_digits}
use cpp_experiments.BigInt.Value.{value, InRange, IsClean, cons-IsClean, tail-IsClean, clean_pos}

pub value-digits_of : (f n : ℕ) → n ≤ f → value (digits_of f n) ≡ n
unfolding digits_of
value-digits_of zero n h = omega arith
value-digits_of (suc f) n h = ground (arith, value-digits_of f (n / base))

pub digits_of-InRange : (f n : ℕ) → InRange (digits_of f n)
unfolding digits_of
digits_of-InRange zero n = tt
digits_of-InRange (suc f) n = ground (arith, digits_of-InRange f (n / base))

pub digits_of-IsClean : (f n : ℕ) → n ≤ f → IsClean (digits_of f n)
unfolding digits_of
digits_of-IsClean zero n h = tt
digits_of-IsClean (suc f) n h = ground (
  arith,
  cons-IsClean (n % base) (digits_of f (n / base)) (digits_of-IsClean f (n / base) (omega arith)),
  value-digits_of f (n / base),
)

value-add_loop : (ds es : Digits) (c : ℕ) → value (add_loop ds es c) ≡ value ds + value es + c
unfolding add_loop
value-add_loop [] [] c = omega (arith, value-digits_of c c)
value-add_loop [] (e ∷ es) c = omega (arith, value-add_loop [] es ((e + c) / base))
value-add_loop (d ∷ ds) [] c = omega (arith, value-add_loop ds [] ((d + c) / base))
value-add_loop (d ∷ ds) (e ∷ es) c = omega (arith, value-add_loop ds es ((d + e + c) / base))

add_loop-InRange : (ds es : Digits) (c : ℕ) → InRange (add_loop ds es c)
unfolding add_loop
add_loop-InRange [] [] c = digits_of-InRange c c
add_loop-InRange [] (e ∷ es) c = (omega arith, add_loop-InRange [] es ((e + c) / base))
add_loop-InRange (d ∷ ds) [] c = (omega arith, add_loop-InRange ds [] ((d + c) / base))
add_loop-InRange (d ∷ ds) (e ∷ es) c = (omega arith, add_loop-InRange ds es ((d + e + c) / base))

add_loop-IsClean : (ds es : Digits) (c : ℕ) → IsClean ds → IsClean es → IsClean (add_loop ds es c)
unfolding add_loop
add_loop-IsClean [] [] c h k = digits_of-IsClean c c (omega arith)
add_loop-IsClean [] (e ∷ es) c h k =
    cons-IsClean ((e + c) % base) (add_loop [] es ((e + c) / base))
      (add_loop-IsClean [] es ((e + c) / base) h (tail-IsClean e es k))
      (omega (arith, value-add_loop [] es ((e + c) / base), clean_pos es e k))
add_loop-IsClean (d ∷ ds) [] c h k =
    cons-IsClean ((d + c) % base) (add_loop ds [] ((d + c) / base))
      (add_loop-IsClean ds [] ((d + c) / base) (tail-IsClean d ds h) k)
      (omega (arith, value-add_loop ds [] ((d + c) / base), clean_pos ds d h))
add_loop-IsClean (d ∷ ds) (e ∷ es) c h k =
    cons-IsClean ((d + e + c) % base) (add_loop ds es ((d + e + c) / base))
      (add_loop-IsClean ds es ((d + e + c) / base) (tail-IsClean d ds h) (tail-IsClean e es k))
      (omega (arith, value-add_loop ds es ((d + e + c) / base), clean_pos ds d h))

module _ (ds es : Digits) where
  pub value-add_digits : value (add_digits ds es) ≡ value ds + value es
  unfolding add_digits
  value-add_digits = omega (arith, value-add_loop ds es 0)

  pub add_digits-InRange : InRange (add_digits ds es)
  unfolding add_digits
  add_digits-InRange = add_loop-InRange ds es 0

  pub add_digits-IsClean : IsClean ds → IsClean es → IsClean (add_digits ds es)
  unfolding add_digits
  add_digits-IsClean = add_loop-IsClean ds es 0
