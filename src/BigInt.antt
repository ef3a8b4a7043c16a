-- ===== src/BigInt.antt =====
-- misc/bigint.hpp: integers of any size, as digits to the base 10000 with the lowest first, and a
-- sign.
pub mod Value
pub mod Sum
pub mod Difference
pub mod Product
pub mod Divide
pub mod Operators
pub mod Signed
pub mod Text
pub mod Tests
use cpp_experiments.Common.{
  ℕ, zero, suc, ◌+◌, ◌-◌, ◌*◌, ◌/◌, ◌%◌, Bool, true, false, not, ◌||◌, List, [], ◌∷◌, ltb, leb,
  ◌==◌, length, replicate, if◌then◌else◌,
}
use cpp_experiments.Common.Fault.{Run, ok, fault, undefined, thrown, ◌>>=◌}

abbrev pub Digits : Type 0
Digits = List ℕ

abbrev pub base : ℕ
base = 10000

pub record BigInt : Type 0 where
  pub digits : Digits
  pub negative : Bool

-- A digit in front of what is left of the higher ones.
abbrev pub keep_digit : ℕ → Digits → Digits
keep_digit d [] = if d == 0 then [] else d ∷ []
keep_digit d (e ∷ es) = d ∷ e ∷ es

-- clean: the zeros at the high end are popped.
unfoldable pub clean : Digits → Digits
clean [] = []
clean (d ∷ ds) = keep_digit d (clean ds)

-- The int that a comparison returns: -1, 0 or 1.
pub data Comparison : Type 0 where
  less same more : Comparison

abbrev pub compare_ℕ : ℕ → ℕ → Comparison
compare_ℕ a b = if ltb a b then less else if ltb b a then more else same

-- The lower digits count where the higher ones are the same.
abbrev pub unless_same : Comparison → ℕ → ℕ → Comparison
unless_same less d e = less
unless_same more d e = more
unless_same same d e = compare_ℕ d e

-- The loop over digits of one length, from the high end.
unfoldable pub compare_high : Digits → Digits → Comparison
compare_high [] ds = same
compare_high (d ∷ ds) [] = same
compare_high (d ∷ ds) (e ∷ es) = unless_same (compare_high ds es) d e

unfoldable pub abs_compare : Digits → Digits → Comparison
unfolding compare_high
abs_compare d1 d2 =
    if ltb (length d1) (length d2)
    then less
    else if ltb (length d2) (length d1)
    then more
    else compare_high d1 d2

unfoldable pub opposite : Comparison → Comparison
opposite less = more
opposite same = same
opposite more = less

unfoldable pub compare : BigInt → BigInt → Comparison
unfolding abs_compare opposite
compare a b =
    if a.negative
    then if b.negative then opposite (abs_compare a.digits b.digits) else less
    else if b.negative
    then more
    else abs_compare a.digits b.digits

-- `while (num) { push_back(num % BASE); num /= BASE; }`: of the constructor from a number, and of
-- `add` when both operands are used up and a carry is left. The number is fuel enough.
unfoldable pub digits_of : ℕ → ℕ → Digits
digits_of zero n = []
digits_of (suc fuel) n =
    let rest = digits_of fuel (n / base) in if n == 0 then [] else (n % base) ∷ rest

unfoldable pub add_loop : Digits → Digits → ℕ → Digits
unfolding digits_of
add_loop [] [] carry = digits_of carry carry
add_loop [] (e ∷ es) carry = ((e + carry) % base) ∷ add_loop [] es ((e + carry) / base)
add_loop (d ∷ ds) [] carry = ((d + carry) % base) ∷ add_loop ds [] ((d + carry) / base)
add_loop (d ∷ ds) (e ∷ es) carry =
    ((d + e + carry) % base) ∷ add_loop ds es ((d + e + carry) / base)

unfoldable pub add_digits : Digits → Digits → Digits
unfolding add_loop
add_digits d1 d2 = add_loop d1 d2 0

abbrev pub head : Digits → ℕ
head [] = 0
head (d ∷ ds) = d

abbrev pub tail : Digits → Digits
tail [] = []
tail (d ∷ ds) = ds

-- One digit of the difference, and what is borrowed from the next. For digits below the base the
-- subtrahend is at most `left + base`.
abbrev difference : ℕ → ℕ → ℕ
difference left right = if leb right left then left - right else left + base - right

abbrev borrow : ℕ → ℕ → ℕ
borrow left right = if leb right left then 0 else 1

unfoldable pub sub_loop : Digits → Digits → ℕ → Digits
sub_loop [] es carry = []
sub_loop (d ∷ ds) es carry =
    difference d (head es + carry) ∷ sub_loop ds (tail es) (borrow d (head es + carry))

unfoldable pub sub_digits : Digits → Digits → Digits
unfolding sub_loop clean
sub_digits d1 d2 = clean (sub_loop d1 d2 0)

-- One round of the outer loop of `multiply`, from the place where the round begins: the digit of
-- the first number, the digits of the second that are left, the carry and the rest of the product.
-- A place behind the product is no place of the vector.
unfoldable pub mul_row : ℕ → Digits → ℕ → Digits → Run Digits
mul_row d [] carry [] = if carry == 0 then ok [] else fault undefined
mul_row d (e ∷ es) carry [] = fault undefined
mul_row d [] carry (t ∷ ts) =
    let rest = mul_row d [] ((t + carry) / base) ts in
    if carry == 0 then ok (t ∷ ts) else (rest >>= λ r. ok (((t + carry) % base) ∷ r))
mul_row d (e ∷ es) carry (t ∷ ts) =
    mul_row d es ((t + d * e + carry) / base) ts >>= λ r. ok (((t + d * e + carry) % base) ∷ r)

-- The outer loop: behind a round its first place is not written again.
unfoldable pub mul_loop : Digits → Digits → Digits → Run Digits
unfolding mul_row
mul_loop [] d2 places = ok places
mul_loop (d ∷ ds) d2 places = do
  row ← mul_row d d2 0 places
  rest ← mul_loop ds d2 (tail row)
  ok (head row ∷ rest)

unfoldable pub mul_digits : Digits → Digits → Run Digits
unfolding mul_loop clean
mul_digits d1 d2 = do
  places ← mul_loop d1 d2 (replicate (length d1 + length d2) 0)
  ok (clean places)
