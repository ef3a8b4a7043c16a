-- ===== src/BigInt/Difference.antt =====
-- `sub` of misc/bigint.hpp subtracts the lesser number from the greater one.
use cpp_experiments.Common.{ℕ, ◌+◌, ◌≤◌, ◌≡◌, [], ◌∷◌, arith, if◌then◌else◌, leb}
use cpp_experiments.BigInt.{Digits, sub_loop, sub_digits}
use cpp_experiments.BigInt.Value.{
  value, InRange, IsClean, value-clean, clean-InRange, clean-IsClean,
}

value-sub_loop :
    (ds es : Digits) (c : ℕ)
    → InRange ds
    → InRange es
    → c ≤ 1
    → value es + c ≤ value ds
    → value (sub_loop ds es c) + (value es + c) ≡ value ds
unfolding sub_loop
value-sub_loop [] [] c h k l m = omega arith
value-sub_loop [] (e ∷ es) c h k l m = omega arith
value-sub_loop (d ∷ ds) [] c h k l m =
    ground (arith, value-sub_loop ds [] (if leb (0 + c) d then 0 else 1) h.1 tt)
value-sub_loop (d ∷ ds) (e ∷ es) c h k l m =
    ground (arith, value-sub_loop ds es (if leb (e + c) d then 0 else 1) h.1 k.1)

sub_loop-InRange :
    (ds es : Digits) (c : ℕ) → InRange ds → InRange es → c ≤ 1 → InRange (sub_loop ds es c)
unfolding sub_loop
sub_loop-InRange [] es c h k l = tt
sub_loop-InRange (d ∷ ds) [] c h k l =
    ground (arith, sub_loop-InRange ds [] (if leb (0 + c) d then 0 else 1) h.1 tt)
sub_loop-InRange (d ∷ ds) (e ∷ es) c h k l =
    ground (arith, sub_loop-InRange ds es (if leb (e + c) d then 0 else 1) h.1 k.1)

module _ (ds es : Digits) (h : InRange ds) (k : InRange es) where
  pub value-sub_digits : value es ≤ value ds → value (sub_digits ds es) + value es ≡ value ds
  unfolding sub_digits
  value-sub_digits le = omega (arith, value-sub_loop ds es 0 h k, value-clean (sub_loop ds es 0))

  pub sub_digits-InRange : InRange (sub_digits ds es)
  unfolding sub_digits
  sub_digits-InRange = clean-InRange (sub_loop ds es 0) (sub_loop-InRange ds es 0 h k (omega arith))

pub sub_digits-IsClean : (ds es : Digits) → IsClean (sub_digits ds es)
unfolding sub_digits
sub_digits-IsClean ds es = clean-IsClean (sub_loop ds es 0)
