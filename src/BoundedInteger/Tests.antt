-- ===== src/BoundedInteger/Tests.antt =====
-- The static_asserts of misc/bounded_integer.hpp, and the theorems at concrete numbers.
use cpp_experiments.Common.{◌≡◌, ◌^◌, ◌-◌, ◌%◌, ◌+◌, refl, arith}
use cpp_experiments.BoundedInteger.{Bounded, bounded, add_assign, sub_assign, add, sub}
use cpp_experiments.BoundedInteger.Modular.{add_assign-mod, add-sub}

abbrev five : Bounded
five = record { max = 10; val = 5 }

add_assign-mod_example : add_assign five 28 ≡ record five { val = (5 + 28) % 11 }
add_assign-mod_example = add_assign-mod five 28 (omega arith, omega arith)

add-sub_case : (add (sub five 28) 28 ≡ five) × (sub (add five 28) 28 ≡ five)
add-sub_case = add-sub five 28 (omega arith, omega arith) (omega arith)

below_zero : (sub (bounded 10 0) 1).val ≡ 10
unfolding bounded sub sub_assign
below_zero = refl

beyond_maximum : (add (bounded 10 3) 25).val ≡ 6
unfolding bounded add add_assign
beyond_maximum = refl

far_below : (sub (bounded 10 8) 15).val ≡ 4
unfolding bounded sub sub_assign
far_below = refl

full_width : (add (bounded (2 ^ 32 - 1) (2 ^ 32 - 1)) 1).val ≡ 0
unfolding bounded add add_assign
full_width = refl
