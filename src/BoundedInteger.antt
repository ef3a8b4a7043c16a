-- ===== src/BoundedInteger.antt =====
-- misc/bounded_integer.hpp with T = unsigned: a number of 32 bits that wraps at a maximum which is
-- chosen at run time.
pub mod Modular
pub mod Tests
use cpp_experiments.Common.{ℕ, ◌+◌, ◌-◌, ◌%◌, ◌^◌, ◌==◌, ltb, leb, if◌then◌else◌}

abbrev pub tmax : ℕ
tmax = 2 ^ 32 - 1

pub record Bounded : Type 0 where
  max : ℕ
  val : ℕ

-- The sum and the difference of two unsigned numbers.
abbrev pub plus32 : ℕ → ℕ → ℕ
plus32 a b = (a + b) % 2 ^ 32

abbrev pub minus32 : ℕ → ℕ → ℕ
minus32 a b = (a + 2 ^ 32 - b) % 2 ^ 32

-- The constructor.
unfoldable pub bounded : ℕ → ℕ → Bounded
bounded max val = record { max = max; val = if ltb max val then val % plus32 max 1 else val }

-- operator+=
unfoldable pub add_assign : Bounded → ℕ → Bounded
add_assign b other =
    let delta = minus32 b.max b.val in
    let rest = other % plus32 b.max 1 in
    record b {
      val =
          if b.max == tmax
          then plus32 b.val other
          else if leb rest delta
          then plus32 rest b.val
          else minus32 (minus32 rest delta) 1;
    }

-- operator-=
unfoldable pub sub_assign : Bounded → ℕ → Bounded
sub_assign b other =
    let rest = other % plus32 b.max 1 in
    record b {
      val =
          if b.max == tmax
          then minus32 b.val other
          else if leb rest b.val
          then minus32 b.val rest
          else plus32 (minus32 b.max (minus32 rest b.val)) 1;
    }

-- operator+ and operator-, which change a copy; the copy is made by the constructor.
unfoldable pub add : Bounded → ℕ → Bounded
add b other = add_assign (bounded b.max b.val) other

unfoldable pub sub : Bounded → ℕ → Bounded
sub b other = sub_assign (bounded b.max b.val) other
