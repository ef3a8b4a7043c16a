-- ===== src/Brainfuck/Machine.antt =====
-- misc/brainfuck.cpp: the memory and the pointer of the class BrainFuck, with the two streams.
use cpp_experiments.Common.{ℕ, ◌%◌, ◌<◌, List, [], ◌∷◌, ◌++◌, arith, ◌==◌, if◌then◌else◌}

abbrev pub memory_size : ℕ
memory_size = 30000

-- The cells are read and written at indices below `memory_size` only (Machine.IsValid).
pub record Machine : Type 0 where
  pub memory : ℕ → ℕ
  pub ptr : ℕ
  pub input : List ℕ
  pub output : List ℕ

abbrev pub cell : Machine → ℕ
cell m = m.memory m.ptr

abbrev pub update : (ℕ → ℕ) → ℕ → ℕ → ℕ → ℕ
update f i v j = if i == j then v else f j

abbrev pub write : Machine → ℕ → Machine
write m v = record m { memory = update m.memory m.ptr v }

-- std::putchar
abbrev pub put_char : Machine → Machine
put_char m = record m { output = m.output ++ cell m ∷ [] }

abbrev input_byte : List ℕ → ℕ
input_byte [] = 255
input_byte (b ∷ _) = b % 256

abbrev input_rest : List ℕ → List ℕ
input_rest [] = []
input_rest (_ ∷ r) = r

-- static_cast<std::uint8_t>(std::getchar()), which is 255 at the end of the input.
abbrev pub get_char : Machine → Machine
get_char m = record m {
  memory = update m.memory m.ptr (input_byte m.input);
  input = input_rest m.input;
}

pub record IsValid (m : Machine) : Type 0 where
  pub in_memory : m.ptr < memory_size
  pub cells : (i : ℕ) → m.memory i < 256

pub write-IsValid : (m : Machine) (v : ℕ) → v < 256 → IsValid m → IsValid (write m v)
write-IsValid m v h k = record { in_memory = k.in_memory; cells = λ i. ground (arith, k.cells i) }

pub get_char-IsValid : (m : Machine) → IsValid m → IsValid (get_char m)
get_char-IsValid m k = record {
  in_memory = k.in_memory;
  cells = λ i. ground (arith, k.cells i, byte m.input);
}
  where
    byte : (s : List ℕ) → input_byte s < 256
    byte [] = omega arith
    byte (b ∷ r) = omega arith

pub move-IsValid :
    (m : Machine) (p : ℕ) → p < memory_size → IsValid m → IsValid (record m { ptr = p })
move-IsValid m p h k = record { in_memory = h; cells = k.cells }
