-- ===== src/Brainfuck/Bytecode.antt =====
-- misc/brainfuck.cpp: `executeByteCode`, the run of the compiled instructions.
pub mod Agreement
use cpp_experiments.Common.{
  ℕ, zero, suc, ◌+◌, ◌-◌, ◌*◌, ◌%◌, ◌^◌, Bool, true, false, Option, none, some, List, [], ◌∷◌, ◌==◌,
  if◌then◌else◌, get_elem?,
}
use cpp_experiments.Common.Int.{ℤ, pos, negsuc, ◌+ℤ◌, ◌*ℤ◌}
use cpp_experiments.Brainfuck.Machine.{
  Machine, memory_size, cell, write, update, put_char, get_char,
}

pub data Opcode : Type 0 where
  update_val shift_ptr output input lstart lend clear shift_ptr_zero update_by_curr : Opcode

-- INSTRUCTION_T; the two values are `long`s.
pub record Instruction : Type 0 where
  pub opcode : Opcode
  pub val1 : ℤ
  pub val2 : ℤ

-- (val % modulus + modulus) % modulus, with the remainder of C++ that has the sign of `val`.
unfoldable pub mod_of : ℤ → ℕ → ℕ
mod_of (pos n) modulus = (n % modulus + modulus) % modulus
mod_of (negsuc n) modulus = (modulus - suc n % modulus) % modulus

abbrev pub shifted : ℤ → ℕ → ℕ
shifted by p = mod_of (pos p +ℤ by) memory_size

-- static_cast<std::size_t>(val), where the target of a jump is no negative number.
abbrev pub to_pos : ℤ → ℕ
to_pos (pos n) = n
to_pos (negsuc n) = 2 ^ 64 - suc n

-- while (memory[ptr] != 0) ptr = ...: `none` where the fuel runs out.
unfoldable pub seek : ℕ → ℤ → Machine → Option Machine
seek zero by m = none
seek (suc fuel) by m =
    let further = seek fuel by (record m { ptr = shifted by m.ptr }) in
    if cell m == 0 then some m else further

abbrev pub at_position : ℕ → Option Machine → Option (ℕ × Machine)
at_position p none = none
at_position p (some m) = some (p, m)

-- The position after the instruction, which the loop increments, and the machine.
unfoldable pub execute : ℕ → Opcode → ℤ → ℤ → ℕ → Machine → Option (ℕ × Machine)
execute fuel update_val v w p m = some (p, write m (mod_of (pos (cell m) +ℤ v) 255))
execute fuel shift_ptr v w p m = some (p, record m { ptr = shifted v m.ptr })
execute fuel input v w p m = some (p, get_char m)
execute fuel output v w p m = some (p, put_char m)
execute fuel lstart v w p m = some (if cell m == 0 then to_pos v else p, m)
execute fuel lend v w p m = some (if cell m == 0 then p else to_pos v, m)
execute fuel clear v w p m = some (p, write m 0)
execute fuel shift_ptr_zero v w p m = at_position p (seek fuel v m)
execute fuel update_by_curr v w p m =
    let to = shifted v m.ptr in
    some (
      p,
      record m {
        memory = update m.memory to (mod_of (pos (m.memory to) +ℤ w *ℤ pos (cell m)) 255);
      },
    )

abbrev pub carry : Option (ℕ × Machine) → (ℕ → Machine → Option Machine) → Option Machine
carry none go = none
carry (some (q, m)) go = go q m

abbrev pub fetch_and_run :
    ℕ → Option Instruction → ℕ → Machine → (ℕ → Machine → Option Machine) → Option Machine
fetch_and_run fuel none p m go = some m
fetch_and_run fuel (some i) p m go = carry (execute fuel i.opcode i.val1 i.val2 p m) go

-- The loop over the instructions on fuel, which bounds the inner loop of each as well.
unfoldable pub run : ℕ → List Instruction → ℕ → Machine → Option Machine
run zero code p m = none
run (suc fuel) code p m =
    fetch_and_run fuel (get_elem? code p) p m (λ q m'. run fuel code (q + 1) m')
