-- ===== src/Brainfuck/Compile/Written.antt =====
-- Writing an instruction does not change what it does.
use cpp_experiments.Common.{ℕ, zero, suc, ◌≡◌, refl, ap, some, arith}
use cpp_experiments.Common.Int.{ℤ, pos, negsuc, ◌+ℤ◌, ◌*ℤ◌}
use cpp_experiments.Brainfuck.Machine.{Machine, memory_size, cell, write, update}
use cpp_experiments.Brainfuck.Bytecode.{
  Opcode, Instruction, update_val, shift_ptr, output, input, lstart, lend, clear, shift_ptr_zero,
  update_by_curr, mod_of, shifted, seek, execute, at_position,
}
use cpp_experiments.Brainfuck.Compile.{rem_of, reduced, written}

mod_of-rem_of_255 : (c : ℕ) (v : ℤ) → mod_of (pos c +ℤ rem_of v 255) 255 ≡ mod_of (pos c +ℤ v) 255
unfolding mod_of rem_of ◌+ℤ◌
mod_of-rem_of_255 c (pos n) = ground arith
mod_of-rem_of_255 c (negsuc n) = ground arith

shifted-rem_of : (v : ℤ) (p : ℕ) → shifted (rem_of v memory_size) p ≡ shifted v p
unfolding mod_of rem_of ◌+ℤ◌
shifted-rem_of (pos n) p = ground arith
shifted-rem_of (negsuc n) p = ground arith

seek-rem_of : (fuel : ℕ) (v : ℤ) (m : Machine) → seek fuel (rem_of v memory_size) m ≡ seek fuel v m
unfolding seek
seek-rem_of zero v m = refl
seek-rem_of (suc fuel) v m =
    rw (shifted-rem_of v m.ptr, seek-rem_of fuel v (record m { ptr = shifted v m.ptr })) refl

execute-reduced :
    (fuel : ℕ) (o : Opcode) (v w : ℤ) (p : ℕ) (m : Machine)
    → execute fuel o (reduced o v) w p m ≡ execute fuel o v w p m
unfolding execute
execute-reduced fuel update_val v w p m =
    ap (λ x. some (p, write m x)) (mod_of-rem_of_255 (cell m) v)
execute-reduced fuel shift_ptr v w p m =
    ap (λ q. some (p, record m { ptr = q })) (shifted-rem_of v m.ptr)
execute-reduced fuel output v w p m = refl
execute-reduced fuel input v w p m = refl
execute-reduced fuel lstart v w p m = refl
execute-reduced fuel lend v w p m = refl
execute-reduced fuel clear v w p m = refl
execute-reduced fuel shift_ptr_zero v w p m = ap (at_position p) (seek-rem_of fuel v m)
execute-reduced fuel update_by_curr v w p m =
    ap
      (λ q. some (
        p,
        record m {
          memory = update m.memory q (mod_of (pos (m.memory q) +ℤ w *ℤ pos (cell m)) 255);
        },
      ))
      (shifted-rem_of v m.ptr)

-- compileFile reduces an instruction's first value when it writes it; the reduced instruction
-- does what the one before did, on every machine.
pub execute-written :
    (fuel : ℕ) (i : Instruction) (p : ℕ) (m : Machine)
    → execute fuel (written i).opcode (written i).val1 (written i).val2 p m
      ≡ execute fuel i.opcode i.val1 i.val2 p m
unfolding written
execute-written fuel i p m = execute-reduced fuel i.opcode i.val1 i.val2 p m
