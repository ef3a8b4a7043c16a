-- ===== src/Brainfuck/Transpile/Runtime.antt =====
-- The functions of the transpiled program against the characters and the instructions.
use cpp_experiments.Common.{ℕ, zero, suc, ◌+◌, ◌%◌, ◌<◌, ◌≡◌, refl, sym, ap, ◌∙◌, some, arith}
use cpp_experiments.Common.Int.{ℤ, pos, negsuc, ◌+ℤ◌, ◌-ℤ◌, ◌*ℤ◌}
use cpp_experiments.Brainfuck.Machine.{Machine, memory_size, cell, update}
use cpp_experiments.Brainfuck.Interpret.{plus}
use cpp_experiments.Brainfuck.Bytecode.{
  Opcode, update_val, shift_ptr, output, input, lstart, lend, clear, shift_ptr_zero, update_by_curr,
  mod_of, shifted, seek, execute, at_position,
}
use cpp_experiments.Brainfuck.Bytecode.Agreement.{times, times-plus, shifted_lt}
use cpp_experiments.Brainfuck.Transpile.{c_shifted, c_update, c_seek, c_update_by_curr, c_call}

c_update-cell :
    (n : ℕ) (m : Machine) → cell m < 256 → cell (c_update (pos n) m) ≡ (cell m + n) % 256
unfolding c_update ◌+ℤ◌ ◌-ℤ◌
c_update-cell n m h = ground arith

-- UPDATEVAL by n of the transpiled program leaves the value that n characters `+` leave, for any n.
pub c_update-plus :
    (n : ℕ) (m : Machine) → cell m < 256 → cell (c_update (pos n) m) ≡ cell (times n plus m)
c_update-plus n m h = c_update-cell n m h ∙ sym (times-plus n m h)

-- A shift that is shorter than the memory, as compileFile writes them.
abbrev pub IsReduced : ℤ → Type 0
IsReduced (pos n) = n < memory_size
IsReduced (negsuc n) = suc n < memory_size

c_shifted_lem : (v : ℤ) (p : ℕ) → IsReduced v → p < memory_size → c_shifted v p ≡ shifted v p
unfolding c_shifted mod_of ◌+ℤ◌ ◌-ℤ◌
c_shifted_lem (pos n) p h k = ground arith
c_shifted_lem (negsuc n) p h k = ground arith

c_seek_lem :
    (fuel : ℕ) (v : ℤ) (m : Machine)
    → IsReduced v
    → m.ptr < memory_size
    → c_seek fuel v m ≡ seek fuel v m
unfolding c_seek seek
c_seek_lem zero v m h k = refl
c_seek_lem (suc fuel) v m h k =
    rw
      (
        c_shifted_lem v m.ptr h k,
        c_seek_lem fuel v (record m { ptr = shifted v m.ptr }) h (shifted_lt v m.ptr),
      )
      refl

-- The instructions that the transpiled program runs as executeByteCode does.
abbrev pub Shared : Opcode → Type 0
Shared update_val = ⊥
Shared input = ⊥
Shared lstart = ⊥
Shared lend = ⊥
Shared _ = Unit {0}

-- The C functions for SHIFTPTR, OUTPUT, CLEAR, SHIFTPTR_ZERO and UPDATE_BY_CURR do what
-- executeByteCode does, where the pointer is in the memory and the shift is shorter than it.
pub c_call-execute :
    (fuel : ℕ) (o : Opcode) (v w : ℤ) (p : ℕ) (m : Machine)
    → Shared o
    → IsReduced v
    → m.ptr < memory_size
    → at_position p (c_call fuel o v w m) ≡ execute fuel o v w p m
unfolding c_call execute c_update_by_curr
c_call-execute fuel update_val v w p m s h k = absurd s
c_call-execute fuel shift_ptr v w p m s h k =
    ap (λ q. some (p, record m { ptr = q })) (c_shifted_lem v m.ptr h k)
c_call-execute fuel output v w p m s h k = refl
c_call-execute fuel input v w p m s h k = absurd s
c_call-execute fuel lstart v w p m s h k = absurd s
c_call-execute fuel lend v w p m s h k = absurd s
c_call-execute fuel clear v w p m s h k = refl
c_call-execute fuel shift_ptr_zero v w p m s h k = ap (at_position p) (c_seek_lem fuel v m h k)
c_call-execute fuel update_by_curr v w p m s h k =
    ap
      (λ q. some (
        p,
        record m {
          memory = update m.memory q (mod_of (pos (m.memory q) +ℤ w *ℤ pos (cell m)) 255);
        },
      ))
      (c_shifted_lem v m.ptr h k)
