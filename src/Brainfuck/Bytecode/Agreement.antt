-- ===== src/Brainfuck/Bytecode/Agreement.antt =====
-- The instructions against the characters that they stand for.
use cpp_experiments.Common.{
  ℕ, zero, suc, ◌+◌, ◌%◌, ◌<◌, ◌≤◌, ◌≡◌, ◌↔◌, refl, sym, ap, ◌∙◌, Bool-cases, inl, inr, Option,
  none, some, arith, ◌==◌,
}
use cpp_experiments.Common.Int.{ℤ, pos, negsuc, ◌+ℤ◌, ◌*ℤ◌}
use cpp_experiments.Brainfuck.Machine.{
  Machine, IsValid, memory_size, cell, write, write-IsValid, get_char-IsValid, move-IsValid,
}
use cpp_experiments.Brainfuck.Interpret.{plus, right}
use cpp_experiments.Brainfuck.Bytecode.{
  Opcode, update_val, shift_ptr, output, input, lstart, lend, clear, shift_ptr_zero, update_by_curr,
  mod_of, shifted, seek, execute, at_position,
}

-- `n` characters one after the other.
abbrev pub times : ℕ → (Machine → Machine) → Machine → Machine
times zero f m = m
times (suc n) f m = times n f (f m)

times-right :
    (n : ℕ) (m : Machine)
    → m.ptr < memory_size
    → times n right m ≡ record m { ptr = (m.ptr + n) % memory_size }
times-right zero m h = ap (λ p. record m { ptr = p }) (omega arith)
times-right (suc n) m h =
    times-right n (right m) (ground arith) ∙ ap (λ p. record m { ptr = p }) (ground arith)

shifted_right : (n p : ℕ) → shifted (pos n) p ≡ (p + n) % memory_size
unfolding mod_of ◌+ℤ◌
shifted_right n p = ground arith

pub times-plus : (n : ℕ) (m : Machine) → cell m < 256 → cell (times n plus m) ≡ (cell m + n) % 256
times-plus zero m h = omega arith
times-plus (suc n) m h = times-plus n (plus m) (ground arith) ∙ ground arith

update_plus : (n c : ℕ) → mod_of (pos c +ℤ pos n) 255 ≡ (c + n) % 255
unfolding mod_of ◌+ℤ◌
update_plus n c = ground arith

-- SHIFTPTR by n does what n characters `>` do, for any n, where the pointer is in the memory.
pub shift_ptr-right :
    (fuel n p : ℕ) (w : ℤ) (m : Machine)
    → m.ptr < memory_size
    → execute fuel shift_ptr (pos n) w p m ≡ some (p, times n right m)
unfolding execute
shift_ptr-right fuel n p w m h =
    ap (λ q. some (p, record m { ptr = q })) (shifted_right n m.ptr)
    ∙ ap (λ m. some (p, m)) (sym (times-right n m h))

pub cell-write : (m : Machine) (v : ℕ) → cell (write m v) ≡ v
cell-write m v = ground arith

-- UPDATEVAL by n, with n at most 255, leaves the value that n characters `+` leave if and only if
-- the sum stays below 255: the instruction counts modulo 255, the character modulo 256.
pub update_val-plus :
    (fuel n p : ℕ) (w : ℤ) (m : Machine)
    → cell m < 256
    → n ≤ 255
    → (m' : Machine) × (execute fuel update_val (pos n) w p m ≡ some (p, m'))
      × ((cell m' ≡ cell (times n plus m)) ↔ (cell m + n < 255))
unfolding execute
update_val-plus fuel n p w m h k =
    let a = update_plus n (cell m) in
    let b = times-plus n m h in
    let c = cell-write m (mod_of (pos (cell m) +ℤ pos n) 255) in
    (write m (mod_of (pos (cell m) +ℤ pos n) 255), refl, (λ e. omega arith, λ e. omega arith))

abbrev pub InRange : Option (ℕ × Machine) → Type 0
InRange none = Unit {0}
InRange (some (q, m)) = IsValid m

mod_of_255 : (v : ℤ) → mod_of v 255 < 256
unfolding mod_of
mod_of_255 (pos n) = omega arith
mod_of_255 (negsuc n) = omega arith

pub shifted_lt : (v : ℤ) (p : ℕ) → shifted v p < memory_size
unfolding mod_of
shifted_lt v p = at (pos p +ℤ v)
  where
    at : (v : ℤ) → mod_of v memory_size < memory_size
    at (pos n) = omega arith
    at (negsuc n) = omega arith

seek-InRange :
    (fuel p : ℕ) (v : ℤ) (m : Machine) → IsValid m → InRange (at_position p (seek fuel v m))
unfolding seek
seek-InRange zero p v m k = tt
seek-InRange (suc fuel) p v m k = elim (Bool-cases (cell m == 0)) [
  | inl e ↦ rw e k
  | inr e ↦ rw e (
      seek-InRange fuel p v (record m { ptr = shifted v m.ptr })
        (move-IsValid m (shifted v m.ptr) (shifted_lt v m.ptr) k))
]

-- Every instruction that returns leaves the pointer in the memory and the cells in range.
pub execute-InRange :
    (fuel : ℕ) (o : Opcode) (v w : ℤ) (p : ℕ) (m : Machine)
    → IsValid m
    → InRange (execute fuel o v w p m)
unfolding execute
execute-InRange fuel update_val v w p m k =
    write-IsValid m (mod_of (pos (cell m) +ℤ v) 255) (mod_of_255 (pos (cell m) +ℤ v)) k
execute-InRange fuel shift_ptr v w p m k = move-IsValid m (shifted v m.ptr) (shifted_lt v m.ptr) k
execute-InRange fuel output v w p m k = record { in_memory = k.in_memory; cells = k.cells }
execute-InRange fuel input v w p m k = get_char-IsValid m k
execute-InRange fuel lstart v w p m k = k
execute-InRange fuel lend v w p m k = k
execute-InRange fuel clear v w p m k = write-IsValid m 0 (omega arith) k
execute-InRange fuel shift_ptr_zero v w p m k = seek-InRange fuel p v m k
execute-InRange fuel update_by_curr v w p m k = record {
  in_memory = k.in_memory;
  cells = λ i.
      ground (arith, k.cells i, mod_of_255 (pos (m.memory (shifted v m.ptr)) +ℤ w *ℤ pos (cell m)));
}
