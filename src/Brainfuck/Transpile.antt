-- ===== src/Brainfuck/Transpile.antt =====
-- misc/brainfuck.cpp: `transpileByteCode`, and the C functions that the transpiled program starts
-- with (TRANSPILED_C_HEADERS), on the state of the machine.
pub mod Runtime
use cpp_experiments.Common.{
  ℕ, zero, suc, ◌+◌, ◌-◌, ◌%◌, ◌^◌, Bool, true, false, Option, none, some, List, [], ◌∷◌, ◌++◌,
  ◌==◌, ltb, if◌then◌else◌, replicate,
}
use cpp_experiments.Common.Int.{ℤ, pos, negsuc, ◌+ℤ◌, ◌-ℤ◌, ◌*ℤ◌, ltb_ℤ}
use cpp_experiments.Common.Fault.{Run, ok, fault, thrown, ◌>>=◌}
use cpp_experiments.Common.Bytes.{Bytes, codes}
use cpp_experiments.Common.Decimal.{print_ℤ}
use cpp_experiments.Brainfuck.Machine.{Machine, memory_size, cell, write, update, put_char}
use cpp_experiments.Brainfuck.Bytecode.{
  Opcode, Instruction, update_val, shift_ptr, output, input, lstart, lend, clear, shift_ptr_zero,
  update_by_curr, mod_of, to_pos,
}

-- The text of an instruction, without the tabs and the end of the line.
unfoldable pub c_text : Opcode → ℤ → ℤ → Bytes
c_text shift_ptr v w = codes "SHIFTPTR(" ++ print_ℤ v ++ codes ");"
c_text update_val v w = codes "UPDATEVAL(" ++ print_ℤ v ++ codes ");"
c_text clear v w = codes "CLEAR();"
c_text output v w = codes "OUTPUT();"
c_text input v w = codes "INPUT();"
c_text shift_ptr_zero v w = codes "SHIFTPTR_ZERO(" ++ print_ℤ v ++ codes ");"
c_text update_by_curr v w =
    codes "UPDATE_BY_CURR(" ++ print_ℤ v ++ codes "," ++ print_ℤ w ++ codes ");"
c_text lstart v w = codes "while (memory[ptr]) {"
c_text lend v w = codes "}"

-- nestingLevel, a std::size_t, after the instruction.
unfoldable pub nesting_after : Opcode → ℕ → ℕ
nesting_after lstart n = (n + 1) % 2 ^ 64
nesting_after lend n = (n + (2 ^ 64 - 1)) % 2 ^ 64
nesting_after _ n = n

-- std::string(nestingLevel, '\t')
unfoldable pub tabs : ℕ → Run Bytes
tabs n = if ltb n (2 ^ 63 - 1) then ok (replicate n 9) else fault thrown

-- The lines inside `main` of the C program.
unfoldable pub transpile : ℕ → List Instruction → Run Bytes
transpile n [] = ok []
transpile n (i ∷ is) = do
  indent ← tabs n
  rest ← transpile (nesting_after i.opcode n) is
  ok (indent ++ c_text i.opcode i.val1 i.val2 ++ 10 ∷ rest)

-- SHIFTPTR's new pointer: one memory's size is added or taken at most.
unfoldable pub c_shifted : ℤ → ℕ → ℕ
c_shifted by p =
    let q = pos p +ℤ by in
    to_pos (
      if ltb_ℤ q (pos memory_size)
      then if ltb_ℤ q (pos 0) then q +ℤ pos memory_size else q
      else q -ℤ pos memory_size)

-- A conversion to uint8_t.
abbrev pub to_byte : ℤ → ℕ
to_byte (pos n) = n % 256
to_byte (negsuc n) = 255 - n % 256

-- UPDATEVAL
unfoldable pub c_update : ℤ → Machine → Machine
c_update shift m =
    let val = pos (cell m) +ℤ shift in
    write m (
      to_byte (
        if ltb_ℤ (pos 255) val
        then val -ℤ pos 256
        else if ltb_ℤ val (pos 0)
        then val +ℤ pos 256
        else val))

-- INPUT, which leaves the cell alone at the end of the input.
unfoldable pub c_input : List ℕ → Machine → Machine
c_input [] m = m
c_input (b ∷ rest) m = record m { memory = update m.memory m.ptr (b % 256); input = rest }

-- SHIFTPTR_ZERO's loop on fuel.
unfoldable pub c_seek : ℕ → ℤ → Machine → Option Machine
c_seek zero by m = none
c_seek (suc fuel) by m =
    let further = c_seek fuel by (record m { ptr = c_shifted by m.ptr }) in
    if cell m == 0 then some m else further

-- UPDATE_BY_CURR
unfoldable pub c_update_by_curr : ℤ → ℤ → Machine → Machine
c_update_by_curr shift factor m =
    let to = c_shifted shift m.ptr in
    record m {
      memory = update m.memory to (mod_of (pos (m.memory to) +ℤ factor *ℤ pos (cell m)) 255);
    }

-- The C functions of the instructions that are no brackets.
unfoldable pub c_call : ℕ → Opcode → ℤ → ℤ → Machine → Option Machine
c_call fuel update_val v w m = some (c_update v m)
c_call fuel shift_ptr v w m = some (record m { ptr = c_shifted v m.ptr })
c_call fuel output v w m = some (put_char m)
c_call fuel input v w m = some (c_input m.input m)
c_call fuel clear v w m = some (write m 0)
c_call fuel shift_ptr_zero v w m = c_seek fuel v m
c_call fuel update_by_curr v w m = some (c_update_by_curr v w m)
c_call fuel lstart v w m = none
c_call fuel lend v w m = none
