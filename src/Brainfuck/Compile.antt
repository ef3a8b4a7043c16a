-- ===== src/Brainfuck/Compile.antt =====
-- misc/brainfuck.cpp: `compileFile` from the text to the instructions that it writes.
pub mod Written
pub mod Loops
use cpp_experiments.Common.{
  ℕ, zero, suc, ◌+◌, ◌-◌, ◌%◌, Bool, true, false, ◌&&◌, ◌||◌, not, Option, none, some, List, [],
  ◌∷◌, ◌++◌, map, ◌==◌, if◌then◌else◌, length, get_elem?, drop, take,
}
use cpp_experiments.Common.Int.{ℤ, pos, negsuc, ◌+ℤ◌}
use cpp_experiments.Common.Fault.{Run, ok, fault, undefined, ◌>>=◌, or_fault}
use cpp_experiments.Common.Bytes.{Bytes}
use cpp_experiments.Brainfuck.Machine.{memory_size}
use cpp_experiments.Brainfuck.Bytecode.{
  Opcode, Instruction, update_val, shift_ptr, output, input, lstart, lend, clear, shift_ptr_zero,
  update_by_curr,
}

abbrev pub instruction : Opcode → ℤ → ℤ → Instruction
instruction o v w = record { opcode = o; val1 = v; val2 = w }

-- The comparisons of opcodes that the code makes.
abbrev pub is_update : Opcode → Bool
is_update update_val = true
is_update _ = false

abbrev pub is_shift : Opcode → Bool
is_shift shift_ptr = true
is_shift _ = false

abbrev pub eq_ℤ : ℤ → ℤ → Bool
eq_ℤ (pos a) (pos b) = a == b
eq_ℤ (negsuc a) (negsuc b) = a == b
eq_ℤ a b = false

-- std::unordered_map<long, long>, and `m[k] += v`.
unfoldable pub add_at : ℤ → ℤ → List (ℤ × ℤ) → List (ℤ × ℤ)
add_at k v [] = (k, v) ∷ []
add_at k v ((j, w) ∷ t) = if eq_ℤ j k then (j, w +ℤ v) ∷ t else (j, w) ∷ add_at k v t

-- m[k], which is zero on a new key.
unfoldable pub value_at : ℤ → List (ℤ × ℤ) → ℤ
value_at k [] = pos 0
value_at k ((j, w) ∷ t) = if eq_ℤ j k then w else value_at k t

-- validateSimpleDistributionLoop on the instructions inside the loop: the sums by position, or
-- none where the loop is not of the kind.
unfoldable pub distribution : ℤ → List (ℤ × ℤ) → List Instruction → Option (List (ℤ × ℤ))
distribution shift sums [] =
    if eq_ℤ shift (pos 0) && eq_ℤ (value_at (pos 0) sums) (negsuc 0) then some sums else none
distribution shift sums (i ∷ is) =
    let moved = distribution (shift +ℤ i.val1) sums is in
    let added = distribution shift (add_at shift i.val1 sums) is in
    if is_shift i.opcode then moved else if is_update i.opcode then added else none

abbrev cons_option : Instruction → Option (List Instruction) → Option (List Instruction)
cons_option i none = none
cons_option i (some is) = some (i ∷ is)

-- instructions.back() and the change of its first value.
unfoldable pub add_to_last : (Opcode → Bool) → ℤ → List Instruction → Option (List Instruction)
add_to_last same v [] = none
add_to_last same v (i ∷ []) =
    if same i.opcode then some (record i { val1 = i.val1 +ℤ v } ∷ []) else none
add_to_last same v (i ∷ j ∷ is) = cons_option i (add_to_last same v (j ∷ is))

abbrev pub or_append : Option (List Instruction) → List Instruction → Instruction → List Instruction
or_append none is i = is ++ i ∷ []
or_append (some js) is i = js

-- A character of a run: folded into the last instruction where that is of the same kind.
unfoldable pub fold : Opcode → (Opcode → Bool) → ℤ → List Instruction → List Instruction
fold o same v is = or_append (add_to_last same v is) is (instruction o v (pos 0))

unfoldable pub set_val1 : List Instruction → ℕ → ℤ → List Instruction
set_val1 [] n v = []
set_val1 (i ∷ is) zero v = record i { val1 = v } ∷ is
set_val1 (i ∷ is) (suc n) v = i ∷ set_val1 is n v

-- The instructions for the sums, in the order in which the standard library visits them.
unfoldable pub spread : List (ℤ × ℤ) → List Instruction
spread [] = []
spread ((shift, factor) ∷ t) =
    if eq_ℤ factor (pos 0) || eq_ℤ shift (pos 0)
    then spread t
    else instruction update_by_curr shift factor ∷ spread t

abbrev clear_instruction : Instruction
clear_instruction = instruction clear (pos 1) (pos 0)

abbrev pub distributed :
    List Instruction
    → List Instruction
    → Option (List (ℤ × ℤ))
    → (List (ℤ × ℤ) → List (ℤ × ℤ))
    → List Instruction
distributed kept whole none visit = whole
distributed kept whole (some sums) visit = kept ++ spread (visit sums) ++ clear_instruction ∷ []

-- instructions[n], which is undefined behind the end.
abbrev pub fetch : List Instruction → ℕ → Run Instruction
fetch is n = or_fault (get_elem? is n) undefined

-- The end of a loop of one instruction: three instructions are popped and one is pushed, of which
-- the second kind reads the popped one.
unfoldable pub close_single :
    ℕ → List Instruction → Opcode → Run (List Instruction) → Run (List Instruction)
close_single start whole update_val other = ok (take start whole ++ clear_instruction ∷ [])
close_single start whole shift_ptr other = fetch (take start whole) (start + 1) >>= λ i.
    ok (take start whole ++ instruction shift_ptr_zero i.val1 (pos 0) ∷ [])
close_single start whole _ other = other

-- A loop that only distributes its cell, or the loop as it is.
unfoldable pub close_other :
    (List (ℤ × ℤ) → List (ℤ × ℤ)) → ℕ → List Instruction → List Instruction → Run (List Instruction)
close_other visit start whole inside =
    ok (distributed (take start whole) whole (distribution (pos 0) [] inside) visit)

-- The three kinds of loop; `inside` is what stands between the brackets, and the last argument
-- whether that is one instruction.
unfoldable pub close_whole :
    (List (ℤ × ℤ) → List (ℤ × ℤ))
    → ℕ
    → List Instruction
    → List Instruction
    → Bool
    → Run (List Instruction)
close_whole visit start whole inside false = close_other visit start whole inside
close_whole visit start whole inside true = fetch whole (start + 1) >>= λ i.
    close_single start whole i.opcode (close_other visit start whole inside)

-- The character `]` with the start of its loop.
unfoldable pub close_loop :
    (List (ℤ × ℤ) → List (ℤ × ℤ)) → ℕ → List Instruction → Run (List Instruction)
close_loop visit start is =
    let linked = set_val1 is start (pos (length is)) in
    close_whole visit start (linked ++ instruction lend (pos start) (pos 0) ∷ [])
      (drop (start + 1) linked) (length is - start == 2)

pub record Compiler : Type 0 where
  pub stack : List ℕ
  pub instructions : List Instruction

abbrev pub emit : Compiler → List Instruction → Run Compiler
emit s is = ok (record s { instructions = is })

-- stk.top() of an empty stack is undefined.
unfoldable pub close : (List (ℤ × ℤ) → List (ℤ × ℤ)) → List ℕ → List Instruction → Run Compiler
close visit [] is = fault undefined
close visit (start ∷ stack) is =
    close_loop visit start is >>= λ js. ok (record { stack = stack; instructions = js })

unfoldable pub compile_char : (List (ℤ × ℤ) → List (ℤ × ℤ)) → ℕ → Compiler → Run Compiler
compile_char visit c s =
    if c == b'+'
    then emit s (fold update_val is_update (pos 1) s.instructions)
    else if c == b'-'
    then emit s (fold update_val is_update (negsuc 0) s.instructions)
    else if c == b'>'
    then emit s (fold shift_ptr is_shift (pos 1) s.instructions)
    else if c == b'<'
    then emit s (fold shift_ptr is_shift (negsuc 0) s.instructions)
    else if c == b'.'
    then emit s (s.instructions ++ instruction output (pos 1) (pos 0) ∷ [])
    else if c == b','
    then emit s (s.instructions ++ instruction input (pos 1) (pos 0) ∷ [])
    else if c == b'['
    then ok (record {
      stack = length s.instructions ∷ s.stack;
      instructions = s.instructions ++ instruction lstart (negsuc 0) (pos 0) ∷ [];
    })
    else if c == b']'
    then close visit s.stack s.instructions
    else ok s

unfoldable pub compile_from : (List (ℤ × ℤ) → List (ℤ × ℤ)) → Bytes → Compiler → Run Compiler
compile_from visit [] s = ok s
compile_from visit (c ∷ code) s = compile_char visit c s >>= compile_from visit code

-- -n
abbrev pub neg_of : ℕ → ℤ
neg_of zero = pos 0
neg_of (suc n) = negsuc n

-- The remainder of C++, which has the sign of the number.
unfoldable pub rem_of : ℤ → ℕ → ℤ
rem_of (pos n) k = pos (n % k)
rem_of (negsuc n) k = neg_of (suc n % k)

abbrev pub reduced : Opcode → ℤ → ℤ
reduced shift_ptr v = rem_of v memory_size
reduced shift_ptr_zero v = rem_of v memory_size
reduced update_by_curr v = rem_of v memory_size
reduced update_val v = rem_of v 255
reduced _ v = v

-- The instruction as it is written: the shift below the memory's size, the sum below 255.
unfoldable pub written : Instruction → Instruction
written i = record i { val1 = reduced i.opcode i.val1 }

-- compileFile, on a text that the validator accepts.
unfoldable pub compile : (List (ℤ × ℤ) → List (ℤ × ℤ)) → Bytes → Run (List Instruction)
compile visit code = compile_from visit code (record { stack = []; instructions = [] }) >>= λ s.
    ok (map written s.instructions)
