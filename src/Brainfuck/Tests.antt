-- ===== src/Brainfuck/Tests.antt =====
-- Runs of the Brainfuck tools on concrete programs.
use cpp_experiments.Common.{true, ◌+◌, ◌<◌, ◌≡◌, ◌↔◌, some, [], ◌∷◌, arith}
use cpp_experiments.Common.Int.{pos, negsuc}
use cpp_experiments.Common.Fault.{ok, fault, undefined}
use cpp_experiments.Common.Bytes.{Bytes, codes}
use cpp_experiments.Brainfuck.Machine.{Machine, IsValid, cell}
use cpp_experiments.Brainfuck.Validate.{validate, valid}
use cpp_experiments.Brainfuck.Validate.Grammar.{Program, validate-Program}
use cpp_experiments.Brainfuck.Interpret.{plus, right}
use cpp_experiments.Brainfuck.Bytecode.{at_position, update_val, shift_ptr, lstart, clear, execute}
use cpp_experiments.Brainfuck.Bytecode.Agreement.{
  times, InRange, shift_ptr-right, update_val-plus, execute-InRange,
}
use cpp_experiments.Brainfuck.Compile.{instruction, written, close_loop}
use cpp_experiments.Brainfuck.Transpile.{c_update, c_call}
use cpp_experiments.Brainfuck.Transpile.Runtime.{c_update-plus, c_call-execute}
use cpp_experiments.Brainfuck.Cli.{Files, choose}
use cpp_experiments.Brainfuck.Cli.Choice.{Fitting, choose-Fitting}
use cpp_experiments.Brainfuck.Compile.Written.{execute-written}
use cpp_experiments.Brainfuck.Compile.Loops.{close_loop-clear, close_loop-shift}

-- Every cell holds 254.
abbrev machine : Machine
machine = record { memory = λ _. 254; ptr = 29999; input = []; output = [] }

abbrev machine-IsValid : IsValid machine
machine-IsValid = record { in_memory = omega arith; cells = λ _. omega arith }

abbrev code : Bytes
code = codes "+[-].]["

abbrev loop : Bytes
loop = codes "+[->+<]."

validate-Program_example : (validate code ≡ valid) ↔ Program code
validate-Program_example = validate-Program code

shift_ptr-right_case :
    execute 1 shift_ptr (pos 3) (pos 0) 7 machine ≡ some (7, times 3 right machine)
shift_ptr-right_case = shift_ptr-right 1 3 7 (pos 0) machine (omega arith)

update_val-plus_example :
    (m' : Machine) × (execute 1 update_val (pos 1) (pos 0) 7 machine ≡ some (7, m'))
    × ((cell m' ≡ cell (times 1 plus machine)) ↔ (254 + 1 < 255))
update_val-plus_example = update_val-plus 1 1 7 (pos 0) machine (omega arith) (omega arith)

execute-InRange_case : InRange (execute 1 update_val (negsuc 4) (pos 0) 7 machine)
execute-InRange_case = execute-InRange 1 update_val (negsuc 4) (pos 0) 7 machine machine-IsValid

execute-written_example :
    execute 1
      (written (instruction shift_ptr (pos 30001) (pos 0))).opcode
      (written (instruction shift_ptr (pos 30001) (pos 0))).val1
      (written (instruction shift_ptr (pos 30001) (pos 0))).val2
      7
      machine
    ≡ execute 1 shift_ptr (pos 30001) (pos 0) 7 machine
execute-written_example = execute-written 1 (instruction shift_ptr (pos 30001) (pos 0)) 7 machine

close_loop-shift_case :
    close_loop
      (λ t. t)
      0
      (instruction lstart (negsuc 0) (pos 0) ∷ instruction shift_ptr (pos 1) (pos 0) ∷ [])
    ≡ fault undefined
close_loop-shift_case =
    close_loop-shift (λ t. t) [] (instruction lstart (negsuc 0) (pos 0)) (pos 1) (pos 0)

close_loop-clear_example :
    close_loop
      (λ t. t)
      0
      (instruction lstart (negsuc 0) (pos 0) ∷ instruction update_val (negsuc 0) (pos 0) ∷ [])
    ≡ ok (instruction clear (pos 1) (pos 0) ∷ [])
close_loop-clear_example =
    close_loop-clear (λ t. t) [] (instruction lstart (negsuc 0) (pos 0)) (negsuc 0) (pos 0)

c_update-plus_case : cell (c_update (pos 300) machine) ≡ cell (times 300 plus machine)
c_update-plus_case = c_update-plus 300 machine (omega arith)

c_call-execute_case :
    at_position 7 (c_call 1 shift_ptr (negsuc 4) (pos 0) machine)
    ≡ execute 1 shift_ptr (negsuc 4) (pos 0) 7 machine
c_call-execute_case =
    c_call-execute 1 shift_ptr (negsuc 4) (pos 0) 7 machine tt (omega arith) (omega arith)

abbrev files : Files
files = record { is_file = λ _. true; extension = λ _. codes ".bf" }

choose-Fitting_case : Fitting files (choose files (codes "brainfuck") (codes "a.bf" ∷ []))
choose-Fitting_case = choose-Fitting files (codes "brainfuck") (codes "a.bf" ∷ [])
