-- ===== src/Brainfuck.antt =====
-- misc/brainfuck.cpp: the validator, the interpreter of the text, and the bytecode with its compiler.
pub mod Machine
pub mod Validate
pub mod Interpret
pub mod Bytecode
pub mod Compile
pub mod Transpile
pub mod Cli
pub mod Tests
