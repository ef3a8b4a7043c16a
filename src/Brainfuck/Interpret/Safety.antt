-- ===== src/Brainfuck/Interpret/Safety.antt =====
-- On a text that the validator accepts the interpreter stays inside the text, its stack and its
-- memory.
use cpp_experiments.Common.{ℕ, suc, ◌≡◌, Option, none, some, List, [], ◌∷◌, length, drop}
use cpp_experiments.Common.Fault.{Run, ok, fault}
use cpp_experiments.Common.Bytes.{Bytes}
use cpp_experiments.Brainfuck.Machine.{Machine, IsValid}
use cpp_experiments.Brainfuck.Validate.{Closes}
use cpp_experiments.Brainfuck.Interpret.{State}

module _ (code : Bytes) where
  -- The text from `p` on opens a loop that is closed within it, `n` brackets being open outside.
  abbrev LoopAt : ℕ → ℕ → Type 0
  LoopAt n p = (rest : Bytes) × (drop p code ≡ b'[' ∷ rest) × Closes (suc n) rest

  abbrev Loops : List ℕ → Type 0
  Loops [] = Unit {0}
  Loops (p ∷ ps) = LoopAt (length ps) p × Loops ps

  pub record Inv (s : State) : Type 0 where
    pub closes : Closes (length s.loops) (drop s.curr code)
    pub loops : Loops s.loops
    pub machine : IsValid s.machine

  -- A run that may stop short, but not by a fault.
  abbrev Good : Run State → Type 0
  Good (ok s) = Inv s
  Good (fault e) = ⊥

  abbrev pub Safe : Run (Option Machine) → Type 0
  Safe (ok none) = Unit {0}
  Safe (ok (some m)) = IsValid m
  Safe (fault e) = ⊥
