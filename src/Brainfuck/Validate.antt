-- ===== src/Brainfuck/Validate.antt =====
-- misc/brainfuck.cpp: `validateCode`, with the place of the error that it prints.
pub mod Grammar
use cpp_experiments.Common.{
  ℕ, zero, suc, ◌+◌, ◌≡◌, ◌≢◌, ◌↔◌, refl, Bool, true, false, List, [], ◌∷◌, arith, ◌==◌, ==_iff,
  if◌then◌else◌, length, Bool-cases, inl, inr,
}
use cpp_experiments.Common.Bytes.{Bytes}

pub data Verdict : Type 0 where
  valid : Verdict
  unexpected : ℕ → ℕ → Verdict
  unclosed : ℕ → ℕ → Verdict

abbrev at_end : List (ℕ × ℕ) → Verdict
at_end [] = valid
at_end ((line, char) ∷ _) = unclosed line char

-- loopStk.pop(), or the error where the stack is empty.
abbrev pub popped : ℕ → ℕ → List (ℕ × ℕ) → (List (ℕ × ℕ) → Verdict) → Verdict
popped line char [] next = unexpected line char
popped line char (_ ∷ stack) next = next stack

-- The loop, at position `i` of line `line` with the stack of the open brackets.
unfoldable pub validate_from : ℕ → ℕ → List (ℕ × ℕ) → Bytes → Verdict
validate_from line i stack [] = at_end stack
validate_from line i stack (c ∷ s) =
    let next = validate_from (if c == 10 then line + 1 else line) (i + 1) stack s in
    let opened = validate_from line (i + 1) ((line, i + 1) ∷ stack) s in
    let closed = popped line (i + 1) stack (λ rest. validate_from line (i + 1) rest s) in
    if c == b'[' then opened else if c == b']' then closed else next

unfoldable pub validate : Bytes → Verdict
validate code = validate_from 1 0 [] code

-- The text closes `n` brackets that are open before it, and every bracket that it opens.
pub data Closes : ℕ → Bytes → Type 0 where
  end : Closes 0 []
  open_bracket : {n c : ℕ} {s : Bytes} → c ≡ b'[' → Closes (suc n) s → Closes n (c ∷ s)
  close_bracket : {n c : ℕ} {s : Bytes} → c ≡ b']' → Closes n s → Closes (suc n) (c ∷ s)
  other : {n c : ℕ} {s : Bytes} → c ≢ b'[' → c ≢ b']' → Closes n s → Closes n (c ∷ s)
