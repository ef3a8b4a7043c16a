-- ===== src/Brainfuck/Compile/Loops.antt =====
-- The loops that the compiler replaces.
use cpp_experiments.Common.{
  ◌+◌, ◌-◌, ◌≡◌, refl, ap, ◌∙◌, Bool, true, false, none, some, List, [], ◌∷◌, ◌++◌, arith, ◌==◌,
  length, get_elem?, take, drop, length-append,
}
use native.Mathlib.Nat.{suc-add}
use cpp_experiments.Common.Int.{ℤ, pos}
use cpp_experiments.Common.Fault.{ok, fault, undefined}
use cpp_experiments.Brainfuck.Bytecode.{Instruction, update_val, shift_ptr, lend, clear}
use cpp_experiments.Brainfuck.Compile.{
  instruction, set_val1, close_single, close_other, close_whole, close_loop,
}

set_val1-append :
    (is : List Instruction) (i j e : Instruction) (v : ℤ)
    → set_val1 (is ++ i ∷ j ∷ []) (length is) v ++ e ∷ [] ≡ is ++ record i { val1 = v } ∷ j ∷ e ∷ []
unfolding set_val1
set_val1-append [] i j e v = refl
set_val1-append (k ∷ is) i j e v = ap (λ t. k ∷ t) (set_val1-append is i j e v)

take-length : (is js : List Instruction) → take (length is) (is ++ js) ≡ is
take-length [] js = refl
take-length (i ∷ is) js = ap (λ t. i ∷ t) (take-length is js)

fetch-append :
    (is : List Instruction) (i j e : Instruction)
    → get_elem? (is ++ i ∷ j ∷ e ∷ []) (length is + 1) ≡ some j
fetch-append [] i j e = refl
fetch-append (k ∷ is) i j e = rw (suc-add (length is) 1) (fetch-append is i j e)

fetch_behind : (is : List Instruction) → get_elem? is (length is + 1) ≡ none
fetch_behind [] = refl
fetch_behind (k ∷ is) = rw (suc-add (length is) 1) (fetch_behind is)

two_inside :
    (is : List Instruction) (i j : Instruction)
    → (length (is ++ i ∷ j ∷ []) - length is == 2) ≡ true
two_inside is i j = ground (arith, length-append is (i ∷ j ∷ []))

-- The end of a loop that holds one instruction `j`, behind the instructions `is`.
module _ (visit : List (ℤ × ℤ) → List (ℤ × ℤ)) (is : List Instruction) (i : Instruction) where
  single :
      (j e : Instruction) (q : ℤ) (inside : List Instruction) (one : Bool)
      → one ≡ true
      → close_whole visit
          (length is)
          (set_val1 (is ++ i ∷ j ∷ []) (length is) q ++ e ∷ [])
          inside
          one
        ≡ close_single
            (length is)
            (is ++ record i { val1 = q } ∷ j ∷ e ∷ [])
            j.opcode
            (close_other visit (length is) (is ++ record i { val1 = q } ∷ j ∷ e ∷ []) inside)
  unfolding close_whole
  single j e q inside true h =
      rw (set_val1-append is i j e q, fetch-append is (record i { val1 = q }) j e) refl
  single j e q inside false h = absurd (cc h)

  -- A loop whose one instruction is UPDATEVAL becomes one CLEAR, behind the instructions before it.
  pub close_loop-clear :
      (x y : ℤ)
      → close_loop visit (length is) (is ++ i ∷ instruction update_val x y ∷ [])
        ≡ ok (is ++ instruction clear (pos 1) (pos 0) ∷ [])
  unfolding close_loop close_single
  close_loop-clear x y =
      let j = instruction update_val x y in
      let stop = pos (length (is ++ i ∷ j ∷ [])) in
      let e = instruction lend (pos (length is)) (pos 0) in
      let inside = drop (length is + 1) (set_val1 (is ++ i ∷ j ∷ []) (length is) stop) in
      single j e stop inside (length (is ++ i ∷ j ∷ []) - length is == 2) (two_inside is i j)
      ∙ rw (take-length is (record i { val1 = stop } ∷ j ∷ e ∷ [])) refl

  -- A loop whose one instruction is SHIFTPTR is undefined: the value of the new instruction is
  -- read from behind the end of the vector, where the popped instruction stood.
  pub close_loop-shift :
      (x y : ℤ)
      → close_loop visit (length is) (is ++ i ∷ instruction shift_ptr x y ∷ []) ≡ fault undefined
  unfolding close_loop close_single
  close_loop-shift x y =
      let j = instruction shift_ptr x y in
      let stop = pos (length (is ++ i ∷ j ∷ [])) in
      let e = instruction lend (pos (length is)) (pos 0) in
      let inside = drop (length is + 1) (set_val1 (is ++ i ∷ j ∷ []) (length is) stop) in
      single j e stop inside (length (is ++ i ∷ j ∷ []) - length is == 2) (two_inside is i j)
      ∙ rw (take-length is (record i { val1 = stop } ∷ j ∷ e ∷ []), fetch_behind is) refl
