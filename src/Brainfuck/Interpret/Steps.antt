-- ===== src/Brainfuck/Interpret/Steps.antt =====
-- Single commands, and what skipping does with a bracket, in interpretCode.
use native.Mathlib.Numerals.{add-one}
use cpp_experiments.Common.{
  ℕ, zero, suc, ◌+◌, ◌-◌, ◌≡◌, ◌≢◌, sym, subst, [], ◌∷◌, arith, ◌==◌, if◌then◌else◌, drop,
}
use cpp_experiments.Common.Fault.{ok}
use cpp_experiments.Common.Bytes.{Bytes}
use cpp_experiments.Brainfuck.Machine.{
  Machine, IsValid, memory_size, cell, write-IsValid, get_char-IsValid, move-IsValid,
}
use cpp_experiments.Brainfuck.Interpret.{State, next, skip, simple, step}

pub simple-IsValid : (c : ℕ) (m : Machine) → IsValid m → IsValid (simple c m)
unfolding simple
simple-IsValid c m k = ground (
  arith,
  write-IsValid m (if cell m == 255 then 0 else cell m + 1) (ground (arith, k.cells m.ptr)) k,
  write-IsValid m (if cell m == 0 then 255 else cell m - 1) (ground (arith, k.cells m.ptr)) k,
  move-IsValid m (if m.ptr == memory_size - 1 then 0 else m.ptr + 1) (ground (arith, k.in_memory))
      k,
  move-IsValid m (if m.ptr == 0 then memory_size - 1 else m.ptr - 1) (ground (arith, k.in_memory))
      k,
  get_char-IsValid m k,
)

pub drop_next :
    (p : ℕ) (s : Bytes) {c : ℕ} {rest : Bytes} → drop p s ≡ c ∷ rest → drop (p + 1) s ≡ rest
drop_next zero [] e = ground arith
drop_next zero (x ∷ s) e = ground arith
drop_next (suc p) [] e = ground arith
drop_next (suc p) (x ∷ s) e = rw (add-one (suc p)) (rw (add-one p) at (drop_next p s e))

pub opening :
    (k p c : ℕ) (s : Bytes) → c ≡ b'[' → skip (suc k) p (c ∷ s) ≡ skip (suc (suc k)) (p + 1) s
unfolding skip
opening k p c s h =
    subst (λ c. skip (suc k) p (c ∷ s) ≡ skip (suc (suc k)) (p + 1) s) (sym h)
      (rw (add-one (suc k)) (ground arith))

pub closing :
    (k p c : ℕ) (s : Bytes) → c ≡ b']' → skip (suc (suc k)) p (c ∷ s) ≡ skip (suc k) (p + 1) s
unfolding skip
closing k p c s h = ground arith

pub closing_last : (p c : ℕ) (s : Bytes) → c ≡ b']' → skip 1 p (c ∷ s) ≡ ok (p + 1)
unfolding skip
closing_last p c s h = ground arith

pub step-simple :
    (s : State) (c : ℕ) (rest : Bytes)
    → c ≢ b'['
    → c ≢ b']'
    → step s c rest ≡ ok (next (record s { machine = simple c s.machine }))
unfolding step
step-simple s c rest o x = ground arith
