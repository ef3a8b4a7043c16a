-- ===== src/Brainfuck/Interpret.antt =====
-- misc/brainfuck.cpp: `interpretCode`, without the profile that it may log.
pub mod Safety
pub mod Steps
use cpp_experiments.Common.{
  ℕ, zero, suc, ◌+◌, ◌-◌, Bool, true, false, Option, none, some, List, [], ◌∷◌, ◌==◌, if◌then◌else◌,
  drop,
}
use cpp_experiments.Common.Fault.{Run, ok, fault, undefined, thrown, ◌>>=◌}
use cpp_experiments.Common.Bytes.{Bytes}
use cpp_experiments.Brainfuck.Machine.{Machine, memory_size, cell, write, put_char, get_char}

-- The position in the text, the positions of the loops that are entered, and the machine.
pub record State : Type 0 where
  pub curr : ℕ
  pub loops : List ℕ
  pub machine : Machine

-- The search for the bracket that closes `opens` brackets: the text behind the position `curr`.
-- code.at throws behind the end.
unfoldable pub skip : ℕ → ℕ → Bytes → Run ℕ
skip opens curr [] = fault thrown
skip opens curr (c ∷ s) =
    let left = if c == b']' then opens - 1 else if c == b'[' then opens + 1 else opens in
    let further = skip left (curr + 1) s in if left == 0 then ok (curr + 1) else further

abbrev pub plus : Machine → Machine
plus m = write m (if cell m == 255 then 0 else cell m + 1)

abbrev pub minus : Machine → Machine
minus m = write m (if cell m == 0 then 255 else cell m - 1)

abbrev pub right : Machine → Machine
right m = record m { ptr = if m.ptr == memory_size - 1 then 0 else m.ptr + 1 }

abbrev pub left : Machine → Machine
left m = record m { ptr = if m.ptr == 0 then memory_size - 1 else m.ptr - 1 }

-- The commands that are no brackets; any other character does nothing.
unfoldable pub simple : ℕ → Machine → Machine
simple c m =
    if c == b'+'
    then plus m
    else if c == b'-'
    then minus m
    else if c == b'>'
    then right m
    else if c == b'<'
    then left m
    else if c == b'.'
    then put_char m
    else if c == b','
    then get_char m
    else m

abbrev pub next : State → State
next s = record s { curr = s.curr + 1 }

unfoldable pub enter_loop : State → Bytes → Run State
enter_loop s rest =
    if cell s.machine == 0
    then (do q ← skip 1 s.curr rest; ok (next (record s { curr = q })))
    else ok (next (record s { loops = s.curr ∷ s.loops }))

-- The top of an empty stack is undefined.
unfoldable pub end_loop : State → List ℕ → Run State
end_loop s [] = fault undefined
end_loop s (p ∷ loops) =
    if cell s.machine == 0
    then ok (next (record s { loops = loops }))
    else ok (next (record s { curr = p }))

-- One round of the loop, where the text from the position on is not empty.
unfoldable pub step : State → ℕ → Bytes → Run State
step s c rest =
    if c == b'['
    then enter_loop s rest
    else if c == b']'
    then end_loop s s.loops
    else ok (next (record s { machine = simple c s.machine }))

-- One round of the loop, and `go` for the rounds that follow; the loop ends behind the text.
unfoldable pub round : Bytes → State → (State → Run (Option Machine)) → Run (Option Machine)
round [] s go = ok (some s.machine)
round (c ∷ rest) s go = step s c rest >>= go

-- The loop on fuel: `none` where the fuel runs out, as it must for a program that does not stop.
unfoldable pub interpret : ℕ → Bytes → State → Run (Option Machine)
interpret zero code s = ok none
interpret (suc fuel) code s = round (drop s.curr code) s (interpret fuel code)
