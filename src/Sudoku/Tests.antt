-- ===== src/Sudoku/Tests.antt =====
-- Boards of puzzles/sudoku.cpp.
use cpp_experiments.Common.{
  ℕ, ◌+◌, ◌*◌, ◌/◌, ◌%◌, ◌≡◌, ◌≢◌, ◌⊎◌, ◌<◌, ◌≤◌, refl, sym, ◌∙◌, List, [], ◌∷◌, arith, inl, inr,
  none,
}
use cpp_experiments.Common.Bytes.{codes}
use cpp_experiments.Common.Fault.{ok, fault, undefined}
use cpp_experiments.Sudoku.{Board, Cell, Outcome, solved, blank, place, get_candidates}
use cpp_experiments.Sudoku.Search.{State, backtrack, solve, remove_cells}
use cpp_experiments.Sudoku.Read.{read}
use cpp_experiments.Sudoku.Candidates.{IsWell}
use cpp_experiments.Sudoku.Rules.{Sees, IsConsistent}
use cpp_experiments.Sudoku.Step.{Filling-full}
use cpp_experiments.Sudoku.Complete.{from}
use cpp_experiments.Sudoku.Unique.{Tells, AtMostOne, solve-Tells, remove_cells-AtMostOne}

-- A shuffle that changes nothing.
abbrev keep : (A : Type 0) → ℕ → List A → List A × ℕ
keep A gen xs = (xs, gen)

abbrev grid : Board
grid i j = (i * 3 + i / 3 + j) % 9 + 49

abbrev puzzle : Board
puzzle = place 4 4 blank (place 0 0 blank grid)

grid-IsWell : IsWell grid
grid-IsWell i j = inr (omega arith)

puzzle-IsWell : IsWell puzzle
puzzle-IsWell i j = ground (arith, filled i j)
  where
    filled : (i j : ℕ) → (49 ≤ grid i j) × (grid i j ≤ 57)
    filled i j = omega arith

in_a_row : (k j c : ℕ) → j < 9 → c < 9 → j ≢ c → (k + j) % 9 ≢ (k + c) % 9
in_a_row k j c h g n e = omega arith

in_a_column :
    (i r j : ℕ) → i < 9 → r < 9 → i ≢ r → (i * 3 + i / 3 + j) % 9 ≢ (r * 3 + r / 3 + j) % 9
in_a_column i r j h g n e = omega arith

in_a_grid :
    (i r j c : ℕ)
    → i / 3 ≡ r / 3
    → j / 3 ≡ c / 3
    → (i ≢ r) ⊎ (j ≢ c)
    → (i * 3 + i / 3 + j) % 9 ≢ (r * 3 + r / 3 + c) % 9
in_a_grid i r j c h g (inl n) e = omega arith
in_a_grid i r j c h g (inr n) e = omega arith

other_column : (i r j c : ℕ) → i ≡ r → (i ≢ r) ⊎ (j ≢ c) → j ≢ c
other_column i r j c e (inl n) f = n e
other_column i r j c e (inr n) f = n f

other_row : (i r j c : ℕ) → j ≡ c → (i ≢ r) ⊎ (j ≢ c) → i ≢ r
other_row i r j c e (inl n) f = n f
other_row i r j c e (inr n) f = n e

grid_differs :
    (r c i j : ℕ) → r < 9 → c < 9 → Sees r c i j → (i ≢ r) ⊎ (j ≢ c) → grid i j ≢ grid r c
grid_differs r c i j h k (a, b, inl f) n e =
    in_a_row (r * 3 + r / 3) j c b k (other_column i r j c f n) (omega (arith, e, f))
grid_differs r c i j h k (a, b, inr (inl f)) n e =
    in_a_column i r c a h (other_row i r j c f n) (omega (arith, e, f))
grid_differs r c i j h k (a, b, inr (inr (f, g))) n e = in_a_grid i r j c f g n (omega (arith, e))

puzzle-IsConsistent : IsConsistent puzzle
puzzle-IsConsistent r c i j h k b d s n e =
    grid_differs r c i j h k s n (sym (given i j d) ∙ e ∙ given r c b)
  where
    given : (x y : ℕ) → puzzle x y ≢ blank → puzzle x y ≡ grid x y
    given x y d = ground arith

solve-Tells_example :
    (o : Outcome) × (t : State ℕ) × (solve keep (from keep 0 puzzle []) ≡ ok (o, t))
    × (t.board ≡ puzzle)
    × Tells puzzle o
solve-Tells_example = solve-Tells keep 0 puzzle puzzle-IsWell puzzle-IsConsistent

only_grid : AtMostOne grid
only_grid g h s t =
    let full : (i j : ℕ) → i < 9 → j < 9 → grid i j ≢ blank = λ i j a b e. omega arith in
    (Filling-full grid g full).0 s ∙ sym ((Filling-full grid h full).0 t)

abbrev two_cells : List Cell
two_cells = (4, 4) ∷ (0, 0) ∷ []

remove_cells-AtMostOne_example :
    (t : State ℕ) × (remove_cells keep two_cells (from keep 0 grid []) ≡ ok t)
    × IsWell t.board
    × AtMostOne t.board
remove_cells-AtMostOne_example =
    remove_cells-AtMostOne keep 0 two_cells grid [] grid-IsWell only_grid

one_candidate : get_candidates puzzle 0 0 ≡ ok (0 ∷ [])
unfolding get_candidates
one_candidate = refl

-- `read` takes the character '0', which getCandidates uses as an index before the array.
zero_in_row : get_candidates (place 0 1 48 puzzle) 0 0 ≡ fault undefined
unfolding get_candidates
zero_in_row = refl

too_short : read grid (codes "123") ≡ none
unfolding read
too_short = refl

-- A board full of ones is printed as its solution: the digits that are given are not compared.
abbrev ones : Board
ones i j = 49

conflict_solved : solve keep (from keep 0 ones []) ≡ ok (solved ones, from keep 0 ones (ones ∷ []))
unfolding solve backtrack
conflict_solved = refl
