-- ===== src/Sudoku/Search.antt =====
-- The search of puzzles/sudoku.cpp, `solve` and `generate`.
use cpp_experiments.Common.{
  ℕ, zero, suc, ◌+◌, Bool, true, false, ◌&&◌, not, List, [], ◌∷◌, ◌++◌, ltb, ◌==◌, if◌then◌else◌,
  length,
}
use mathlib.Core.List.{reverse}
use cpp_experiments.Common.Fault.{Run, ok, fault, undefined, ◌>>=◌}
use cpp_experiments.Sudoku.{
  Board, Cell, blank, place, get_candidates, all_cells, empty_board, Outcome, outcome_of,
}

-- The object: the canvas, the solutions found and the state of the random generator.
pub record State (Gen : Type 0) : Type 0 where
  pub board : Board
  pub solutions : List Board
  pub random_gen : Gen

module _ {Gen : Type 0} where
  -- The loop over the candidates of a cell, with the call for the next cell.
  unfoldable pub try_all :
      (State Gen → Run (Bool × State Gen))
      → Bool
      → ℕ
      → ℕ
      → List ℕ
      → State Gen
      → Run (Bool × State Gen)
  try_all go randomized row col [] s = ok (false, s)
  try_all go randomized row col (i ∷ is) s =
      go (record s { board = place row col (i + 1 + 48) s.board }) >>= λ (result, t).
      let more =
        try_all go randomized row col is (record t { board = place row col blank t.board }) in
      if result && randomized then ok (true, t) else more

module _ {Gen : Type 0} (shuffle : (A : Type 0) → Gen → List A → List A × Gen) where
  -- The candidates in the order in which they are tried.
  abbrev pub in_order : Bool → List ℕ → State Gen → List ℕ × State Gen
  in_order true candidates s =
      let (shuffled, gen) = shuffle ℕ s.random_gen candidates in
      (shuffled, record s { random_gen = gen })
  in_order false candidates s = (candidates, s)

  -- backtrack: every call goes one place further, and the places are at most 90, so that 91 levels
  -- of recursion are enough. To run out of them counts as undefined.
  unfoldable pub backtrack : ℕ → Bool → ℕ → ℕ → State Gen → Run (Bool × State Gen)
  unfolding get_candidates try_all
  backtrack zero randomized row col s = fault undefined
  backtrack (suc fuel) randomized row col s =
      let next_row = backtrack fuel randomized (suc row) 0 s in
      let next_cell = backtrack fuel randomized row (suc col) s in
      let fill = get_candidates s.board row col >>= λ candidates.
      let (ordered, t) = in_order randomized candidates s in
      try_all (backtrack fuel randomized row (suc col)) randomized row col ordered t in
      if row == 9
      then ok (true, record s { solutions = s.solutions ++ s.board ∷ [] })
      else if col == 9
      then next_row
      else if not (s.board row col == blank)
      then next_cell
      else fill

  unfoldable pub solve : State Gen → Run (Outcome × State Gen)
  unfolding backtrack
  solve s = do (found, t) ← backtrack 91 false 0 0 s; ok (outcome_of t.solutions, t)

  -- The loop of `generate` that removes the cells, of which the last comes first here.
  unfoldable pub remove_cells : List Cell → State Gen → Run (State Gen)
  unfolding backtrack
  remove_cells [] s = ok s
  remove_cells ((row, col) ∷ cells) s = do
    let ch = s.board row col
    (found, t) ←
        backtrack 91 false 0 0 (record s { board = place row col blank s.board; solutions = [] })
    remove_cells cells
        (if ltb 1 (length t.solutions) then record t { board = place row col ch t.board } else t)

  -- generate, on the object of the default constructor, up to the board that it prints.
  unfoldable pub generate : Gen → Run Board
  unfolding backtrack remove_cells
  generate gen = do
    (found, s) ←
        backtrack 91 true 0 0 (record { board = empty_board; solutions = []; random_gen = gen })
    let (shuffled, gen') = shuffle Cell s.random_gen all_cells
    t ← remove_cells (reverse shuffled) (record s { random_gen = gen' })
    ok t.board
