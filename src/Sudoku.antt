-- ===== src/Sudoku.antt =====
-- puzzles/sudoku.cpp: the solver and the generator. The 9 by 9 array is a function of row and
-- column; the random generator and std::shuffle are parameters.
pub mod Search
pub mod Read
pub mod Candidates
pub mod Rules
pub mod Step
pub mod Given
pub mod Solutions
pub mod Complete
pub mod Unique
pub mod Tests
use cpp_experiments.Common.{
  ℕ, zero, suc, ◌+◌, ◌-◌, ◌*◌, ◌/◌, ◌%◌, ◌^◌, Bool, true, false, ◌&&◌, ◌||◌, not, List, [], ◌∷◌,
  ◌++◌, ltb, leb, ◌==◌, if◌then◌else◌, length, replicate, set,
}
use cpp_experiments.Common.Bytes.{Bytes}
use cpp_experiments.Common.Decimal.{is_digit}
use cpp_experiments.Common.Fault.{Run, ok, fault, undefined, ◌>>=◌}

abbrev pub Board : Type 0
Board = ℕ → ℕ → ℕ

-- '.'
abbrev pub blank : ℕ
blank = 46

-- board[row][col] = ch
abbrev pub place : ℕ → ℕ → ℕ → Board → Board
place row col ch board i j = if i == row && j == col then ch else board i j

abbrev pub Cell : Type 0
Cell = ℕ × ℕ

-- `count` numbers from `first`.
abbrev pub span : ℕ → ℕ → List ℕ
span zero first = []
span (suc count) first = first ∷ span count (suc first)

abbrev pub in_row : ℕ → List ℕ → List Cell
in_row row [] = []
in_row row (j ∷ js) = (row, j) ∷ in_row row js

abbrev pub in_col : ℕ → List ℕ → List Cell
in_col col [] = []
in_col col (i ∷ is) = (i, col) ∷ in_col col is

abbrev pub in_rows : List ℕ → List ℕ → List Cell
in_rows [] js = []
in_rows (i ∷ is) js = in_row i js ++ in_rows is js

-- The cells that the three loops of getCandidates look at.
abbrev pub seen_cells : ℕ → ℕ → List Cell
seen_cells row col =
    in_row row (span 9 0)
    ++ (in_col col (span 9 0) ++ in_rows (span 3 (row / 3 * 3)) (span 3 (col / 3 * 3)))

-- A loop over cells: candidates[(std::size_t)ch - '0' - 1] = false where the cell is not blank.
unfoldable pub mark : Board → List Cell → List Bool → Run (List Bool)
mark board [] marks = ok marks
mark board ((i, j) ∷ cells) marks =
    let index = (board i j + 2 ^ 64 - 49) % 2 ^ 64 in
    let rest = mark board cells marks in
    let marked = mark board cells (set marks index false) in
    if board i j == blank
    then rest
    else if ltb index (length marks)
    then marked
    else fault undefined

-- The places of the marks that are still true.
unfoldable pub indices : ℕ → List Bool → List ℕ
indices idx [] = []
indices idx (true ∷ marks) = idx ∷ indices (suc idx) marks
indices idx (false ∷ marks) = indices (suc idx) marks

unfoldable pub get_candidates : Board → ℕ → ℕ → Run (List ℕ)
unfolding mark indices
get_candidates board row col = do
  marks ← mark board (seen_cells row col) (replicate 9 true)
  ok (indices 0 marks)

-- createEmptyBoard
abbrev pub empty_board : Board
empty_board i j = blank

-- cells
abbrev pub all_cells : List Cell
all_cells = in_rows (span 9 0) (span 9 0)

-- What `solve` prints.
pub data Outcome : Type 0 where
  invalid multiple : Outcome
  solved : Board → Outcome

abbrev pub outcome_of : List Board → Outcome
outcome_of [] = invalid
outcome_of (board ∷ []) = solved board
outcome_of (board ∷ other ∷ more) = multiple
