-- ===== src/Sudoku/Read.antt =====
-- `read` of puzzles/sudoku.cpp, on the characters of the file.
use cpp_experiments.Common.{
  ℕ, suc, Bool, ◌&&◌, ◌||◌, Option, none, some, [], ◌∷◌, ◌==◌, if◌then◌else◌,
}
use cpp_experiments.Common.Bytes.{Bytes}
use cpp_experiments.Common.Decimal.{is_digit}
use cpp_experiments.Sudoku.{Board, blank, place}

abbrev is_cell : ℕ → Bool
is_cell ch = is_digit ch || ch == blank

-- The loop, from a place and the grid so far.
unfoldable pub read_chars : ℕ → ℕ → Board → Bytes → ℕ × ℕ × Board
read_chars row col grid [] = (row, col, grid)
read_chars row col grid (ch ∷ s) =
    let next = if is_cell ch then suc col else col in
    let rest =
      read_chars (if next == 9 then suc row else row) (if next == 9 then 0 else next)
        (if is_cell ch then place row col ch grid else grid) s in
    if is_cell ch && row == 9 then (row, suc col, grid) else rest

-- `none` is the exit with an error. The array is not initialised: `garbage` is what it holds.
unfoldable pub read : Board → Bytes → Option Board
unfolding read_chars
read garbage s =
    let (row, col, grid) = read_chars 0 0 garbage s in
    if row == 9 && col == 0 then some grid else none
