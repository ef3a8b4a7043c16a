-- ===== src/Sudoku/Unique.antt =====
-- What `solve` prints, and the loop of `generate`.
use mathlib.Core.Path.{fun_ext}
use cpp_experiments.Common.{
  ℕ, ◌≡◌, ◌≢◌, ◌↔◌, refl, ap, sym, ◌∙◌, false, List, [], ◌∷◌, arith, ltb, length, Bool-cases, inl,
  inr,
}
use cpp_experiments.Common.Fault.{ok}
use cpp_experiments.Sudoku.{
  Board, Cell, blank, place, Outcome, invalid, multiple, solved, outcome_of,
}
use cpp_experiments.Sudoku.Search.{State, backtrack, solve, remove_cells}
use cpp_experiments.Sudoku.Candidates.{IsWell, Among}
use cpp_experiments.Sudoku.Rules.{
  Filling, Solution, IsConsistent, place_self, place_other, same_cell,
}
use cpp_experiments.Sudoku.Given.{Filling-iff}
use cpp_experiments.Sudoku.Solutions.{Finds, Distinct}
use cpp_experiments.Sudoku.Complete.{from, backtrack-Promise}

-- What an outcome says of a board.
abbrev pub Tells : Board → Outcome → Type 0
Tells board invalid = (g : Board) → ¬ Solution board g
Tells board (solved g) = Solution board g × ((h : Board) → Solution board h → h ≡ g)
Tells board multiple = (g : Board) × (h : Board) × Solution board g × Solution board h × (g ≢ h)

Tells-outcome :
    (board : Board) (new : List Board)
    → ((g : Board) → Among g new ↔ Solution board g)
    → Distinct new
    → Tells board (outcome_of new)
Tells-outcome board [] iff once = λ g s. elim ((iff g).1 s) [ ]
Tells-outcome board (g ∷ []) iff once =
    ((iff g).0 (inl refl), λ h s. elim ((iff h).1 s) [ inl e ↦ e | inr n ↦ elim n [ ] ])
Tells-outcome board (g ∷ h ∷ more) iff once =
    (g, h, (iff g).0 (inl refl), (iff h).0 (inr (inl refl)), λ e. once.0 (inl e))

-- At most one way to fill a board.
abbrev pub AtMostOne : Board → Type 0
AtMostOne board = (g h : Board) → Filling board g → Filling board h → g ≡ h

few :
    (board : Board) (new : List Board)
    → ((g : Board) → Among g new ↔ Filling board g)
    → ltb 1 (length new) ≡ false
    → AtMostOne board
few board [] iff e g h s t = elim ((iff g).1 s) [ ]
few board (x ∷ []) iff e g h s t = elim ((iff g).1 s) [
  | inr n ↦ elim n [ ]
  | inl p ↦ elim ((iff h).1 t) [ inl q ↦ p ∙ sym q | inr n ↦ elim n [ ] ]
]
few board (x ∷ y ∷ new) iff e g h s t = absurd (ground arith)

blanked-IsWell : (row col : ℕ) (board : Board) → IsWell board → IsWell (place row col blank board)
blanked-IsWell row col board w i j = elim (same_cell row col i j) [
  | inl (e, f) ↦ rw (e, f) (inl (place_self row col blank board))
  | inr n ↦ rw (place_other row col blank board i j n) (w i j)
]

-- The digit that was removed, put back.
put_back :
    (row col : ℕ) (board : Board)
    → place row col (board row col) (place row col blank board) ≡ board
put_back row col board = fun_ext (λ i. fun_ext (λ j. back i j))
  where
    back : (i j : ℕ) → place row col (board row col) (place row col blank board) i j ≡ board i j
    back i j = elim (same_cell row col i j) [
      | inl (e, f) ↦ rw (e, f) (place_self row col (board row col) (place row col blank board))
      | inr n ↦
          place_other row col (board row col) (place row col blank board) i j n
          ∙ place_other row col blank board i j n
    ]

module _ {Gen : Type 0} (shuffle : (A : Type 0) → Gen → List A → List A × Gen) (gen : Gen) where
  all_found :
      (board : Board)
      → IsWell board
      → Finds gen board []
          (Filling board)
          (backtrack shuffle 91 false 0 0 (from shuffle gen board []))
  all_found board w =
      backtrack-Promise shuffle gen 91 0 0 (omega arith) (omega arith) (omega arith) board [] w
        (λ i j u v past. elim past [
          | inl lt ↦ absurd (omega arith)
          | inr (e, lt) ↦ absurd (omega arith)
        ])

  -- solve ends without an access outside an array, on any board whose cells are blank or hold a digit
  -- from 1 to 9 and whose given digits do not conflict in a row, a column or a grid. What it prints is
  -- right by the rules of sudoku: that there is no solution, the only solution, or that there are
  -- several. And it leaves the board as it was.
  pub solve-Tells :
      (board : Board)
      → IsWell board
      → IsConsistent board
      → (o : Outcome) × (t : State Gen) × (solve shuffle (from shuffle gen board []) ≡ ok (o, t))
        × (t.board ≡ board)
        × Tells board o
  unfolding solve
  solve-Tells board w consistent =
      let (result, new, e, iff, once) = all_found board w in
      let same = Filling-iff board w consistent in
      (
        outcome_of new,
        from shuffle gen board new,
        rw e refl,
        refl,
        Tells-outcome board new
            (λ g. ((λ m. (same g).0 ((iff g).0 m)), (λ s. (iff g).1 ((same g).1 s)))) once,
      )

  -- The loop of `generate` keeps a board of blanks and digits from 1 to 9 whose blanks can be filled
  -- in at most one way such a board, in whatever order the cells come, and ends without a fault.
  pub remove_cells-AtMostOne :
      (cells : List Cell) (board : Board) (sols : List Board)
      → IsWell board
      → AtMostOne board
      → (t : State Gen) × (remove_cells shuffle cells (from shuffle gen board sols) ≡ ok t)
        × IsWell t.board
        × AtMostOne t.board
  unfolding remove_cells
  remove_cells-AtMostOne [] board sols w one = (from shuffle gen board sols, refl, w, one)
  remove_cells-AtMostOne ((row, col) ∷ cells) board sols w one =
      let less = place row col blank board in
      let w' = blanked-IsWell row col board w in
      let (result, new, e, iff, once) = all_found less w' in
      rw e (elim (Bool-cases (ltb 1 (length new))) [
        | inl many ↦
            let (t, f, u, v) = remove_cells-AtMostOne cells board new w one in
            (
              t,
              rw many (
                  ap (λ b. remove_cells shuffle cells (from shuffle gen b new))
                    (put_back row col board)
                  ∙ f),
              u,
              v,
            )
        | inr one_left ↦
            let (t, f, u, v) =
              remove_cells-AtMostOne cells less new w' (few less new iff one_left) in
            (t, rw one_left f, u, v)
      ])
