-- ===== src/Sudoku/Given.antt =====
-- On a board whose given digits do not conflict, the ways to fill its blanks are its solutions.
use cpp_experiments.Common.{ℕ, ◌≤◌, ◌<◌, ◌≢◌, ◌⊎◌, ◌↔◌, sym, ◌∙◌, inl, inr}
use cpp_experiments.Sudoku.{Board, blank}
use cpp_experiments.Sudoku.Candidates.{IsWell}
use cpp_experiments.Sudoku.Rules.{Sees, Sees-sym, Solution, Filling, IsConsistent}
use cpp_experiments.Sudoku.Step.{blank_or}

swapped : (i j row col : ℕ) → (i ≢ row) ⊎ (j ≢ col) → (row ≢ i) ⊎ (col ≢ j)
swapped i j row col (inl n) = inl (λ e. n (sym e))
swapped i j row col (inr n) = inr (λ e. n (sym e))

-- A solution fills the blanks, whatever is given.
pub Solution-Filling : (board g : Board) → Solution board g → Filling board g
Solution-Filling board g s = record {
  extends = s.extends;
  outside = s.outside;
  digit = λ i j h k b. s.digit i j h k;
  differs = λ r c i j h k b. s.differs r c i j h k;
}

module _ (board : Board) (well : IsWell board) (consistent : IsConsistent board) (g : Board)
    (f : Filling board g) where
  given_digit : (i j : ℕ) → board i j ≢ blank → (49 ≤ g i j) × (g i j ≤ 57)
  given_digit i j b = elim (well i j) [
    | inl e ↦ absurd (b e)
    | inr range ↦ rw (f.extends i j b) range
  ]

  all_differ : (r c i j : ℕ) → r < 9 → c < 9 → Sees r c i j → (i ≢ r) ⊎ (j ≢ c) → g i j ≢ g r c
  all_differ r c i j h k sees n = elim (blank_or (board r c)) [
    | inl b ↦ f.differs r c i j h k b sees n
    | inr b ↦ elim (blank_or (board i j)) [
      | inl d ↦ λ e.
          f.differs i j r c sees.0 sees.1 d (Sees-sym r c i j h k sees) (swapped i j r c n) (sym e)
      | inr d ↦ λ e. consistent r c i j h k b d sees n (sym (f.extends i j d) ∙ e ∙ f.extends r c b)
    ]
  ]

  Filling-Solution : Solution board g
  Filling-Solution = record {
    extends = f.extends;
    outside = f.outside;
    digit = λ i j h k. elim (blank_or (board i j)) [
      | inl b ↦ f.digit i j h k b
      | inr b ↦ given_digit i j b
    ];
    differs = all_differ;
  }

pub Filling-iff :
    (board : Board)
    → IsWell board
    → IsConsistent board
    → (g : Board) → Filling board g ↔ Solution board g
Filling-iff board well consistent g =
    ((λ f. Filling-Solution board well consistent g f), (λ s. Solution-Filling board g s))
