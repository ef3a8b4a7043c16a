-- ===== src/Sudoku/Rules.antt =====
-- The rules: what a solution of a board is, how its blanks can be filled, and which cells a
-- candidate is compared with.
use cpp_experiments.Common.{
  ℕ, zero, suc, ◌+◌, ◌*◌, ◌/◌, ◌≤◌, ◌<◌, ◌≡◌, ◌≢◌, ◌⊎◌, ◌↔◌, refl, ap, sym, ◌∙◌, List, [], ◌∷◌,
  ◌++◌, arith, ◌==◌, Bool-cases, inl, inr,
}
use cpp_experiments.Sudoku.{Board, Cell, blank, place, span, in_row, in_col, in_rows, seen_cells}
use cpp_experiments.Sudoku.Candidates.{Free, Among}

-- Two cells in one row, one column or one grid of three by three.
abbrev pub Sees : ℕ → ℕ → ℕ → ℕ → Type 0
Sees row col i j =
    (i < 9) × (j < 9) × ((i ≡ row) ⊎ ((j ≡ col) ⊎ ((i / 3 ≡ row / 3) × (j / 3 ≡ col / 3))))

-- What sudoku asks for: the digits that are given, a digit in every cell, and no digit twice among
-- the cells that see each other.
pub record Solution (board g : Board) : Type 0 where
  pub extends : (i j : ℕ) → board i j ≢ blank → g i j ≡ board i j
  pub outside : (i j : ℕ) → (9 ≤ i) ⊎ (9 ≤ j) → g i j ≡ board i j
  pub digit : (i j : ℕ) → i < 9 → j < 9 → (49 ≤ g i j) × (g i j ≤ 57)
  pub differs :
      (row col i j : ℕ)
      → row < 9
      → col < 9
      → Sees row col i j
      → (i ≢ row) ⊎ (j ≢ col)
      → g i j ≢ g row col

-- What the search looks for, which does not compare the digits that are given with each other: each
-- blank is filled by a digit that differs from all that its cell sees.
pub record Filling (board g : Board) : Type 0 where
  pub extends : (i j : ℕ) → board i j ≢ blank → g i j ≡ board i j
  pub outside : (i j : ℕ) → (9 ≤ i) ⊎ (9 ≤ j) → g i j ≡ board i j
  pub digit : (i j : ℕ) → i < 9 → j < 9 → board i j ≡ blank → (49 ≤ g i j) × (g i j ≤ 57)
  pub differs :
      (row col i j : ℕ)
      → row < 9
      → col < 9
      → board row col ≡ blank
      → Sees row col i j
      → (i ≢ row) ⊎ (j ≢ col)
      → g i j ≢ g row col

-- No two of the digits that are given conflict.
abbrev pub IsConsistent : Board → Type 0
IsConsistent board =
    (row col i j : ℕ)
    → row < 9
    → col < 9
    → board row col ≢ blank
    → board i j ≢ blank
    → Sees row col i j
    → (i ≢ row) ⊎ (j ≢ col)
    → board i j ≢ board row col

pub Among-append :
    {A : Type 0} (a : A) (xs ys : List A) → Among a (xs ++ ys) ↔ (Among a xs ⊎ Among a ys)
Among-append a [] ys = ((λ h. inr h), λ h. elim h [ inl e ↦ elim e [ ] | inr k ↦ k ])
Among-append a (x ∷ xs) ys =
    let rest = Among-append a xs ys in
    (
      (λ h. elim h [
        | inl e ↦ inl (inl e)
        | inr k ↦ elim (rest.0 k) [ inl u ↦ inl (inr u) | inr v ↦ inr v ]
      ]),
      (λ h. elim h [
        | inl u ↦ elim u [ inl e ↦ inl e | inr k ↦ inr (rest.1 (inl k)) ]
        | inr v ↦ inr (rest.1 (inr v))
      ]),
    )

pub Free-Among :
    (board : Board) (idx : ℕ) (cells : List Cell)
    → Free board idx cells ↔ ((i j : ℕ) → Among (i, j) cells → board i j ≢ idx + 49)
Free-Among board idx [] = ((λ h i j k. elim k [ ]), λ h. tt)
Free-Among board idx ((x, y) ∷ cells) =
    let rest = Free-Among board idx cells in
    (
      (λ h i j k. elim k [
        | inl e ↦ λ f. h.0 (ap (λ p. board p.0 p.1) (sym e) ∙ f)
        | inr m ↦ rest.0 h.1 i j m
      ]),
      (λ h. (h x y (inl refl), rest.1 (λ i j m. h i j (inr m)))),
    )

Among-span : (n k j : ℕ) → Among j (span n k) ↔ ((k ≤ j) × (j < k + n))
Among-span zero k j = ((λ h. elim h [ ]), λ h. absurd (omega arith))
Among-span (suc n) k j =
    let rest = Among-span n (suc k) j in
    (
      (λ h. elim h [ inl e ↦ omega arith | inr m ↦ omega (arith, rest.0 m) ]),
      (λ h. elim (Bool-cases (j == k)) [
        | inl e ↦ inl (ground arith)
        | inr e ↦ inr (rest.1 (ground arith))
      ]),
    )

Among-in_row : (row i j : ℕ) (js : List ℕ) → Among (i, j) (in_row row js) ↔ ((i ≡ row) × Among j js)
Among-in_row row i j [] = ((λ h. elim h [ ]), λ h. elim h.1 [ ])
Among-in_row row i j (x ∷ js) =
    let rest = Among-in_row row i j js in
    (
      (λ h. elim h [
        | inl e ↦ (ap (λ p. p.0) e, inl (ap (λ p. p.1) e))
        | inr m ↦ ((rest.0 m).0, inr (rest.0 m).1)
      ]),
      (λ h. elim h.1 [ inl e ↦ inl (cc) | inr m ↦ inr (rest.1 (h.0, m)) ]),
    )

Among-in_col : (col i j : ℕ) (is : List ℕ) → Among (i, j) (in_col col is) ↔ (Among i is × (j ≡ col))
Among-in_col col i j [] = ((λ h. elim h [ ]), λ h. elim h.0 [ ])
Among-in_col col i j (x ∷ is) =
    let rest = Among-in_col col i j is in
    (
      (λ h. elim h [
        | inl e ↦ (inl (ap (λ p. p.0) e), ap (λ p. p.1) e)
        | inr m ↦ (inr (rest.0 m).0, (rest.0 m).1)
      ]),
      (λ h. elim h.0 [ inl e ↦ inl (cc) | inr m ↦ inr (rest.1 (m, h.1)) ]),
    )

Among-in_rows :
    (i j : ℕ) (is js : List ℕ) → Among (i, j) (in_rows is js) ↔ (Among i is × Among j js)
Among-in_rows i j [] js = ((λ h. elim h [ ]), λ h. elim h.0 [ ])
Among-in_rows i j (x ∷ is) js =
    let rest = Among-in_rows i j is js in
    let split = Among-append (i, j) (in_row x js) (in_rows is js) in
    let first = Among-in_row x i j js in
    (
      (λ h. elim (split.0 h) [
        | inl m ↦ (inl (first.0 m).0, (first.0 m).1)
        | inr m ↦ (inr (rest.0 m).0, (rest.0 m).1)
      ]),
      (λ h. elim h.0 [
        | inl e ↦ split.1 (inl (first.1 (e, h.1)))
        | inr m ↦ split.1 (inr (rest.1 (m, h.1)))
      ]),
    )

-- The three loops of getCandidates look at the cells that a cell sees, and at itself.
pub Among-seen_cells :
    (row col i j : ℕ) → row < 9 → col < 9 → Among (i, j) (seen_cells row col) ↔ Sees row col i j
Among-seen_cells row col i j h k =
    let by_row = Among-in_row row i j (span 9 0) in
    let by_col = Among-in_col col i j (span 9 0) in
    let by_grid = Among-in_rows i j (span 3 (row / 3 * 3)) (span 3 (col / 3 * 3)) in
    let outer =
      Among-append (i, j) (in_row row (span 9 0))
        (in_col col (span 9 0) ++ in_rows (span 3 (row / 3 * 3)) (span 3 (col / 3 * 3))) in
    let inner =
      Among-append (i, j) (in_col col (span 9 0))
        (in_rows (span 3 (row / 3 * 3)) (span 3 (col / 3 * 3))) in
    let all_i = Among-span 9 0 i in
    let all_j = Among-span 9 0 j in
    let grid_i = Among-span 3 (row / 3 * 3) i in
    let grid_j = Among-span 3 (col / 3 * 3) j in
    (
      (λ u. elim (outer.0 u) [
        | inl m ↦ let (e, l) = by_row.0 m in (omega arith, (all_j.0 l).1, inl e)
        | inr r ↦ elim (inner.0 r) [
          | inl m ↦ let (l, e) = by_col.0 m in ((all_i.0 l).1, omega arith, inr (inl e))
          | inr m ↦
              let (l, n) = by_grid.0 m in
              let (a, b) = grid_i.0 l in
              let (c, d) = grid_j.0 n in
              (omega arith, omega arith, inr (inr (omega arith, omega arith)))
        ]
      ]),
      (λ (a, b, s). elim s [
        | inl e ↦ outer.1 (inl (by_row.1 (e, all_j.1 (omega arith, b))))
        | inr r ↦ elim r [
          | inl e ↦ outer.1 (inr (inner.1 (inl (by_col.1 (all_i.1 (omega arith, a), e)))))
          | inr (e, f) ↦ outer.1 (
              inr (
                inner.1 (
                  inr (
                    by_grid.1
                      (grid_i.1 (omega arith, omega arith), grid_j.1 (omega arith, omega arith))))))
        ]
      ]),
    )

pub Sees-sym : (r c i j : ℕ) → r < 9 → c < 9 → Sees r c i j → Sees i j r c
Sees-sym r c i j h k (a, b, inl e) = (h, k, inl (sym e))
Sees-sym r c i j h k (a, b, inr (inl e)) = (h, k, inr (inl (sym e)))
Sees-sym r c i j h k (a, b, inr (inr (e, f))) = (h, k, inr (inr (sym e, sym f)))

-- A cell other than the one that is filled is as before.
pub place_other :
    (row col ch : ℕ) (board : Board) (i j : ℕ)
    → (i ≢ row) ⊎ (j ≢ col)
    → place row col ch board i j ≡ board i j
place_other row col ch board i j (inl n) = ground (arith, n)
place_other row col ch board i j (inr n) = ground (arith, n)

pub place_self : (row col ch : ℕ) (board : Board) → place row col ch board row col ≡ ch
place_self row col ch board = ground arith

-- Where two cells are the same, or not.
pub same_cell : (row col i j : ℕ) → ((i ≡ row) × (j ≡ col)) ⊎ ((i ≢ row) ⊎ (j ≢ col))
same_cell row col i j = elim (Bool-cases (i == row)) [
  | inr n ↦ inr (inl (λ e. ground arith))
  | inl e ↦ elim (Bool-cases (j == col)) [
    | inr n ↦ inr (inr (λ f. ground arith))
    | inl f ↦ inl (ground arith, ground arith)
  ]
]
