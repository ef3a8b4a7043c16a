-- ===== src/Sudoku/Step.antt =====
-- A board with one more cell filled has the fillings in which that cell holds that digit.
use mathlib.Core.Path.{fun_ext}
use cpp_experiments.Common.{
  ℕ, ◌+◌, ◌-◌, ◌≤◌, ◌<◌, ◌≡◌, ◌≢◌, ◌⊎◌, ◌↔◌, refl, ap, sym, ◌∙◌, subst, arith, ◌==◌, ltb,
  Bool-cases, inl, inr,
}
use cpp_experiments.Sudoku.{Board, blank, place}
use cpp_experiments.Sudoku.Candidates.{IsWell}
use cpp_experiments.Sudoku.Rules.{Sees, Filling, Sees-sym, place_other, place_self, same_cell}

-- No cell that is seen holds the digit of a candidate.
abbrev pub Allowed : Board → ℕ → ℕ → ℕ → Type 0
Allowed board row col idx = (i j : ℕ) → Sees row col i j → board i j ≢ idx + 49

pub blank_or : (ch : ℕ) → (ch ≡ blank) ⊎ (ch ≢ blank)
blank_or ch = elim (Bool-cases (ch == blank)) [
  | inl e ↦ inl (ground arith)
  | inr e ↦ inr (λ f. ground arith)
]

-- `i + 1 + '0'` is no blank.
digit-ne-blank : (idx : ℕ) → idx + 1 + 48 ≢ blank
digit-ne-blank idx e = omega arith

module _ (board : Board) (row col : ℕ) (hr : row < 9) (hc : col < 9)
    (empty : board row col ≡ blank) where
  abbrev pub filled : ℕ → Board
  filled idx = place row col (idx + 1 + 48) board

  pub still_blank : (idx i j : ℕ) → filled idx i j ≡ blank → board i j ≡ blank
  still_blank idx i j e = elim (same_cell row col i j) [
    | inl (f, g) ↦
        absurd
          (digit-ne-blank idx (sym (place_self row col (idx + 1 + 48) board) ∙ ap₂_cell f g ∙ e))
    | inr n ↦ sym (place_other row col (idx + 1 + 48) board i j n) ∙ e
  ]
    where
      ap₂_cell : i ≡ row → j ≡ col → filled idx row col ≡ filled idx i j
      ap₂_cell f g = rw (f, g) refl

  -- A filling holds a candidate in the blank cell.
  pub Filling-fill :
      (g : Board)
      → Filling board g
      → (idx : ℕ) × (idx < 9)
        × (g row col ≡ idx + 1 + 48)
        × Allowed board row col idx
        × Filling (filled idx) g
  Filling-fill g s =
      let (lo, hi) = s.digit row col hr hc empty in
      let e : g row col ≡ g row col - 49 + 1 + 48 = omega arith in
      (
        g row col - 49,
        omega arith,
        e,
        allowed lo,
        record {
          extends = extended lo;
          outside = λ i j o.
              s.outside i j o
              ∙ sym (place_other row col (g row col - 49 + 1 + 48) board i j (far i j o));
          digit = λ i j h k b. s.digit i j h k (still_blank (g row col - 49) i j b);
          differs = λ r c i j h k b. s.differs r c i j h k (still_blank (g row col - 49) r c b);
        },
      )
    where
      allowed : 49 ≤ g row col → Allowed board row col (g row col - 49)
      allowed lo i j sees held = elim (same_cell row col i j) [
        | inl (f, k) ↦ omega (arith, ap (λ x. board x j) f, ap (λ y. board row y) k)
        | inr n ↦ elim (blank_or (board i j)) [
          | inl b ↦ omega arith
          | inr b ↦ s.differs row col i j hr hc empty sees n (s.extends i j b ∙ held ∙ omega arith)
        ]
      ]

      extended :
          49 ≤ g row col
          → (i j : ℕ) → filled (g row col - 49) i j ≢ blank
          → g i j ≡ filled (g row col - 49) i j
      extended lo i j b = elim (same_cell row col i j) [
        | inl (f, k) ↦ rw (f, k) (omega (arith, place_self row col (g row col - 49 + 1 + 48) board))
        | inr n ↦
            let o = place_other row col (g row col - 49 + 1 + 48) board i j n in
            s.extends i j (λ e. b (o ∙ e)) ∙ sym o
      ]

      far : (i j : ℕ) → (9 ≤ i) ⊎ (9 ≤ j) → (i ≢ row) ⊎ (j ≢ col)
      far i j (inl h) = inl (λ e. omega arith)
      far i j (inr h) = inr (λ e. omega arith)

  -- A filling of the board with a candidate filled in is one of the board.
  pub Filling-unfill :
      (g : Board) (idx : ℕ)
      → idx < 9
      → Allowed board row col idx
      → Filling (filled idx) g
      → (g row col ≡ idx + 1 + 48) × Filling board g
  Filling-unfill g idx h free s = (
    held,
    record {
      extends = λ i j b. elim (same_cell row col i j) [
        | inl (e, f) ↦ absurd (b (rw (e, f) empty))
        | inr n ↦ s.extends i j (λ e. b (sym (other i j n) ∙ e)) ∙ other i j n
      ];
      outside = λ i j o. s.outside i j o ∙ other i j (far i j o);
      digit = λ i j a b e. elim (same_cell row col i j) [
        | inl (f, k) ↦ rw (f, k) (omega (arith, held))
        | inr n ↦ s.digit i j a b (other i j n ∙ e)
      ];
      differs = differs;
    },
  )
    where
      other : (i j : ℕ) → (i ≢ row) ⊎ (j ≢ col) → filled idx i j ≡ board i j
      other i j n = place_other row col (idx + 1 + 48) board i j n

      held : g row col ≡ idx + 1 + 48
      held =
          let p = place_self row col (idx + 1 + 48) board in
          s.extends row col (λ e. digit-ne-blank idx (sym p ∙ e)) ∙ p

      far : (i j : ℕ) → (9 ≤ i) ⊎ (9 ≤ j) → (i ≢ row) ⊎ (j ≢ col)
      far i j (inl u) = inl (λ e. omega arith)
      far i j (inr u) = inr (λ e. omega arith)

      swapped : (i j : ℕ) → (i ≢ row) ⊎ (j ≢ col) → (row ≢ i) ⊎ (col ≢ j)
      swapped i j (inl n) = inl (λ e. n (sym e))
      swapped i j (inr n) = inr (λ e. n (sym e))

      -- The cell that is filled, and one that it sees.
      new_differs : (i j : ℕ) → Sees row col i j → (i ≢ row) ⊎ (j ≢ col) → g i j ≢ g row col
      new_differs i j sees n = elim (blank_or (board i j)) [
        | inl b ↦ λ e.
            s.differs i j row col sees.0 sees.1 (other i j n ∙ b) (Sees-sym row col i j hr hc sees)
              (swapped i j n) (sym e)
        | inr b ↦ λ e. free i j sees (
            sym (s.extends i j (λ f. b (sym (other i j n) ∙ f)) ∙ other i j n)
            ∙ e
            ∙ held
            ∙ omega arith)
      ]

      differs :
          (r c i j : ℕ)
          → r < 9
          → c < 9
          → board r c ≡ blank
          → Sees r c i j
          → (i ≢ r) ⊎ (j ≢ c)
          → g i j ≢ g r c
      differs r c i j a b e sees n = elim (same_cell row col r c) [
        | inl (f, k) ↦ rw (f, k) (new_differs i j (rw (f, k) at sees) (rw (f, k) at n))
        | inr o ↦ s.differs r c i j a b (other r c o ∙ e) sees n
      ]

  -- Blanking the cell again gives the board back.
  pub place_back : (idx : ℕ) → place row col blank (filled idx) ≡ board
  place_back idx = fun_ext (λ i. fun_ext (λ j. back i j))
    where
      back : (i j : ℕ) → place row col blank (filled idx) i j ≡ board i j
      back i j = elim (same_cell row col i j) [
        | inl (e, f) ↦ rw (e, f) (place_self row col blank (filled idx) ∙ sym empty)
        | inr n ↦
            place_other row col blank (filled idx) i j n
            ∙ place_other row col (idx + 1 + 48) board i j n
      ]

  pub filled-IsWell : (idx : ℕ) → idx < 9 → IsWell board → IsWell (filled idx)
  filled-IsWell idx h w i j = elim (same_cell row col i j) [
    | inl (e, f) ↦ rw (e, f) (inr (omega (arith, place_self row col (idx + 1 + 48) board)))
    | inr n ↦ rw (place_other row col (idx + 1 + 48) board i j n) (w i j)
  ]

-- A board with no blank is its only filling.
pub Filling-full :
    (board g : Board)
    → ((i j : ℕ) → i < 9 → j < 9 → board i j ≢ blank)
    → Filling board g ↔ (g ≡ board)
Filling-full board g full = (
  (λ s. fun_ext (λ i. fun_ext (λ j. same s i j))),
  (λ e. subst (λ h. Filling board h) (sym e) itself),
)
  where
    same : Filling board g → (i j : ℕ) → g i j ≡ board i j
    same s i j = elim (Bool-cases (ltb i 9)) [
      | inr o ↦ s.outside i j (inl (ground arith))
      | inl a ↦ elim (Bool-cases (ltb j 9)) [
        | inr o ↦ s.outside i j (inr (ground arith))
        | inl b ↦ s.extends i j (full i j (ground arith) (ground arith))
      ]
    ]

    itself : Filling board board
    itself = record {
      extends = λ i j b. refl;
      outside = λ i j o. refl;
      digit = λ i j a b e. absurd (full i j a b e);
      differs = λ r c i j a b e. absurd (full r c a b e);
    }
