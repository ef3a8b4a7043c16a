-- ===== src/Sudoku/Complete.antt =====
-- The whole search: soundness, completeness and termination of backtrack and solve.
use cpp_experiments.Common.{
  ℕ, zero, suc, ◌+◌, ◌-◌, ◌*◌, ◌≤◌, ◌<◌, ◌≡◌, ◌≢◌, ◌⊎◌, ◌↔◌, refl, Bool, true, false, not, List, [],
  ◌∷◌, arith, ◌==◌, if◌then◌else◌, Bool-cases, inl, inr,
}
use cpp_experiments.Common.Fault.{Run, ◌>>=◌}
use cpp_experiments.Sudoku.{Board, blank, place, get_candidates, seen_cells}
use cpp_experiments.Sudoku.Search.{State, try_all, backtrack}
use cpp_experiments.Sudoku.Candidates.{IsWell, Free, get_candidates-Free}
use cpp_experiments.Sudoku.Rules.{Filling, place_self, same_cell, Free-Among, Among-seen_cells}
use cpp_experiments.Sudoku.Step.{
  Allowed, Filling-fill, Filling-unfill, Filling-full, filled-IsWell, still_blank,
}
use cpp_experiments.Sudoku.Solutions.{Finds, OneOf, try_all-Finds}

-- No cell before a place is blank.
abbrev pub Before : Board → ℕ → ℕ → Type 0
Before board row col =
    (i j : ℕ) → i < 9 → j < 9 → (i < row) ⊎ ((i ≡ row) × (j < col)) → board i j ≢ blank

Allowed-iff :
    (board : Board) (row col idx : ℕ)
    → row < 9
    → col < 9
    → Free board idx (seen_cells row col) ↔ Allowed board row col idx
Allowed-iff board row col idx h k =
    let by_list = Free-Among board idx (seen_cells row col) in
    (
      (λ f i j s. by_list.0 f i j ((Among-seen_cells row col i j h k).1 s)),
      (λ a. by_list.1 (λ i j m. a i j ((Among-seen_cells row col i j h k).0 m))),
    )

Finds_iff :
    {Gen : Type 0} (gen : Gen) (board : Board) (sols : List Board) (P Q : Board → Type 0)
    (m : Run (Bool × State Gen))
    → ((g : Board) → P g ↔ Q g)
    → Finds gen board sols P m
    → Finds gen board sols Q m
Finds_iff gen board sols P Q m same (result, new, e, iff, once) =
    (result, new, e, (λ g. ((λ h. (same g).0 ((iff g).0 h)), λ q. (iff g).1 ((same g).1 q))), once)

nonblank :
    (board : Board) (row col i j : ℕ)
    → (board row col == blank) ≡ false
    → i ≡ row
    → j ≡ col
    → board i j ≢ blank
nonblank board row col i j full x y b =
    let same : board row col ≡ blank = rw (← x, ← y) b in ground arith

lt_of_le_ne : {m n : ℕ} → m ≤ n → m ≢ n → m < n
lt_of_le_ne {m} {n} h k = elim (Bool-cases (m == n)) [
  | inl e ↦ absurd (k (ground arith))
  | inr e ↦ ground arith
]

-- The four branches of backtrack.
abbrev pick : {A : Type 0} → Bool → Bool → Bool → A → A → A → A → A
pick a b c w x y z = if a then w else if b then x else if not c then y else z

module _ {A : Type 0} (P : A → Type 0) (a b c : Bool) (w x y z : A) where
  pick_board : a ≡ true → P w → P (pick a b c w x y z)
  pick_board e p = rw e p

  pick_row : a ≡ false → b ≡ true → P x → P (pick a b c w x y z)
  pick_row e f p = rw (e, f) p

  pick_full : a ≡ false → b ≡ false → c ≡ false → P y → P (pick a b c w x y z)
  pick_full e f g p = rw (e, f, g) p

  pick_blank : a ≡ false → b ≡ false → c ≡ true → P z → P (pick a b c w x y z)
  pick_blank e f g p = rw (e, f, g) p

module _ {Gen : Type 0} (shuffle : (A : Type 0) → Gen → List A → List A × Gen) (gen : Gen) where
  abbrev pub from : Board → List Board → State Gen
  from b sols = record { board = b; solutions = sols; random_gen = gen }

  -- What a call promises, with the places that are left as its fuel.
  abbrev pub Promise : ℕ → ℕ → ℕ → Type 0
  Promise fuel row col =
      (board : Board) (sols : List Board)
      → IsWell board
      → Before board row col
      → Finds gen board sols (Filling board)
          (backtrack shuffle fuel false row col (from board sols))

  fill-Finds :
      (fuel row col : ℕ)
      → row < 9
      → col < 9
      → Promise fuel row (suc col)
      → (board : Board) (sols : List Board) → IsWell board
      → Before board row col
      → board row col ≡ blank
      → Finds gen board sols (Filling board) (
          get_candidates board row col >>= λ cs.
          try_all (backtrack shuffle fuel false row (suc col)) false row col cs (from board sols))
  fill-Finds fuel row col h k next board sols w before b =
      let (cs, found, inc, iff) = get_candidates-Free board row col w in
      rw found (
        Finds_iff gen board sols (OneOf board row col cs) (Filling board)
          (try_all (backtrack shuffle fuel false row (suc col)) false row col cs (from board sols))
          (λ g. (
            (λ (idx, m, s).
                (Filling-unfill board row col h k b g idx ((iff idx).0 m).0
                  ((Allowed-iff board row col idx h k).0 ((iff idx).0 m).1) s).1),
            (λ s.
                let (idx, l, _, free, t) = Filling-fill board row col h k b g s in
                (idx, (iff idx).1 (l, (Allowed-iff board row col idx h k).1 free), t)),
          ))
          (try_all-Finds gen board row col h k b (backtrack shuffle fuel false row (suc col)) cs 0
            sols inc
            (λ idx m. (((iff idx).0 m).0, (Allowed-iff board row col idx h k).0 ((iff idx).0 m).1))
            (λ idx ss m.
              next (place row col (idx + 1 + 48) board) ss
                (filled-IsWell board row col h k b idx ((iff idx).0 m).0 w) (after idx))))
    where
      after : (idx : ℕ) → Before (place row col (idx + 1 + 48) board) row (suc col)
      after idx i j u v (inl lt) e =
          before i j u v (inl lt) (still_blank board row col h k b idx i j e)
      after idx i j u v (inr (f, lt)) e = elim (same_cell row col i j) [
        | inl (x, y) ↦ omega (arith, place_self row col (idx + 1 + 48) board, rw (x, y) at e)
        | inr (inl n) ↦ n f
        | inr (inr n) ↦
            before i j u v (inr (f, lt_of_le_ne (omega arith) n))
              (still_blank board row col h k b idx i j e)
      ]

  pub backtrack-Promise :
      (fuel row col : ℕ) → row ≤ 9 → col ≤ 9 → (9 - row) * 10 - col < fuel → Promise fuel row col
  unfolding backtrack
  backtrack-Promise zero row col h k f board sols w before = absurd (omega arith)
  backtrack-Promise (suc fuel) row col h k f board sols w before = elim (Bool-cases (row == 9)) [
    | inl e ↦
        let top : row ≡ 9 = ground arith in
        pick_board (Finds gen board sols (Filling board)) (row == 9) (col == 9)
          (board row col == blank) _ _ _ _ e
          (
            true,
            board ∷ [],
            refl,
            (λ g.
                let full = Filling-full board g (λ i j u v. before i j u v (inl (omega arith))) in
                ((λ m. elim m [ inl x ↦ full.1 x | inr n ↦ elim n [ ] ]), λ s. inl (full.0 s))),
            ((λ m. elim m [ ]), tt),
          )
    | inr e ↦
        let below : row < 9 = lt_of_le_ne h (λ x. ground arith) in
        elim (Bool-cases (col == 9)) [
          | inl c ↦
              let end : col ≡ 9 = ground arith in
              pick_row (Finds gen board sols (Filling board)) (row == 9) (col == 9)
                (board row col == blank) _ _ _ _ e c
                (backtrack-Promise fuel (suc row) 0 (omega arith) (omega arith) (omega arith) board
                  sols w
                  (λ i j u v past. before i j u v (elim past [
                    | inl lt ↦ elim (Bool-cases (i == row)) [
                      | inl q ↦ inr (ground arith, omega arith)
                      | inr q ↦ inl (lt_of_le_ne (omega arith) (λ x. ground arith))
                    ]
                    | inr (x, lt) ↦ absurd (omega arith)
                  ])))
          | inr c ↦
              let inside : col < 9 = lt_of_le_ne k (λ x. ground arith) in
              elim (Bool-cases (board row col == blank)) [
                | inr full ↦
                    pick_full (Finds gen board sols (Filling board)) (row == 9) (col == 9)
                      (board row col == blank) _ _ _ _ e c full
                      (backtrack-Promise fuel row (suc col) h (omega arith) (omega arith) board sols
                        w
                        (λ i j u v past. elim past [
                          | inl lt ↦ before i j u v (inl lt)
                          | inr (x, lt) ↦ elim (Bool-cases (j == col)) [
                            | inl q ↦ λ b. nonblank board row col i j full x (ground arith) b
                            | inr q ↦
                                before i j u v
                                  (inr (x, lt_of_le_ne (omega arith) (λ y. ground arith)))
                          ]
                        ]))
                | inl b ↦
                    pick_blank (Finds gen board sols (Filling board)) (row == 9) (col == 9)
                      (board row col == blank) _ _ _ _ e c b
                      (fill-Finds fuel row col below inside
                        (backtrack-Promise fuel row (suc col) h (omega arith) (omega arith)) board
                        sols w before (ground arith))
              ]
        ]
  ]
