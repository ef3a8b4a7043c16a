-- ===== src/Sudoku/Solutions.antt =====
-- backtrack finds the fillings of a board, each once, and leaves the board as it was.
use cpp_experiments.Common.{
  ℕ, suc, ◌+◌, ◌≤◌, ◌<◌, ◌≡◌, ◌↔◌, refl, ap, ◌∙◌, subst, Bool, true, false, ◌&&◌, List, [], ◌∷◌,
  ◌++◌, append-nil, append_assoc, arith, if◌then◌else◌, inl, inr,
}
use cpp_experiments.Common.Fault.{Run, ok}
use cpp_experiments.Sudoku.{Board, blank, place}
use cpp_experiments.Sudoku.Search.{State, try_all}
use cpp_experiments.Sudoku.Candidates.{Among, Increasing}
use cpp_experiments.Sudoku.Rules.{Filling, Among-append}
use cpp_experiments.Sudoku.Step.{Allowed, Filling-unfill, place_back}

-- No entry comes twice.
abbrev pub Distinct : List Board → Type 0
Distinct [] = Unit {0}
Distinct (x ∷ xs) = (¬ Among x xs) × Distinct xs

Distinct-append :
    (xs ys : List Board)
    → Distinct xs
    → Distinct ys
    → ((g : Board) → Among g xs → Among g ys → ⊥)
    → Distinct (xs ++ ys)
Distinct-append [] ys h k apart = k
Distinct-append (x ∷ xs) ys h k apart = (
  (λ m. elim ((Among-append x xs ys).0 m) [ inl u ↦ h.0 u | inr v ↦ apart x (inl refl) v ]),
  Distinct-append xs ys h.1 k (λ g u. apart g (inr u)),
)

Increasing-ge : (k : ℕ) (cs : List ℕ) (idx : ℕ) → Increasing k cs → Among idx cs → k ≤ idx
Increasing-ge k [] idx h m = elim m [ ]
Increasing-ge k (c ∷ cs) idx h (inl e) = omega (arith, h.0)
Increasing-ge k (c ∷ cs) idx h (inr m) = omega (arith, h.0, Increasing-ge (suc c) cs idx h.1 m)

-- A filling with one of the candidates.
abbrev pub OneOf : Board → ℕ → ℕ → List ℕ → Board → Type 0
OneOf board row col cs g = (idx : ℕ) × Among idx cs × Filling (place row col (idx + 1 + 48) board) g

-- A run from a state adds the boards that satisfy `P`, each once, to the solutions and changes
-- nothing else.
abbrev pub Finds :
    {Gen : Type 0} → Gen → Board → List Board → (Board → Type 0) → Run (Bool × State Gen) → Type 0
Finds {Gen} gen board sols P m =
    (result : Bool) × (new : List Board) × (m
      ≡ ok (result, record { board = board; solutions = sols ++ new; random_gen = gen }))
    × ((g : Board) → Among g new ↔ P g)
    × Distinct new

not_random {ℓ} : {A : Type ℓ} (result : Bool) (x y : A) → (if result && false then x else y) ≡ y
not_random true x y = refl
not_random false x y = refl

module _ {Gen : Type 0} (gen : Gen) (board : Board) (row col : ℕ) (hr : row < 9) (hc : col < 9)
    (empty : board row col ≡ blank) (go : State Gen → Run (Bool × State Gen)) where
  abbrev pub filled : ℕ → Board
  filled idx = place row col (idx + 1 + 48) board

  abbrev pub at : Board → List Board → State Gen
  at b sols = record { board = b; solutions = sols; random_gen = gen }

  -- What the call for the next cell does with a candidate filled in.
  abbrev pub Each : List ℕ → Type 0
  Each cs =
      (idx : ℕ) (sols : List Board)
      → Among idx cs
      → Finds gen (filled idx) sols (λ g. Filling (filled idx) g) (go (at (filled idx) sols))

  abbrev pub Good : List ℕ → Type 0
  Good cs = (idx : ℕ) → Among idx cs → (idx < 9) × Allowed board row col idx

  apart :
      (c : ℕ) (cs : List ℕ)
      → Increasing (suc c) cs
      → Good (c ∷ cs)
      → (g : Board) → Filling (filled c) g
      → OneOf board row col cs g
      → ⊥
  apart c cs inc good g s (idx, m, t) =
      let (h, free) = good c (inl refl) in
      let (k, other) = good idx (inr m) in
      let (e, _) = Filling-unfill board row col hr hc empty g c h free s in
      let (f, _) = Filling-unfill board row col hr hc empty g idx k other t in
      absurd (omega (arith, Increasing-ge (suc c) cs idx inc m))

  pub try_all-Finds :
      (cs : List ℕ) (k : ℕ) (sols : List Board)
      → Increasing k cs
      → Good cs
      → Each cs
      → Finds gen board sols (OneOf board row col cs) (try_all go false row col cs (at board sols))
  unfolding try_all
  try_all-Finds [] k sols inc good each =
      (false, [], rw (append-nil sols) refl, (λ g. ((λ h. elim h [ ]), λ h. elim h.1 [ ])), tt)
  try_all-Finds (c ∷ cs) k sols inc good each =
      let (result, new, found, iff, once) = each c sols (inl refl) in
      let (result', more, found', iff', once') =
        try_all-Finds cs (suc c) (sols ++ new) inc.1 (λ idx m. good idx (inr m))
          (λ idx ss m. each idx ss (inr m)) in
      (
        result',
        new ++ more,
        rw found (
            not_random result _ _
            ∙ ap (λ b. try_all go false row col cs (at b (sols ++ new)))
                (place_back board row col hr hc empty c)
            ∙ found'
            ∙ ap (λ l. ok (result', at board l)) (append_assoc sols new more)),
        (λ g. (
          (λ h. elim ((Among-append g new more).0 h) [
            | inl u ↦ (c, inl refl, (iff g).0 u)
            | inr v ↦ let (idx, m, s) = (iff' g).0 v in (idx, inr m, s)
          ]),
          (λ (idx, m, s). (Among-append g new more).1 (elim m [
            | inl e ↦ inl ((iff g).1 (subst (λ i. Filling (filled i) g) e s))
            | inr v ↦ inr ((iff' g).1 (idx, v, s))
          ])),
        )),
        Distinct-append new more once once'
            (λ g u v. apart c cs inc.1 good g ((iff g).0 u) ((iff' g).0 v)),
      )
