-- ===== src/Sudoku/Candidates.antt =====
-- getCandidates lists the numbers that no cell of the row, the column or the grid holds.
use cpp_experiments.Common.{
  ℕ, zero, suc, ◌+◌, ◌-◌, ◌%◌, ◌^◌, ◌≤◌, ◌<◌, ◌≡◌, ◌≢◌, ◌⊎◌, ◌↔◌, refl, ◌∙◌, Bool, true, false,
  List, [], ◌∷◌, arith, ltb, ◌==◌, if◌then◌else◌, length, replicate, set, length-set, lt→ltb,
  get_or, inl, inr,
}
use cpp_experiments.Common.Fault.{ok}
use cpp_experiments.Sudoku.{Board, Cell, blank, mark, indices, get_candidates, seen_cells}

-- A cell is blank or holds a digit from 1 to 9.
abbrev pub IsFilling : ℕ → Type 0
IsFilling ch = (ch ≡ blank) ⊎ ((49 ≤ ch) × (ch ≤ 57))

abbrev pub IsWell : Board → Type 0
IsWell board = (i j : ℕ) → IsFilling (board i j)

-- No cell of the list holds the number of a candidate.
abbrev pub Free : Board → ℕ → List Cell → Type 0
Free board idx [] = Unit {0}
Free board idx ((i, j) ∷ cells) = (board i j ≢ idx + 49) × Free board idx cells

-- What the marks say after the loop: what was marked and is free of the cells.
abbrev Marked : Board → List Cell → List Bool → List Bool → Type 0
Marked board cells before after =
    (length after ≡ length before)
    × ((idx : ℕ)
        → (get_or after idx false ≡ true)
          ↔ ((get_or before idx false ≡ true) × Free board idx cells))

get-set :
    (marks : List Bool) (index idx : ℕ)
    → index < length marks
    → get_or (set marks index false) idx false
      ≡ (if idx == index then false else get_or marks idx false)
get-set [] index idx h = absurd (omega arith)
get-set (m ∷ marks) zero zero h = refl
get-set (m ∷ marks) zero (suc idx) h = ground arith
get-set (m ∷ marks) (suc index) zero h = ground arith
get-set (m ∷ marks) (suc index) (suc idx) h = ground (arith, get-set marks index idx)

-- The index that a digit marks.
index_of : (ch : ℕ) → 49 ≤ ch → ch ≤ 57 → (ch + 2 ^ 64 - 49) % 2 ^ 64 ≡ ch - 49
index_of ch h k = omega arith

cons_iff :
    (A B F : Type 0) (ch idx : ℕ)
    → 49 ≤ ch
    → (A ↔ ((idx ≢ ch - 49) × B))
    → (A × F) ↔ (B × ((ch ≢ idx + 49) × F))
cons_iff A B F ch idx h (f, g) = (
  (λ (a, x). ((f a).1, ((λ e. (f a).0 (omega arith)), x))),
  (λ (b, (n, x)). (g ((λ e. n (omega arith)), b), x)),
)

set_iff :
    (marks : List Bool) (index idx : ℕ)
    → index < length marks
    → (get_or (set marks index false) idx false ≡ true)
      ↔ ((idx ≢ index) × (get_or marks idx false ≡ true))
set_iff marks index idx h = rw (get-set marks index idx h) (ground arith)

mark-Marked :
    (board : Board) (cells : List Cell) (marks : List Bool)
    → IsWell board
    → length marks ≡ 9
    → (after : List Bool) × (mark board cells marks ≡ ok after) × Marked board cells marks after
unfolding mark
mark-Marked board [] marks w l = (marks, refl, (refl, λ idx. ((λ h. (h, tt)), λ h. h.0)))
mark-Marked board ((i, j) ∷ cells) marks w l = elim (w i j) [
  | inl e ↦
      let (after, found, (len, iff)) = mark-Marked board cells marks w l in
      let empty : (board i j == blank) ≡ true = ground arith in
      (
        after,
        rw empty found,
        (
          len,
          λ idx. (
            (λ h. (((iff idx).0 h).0, ((λ k. omega arith), ((iff idx).0 h).1))),
            λ h. (iff idx).1 (h.0, h.1.1),
          ),
        ),
      )
  | inr (lo, hi) ↦
      let index : (board i j + 2 ^ 64 - 49) % 2 ^ 64 ≡ board i j - 49 =
        index_of (board i j) lo hi in
      let full : (board i j == blank) ≡ false = ground arith in
      let l' : length (set marks (board i j - 49) false) ≡ 9 =
        length-set marks (board i j - 49) false ∙ l in
      let inside : ltb (board i j - 49) (length marks) ≡ true =
        lt→ltb (board i j - 49) (length marks) (omega arith) in
      let (after, found, (len, iff)) =
        mark-Marked board cells (set marks (board i j - 49) false) w l' in
      (
        after,
        rw (full, index, inside) found,
        (
          len ∙ length-set marks (board i j - 49) false,
          λ idx.
              let c =
                cons_iff _ _ (Free board idx cells) (board i j) idx lo
                  (set_iff marks (board i j - 49) idx (omega arith)) in
              ((λ h. c.0 ((iff idx).0 h)), λ h. (iff idx).1 (c.1 h)),
        ),
      )
]

abbrev pub Among : {A : Type 0} → A → List A → Type 0
Among a [] = ⊥
Among a (x ∷ xs) = (a ≡ x) ⊎ Among a xs

Among-ge : (k : ℕ) (marks : List Bool) (idx : ℕ) → Among idx (indices k marks) → k ≤ idx
unfolding indices
Among-ge k [] idx h = elim h [ ]
Among-ge k (true ∷ marks) idx (inl e) = omega arith
Among-ge k (true ∷ marks) idx (inr h) = omega (arith, Among-ge (suc k) marks idx h)
Among-ge k (false ∷ marks) idx h = omega (arith, Among-ge (suc k) marks idx h)

Among-at :
    (marks : List Bool) (k n idx : ℕ)
    → idx ≡ k + n
    → Among idx (indices k marks) ↔ (get_or marks n false ≡ true)
unfolding indices
Among-at [] k n idx e = ((λ h. elim h [ ]), λ h. cc)
Among-at (true ∷ marks) k zero idx e = ((λ h. refl), λ h. inl (omega arith))
Among-at (true ∷ marks) k (suc n) idx e =
    let rest = Among-at marks (suc k) n idx (omega arith) in
    ((λ h. elim h [ inl f ↦ absurd (omega arith) | inr g ↦ rest.0 g ]), λ h. inr (rest.1 h))
Among-at (false ∷ marks) k zero idx e =
    ((λ h. absurd (omega (arith, Among-ge (suc k) marks idx h))), λ h. cc)
Among-at (false ∷ marks) k (suc n) idx e = Among-at marks (suc k) n idx (omega arith)

all_marked : (n idx : ℕ) → (get_or (replicate n true) idx false ≡ true) ↔ (idx < n)
all_marked zero idx = ((λ h. cc), λ h. absurd (omega arith))
all_marked (suc n) zero = ((λ h. omega arith), λ h. refl)
all_marked (suc n) (suc idx) =
    let rest = all_marked n idx in ((λ h. omega (arith, rest.0 h)), λ h. rest.1 (omega arith))

-- The candidates are in order, so that none comes twice.
abbrev pub Increasing : ℕ → List ℕ → Type 0
Increasing k [] = Unit {0}
Increasing k (x ∷ xs) = (k ≤ x) × Increasing (suc x) xs

Increasing-mono : (j k : ℕ) (xs : List ℕ) → j ≤ k → Increasing k xs → Increasing j xs
Increasing-mono j k [] h i = tt
Increasing-mono j k (x ∷ xs) h i = (omega arith, i.1)

Increasing-indices : (k : ℕ) (marks : List Bool) → Increasing k (indices k marks)
unfolding indices
Increasing-indices k [] = tt
Increasing-indices k (true ∷ marks) = (omega arith, Increasing-indices (suc k) marks)
Increasing-indices k (false ∷ marks) =
    Increasing-mono k (suc k) (indices (suc k) marks) (omega arith)
      (Increasing-indices (suc k) marks)

-- On a board of blanks and digits the candidates are found without an access outside the array, and
-- they are the numbers, in
-- order, that no cell seen holds.
pub get_candidates-Free :
    (board : Board) (row col : ℕ)
    → IsWell board
    → (cs : List ℕ) × (get_candidates board row col ≡ ok cs)
      × Increasing 0 cs
      × ((idx : ℕ) → Among idx cs ↔ ((idx < 9) × Free board idx (seen_cells row col)))
unfolding get_candidates
get_candidates-Free board row col w =
    let (after, found, (len, iff)) =
      mark-Marked board (seen_cells row col) (replicate 9 true) w refl in
    (
      indices 0 after,
      rw found refl,
      Increasing-indices 0 after,
      λ idx.
          let at = Among-at after 0 idx idx (omega arith) in
          (
            (λ h. let (m, f) = (iff idx).0 (at.0 h) in ((all_marked 9 idx).0 m, f)),
            λ h. at.1 ((iff idx).1 ((all_marked 9 idx).1 h.0, h.1)),
          ),
    )
