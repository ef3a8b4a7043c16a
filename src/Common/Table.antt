-- ===== src/Common/Table.antt =====
-- std::unordered_map from numbers to numbers, as an association list.
use cpp_experiments.Common.{
  ℕ, Option, none, some, List, [], ◌∷◌, ◌≡◌, refl, arith, ◌==◌, if◌then◌else◌,
}

unfoldable pub find : ℕ → List (ℕ × ℕ) → Option ℕ
find k [] = none
find k ((j, p) ∷ t) = if j == k then some p else find k t

-- t.erase(k)
unfoldable pub erase : ℕ → List (ℕ × ℕ) → List (ℕ × ℕ)
erase k [] = []
erase k ((j, p) ∷ t) = let rest = erase k t in if j == k then rest else (j, p) ∷ rest

-- t.emplace(k, p), which leaves a key that is there alone.
unfoldable pub emplace : ℕ → ℕ → List (ℕ × ℕ) → List (ℕ × ℕ)
emplace k p [] = (k, p) ∷ []
emplace k p ((j, q) ∷ t) = if j == k then (j, q) ∷ t else (j, q) ∷ emplace k p t

-- t[k] = p
unfoldable pub assign : ℕ → ℕ → List (ℕ × ℕ) → List (ℕ × ℕ)
assign k p [] = (k, p) ∷ []
assign k p ((j, q) ∷ t) = if j == k then (j, p) ∷ t else (j, q) ∷ assign k p t

pub find-erase :
    (k j : ℕ) (t : List (ℕ × ℕ)) → find j (erase k t) ≡ (if k == j then none else find j t)
unfolding find erase
find-erase k j [] = ground arith
find-erase k j ((i, p) ∷ t) = ground (arith, find-erase k j t)

pub find-emplace :
    (k p j : ℕ) (t : List (ℕ × ℕ))
    → find k t ≡ none
    → find j (emplace k p t) ≡ (if k == j then some p else find j t)
unfolding find emplace
find-emplace k p j [] h = refl
find-emplace k p j ((i, q) ∷ t) h = ground (arith, find-emplace k p j t)

pub find-assign :
    (k p j : ℕ) (t : List (ℕ × ℕ)) → find j (assign k p t) ≡ (if k == j then some p else find j t)
unfolding find assign
find-assign k p j [] = refl
find-assign k p j ((i, q) ∷ t) = ground (arith, find-assign k p j t)
