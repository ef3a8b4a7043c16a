-- ===== src/Common/Dict.antt =====
-- std::unordered_map with text keys, as an association list in the order of its iteration.
use cpp_experiments.Common.{◌≡◌, refl, Option, none, some, List, [], ◌∷◌, arith, if◌then◌else◌}
use cpp_experiments.Common.Bytes.{Bytes, ◌=ᵇ◌, =ᵇ_iff}

abbrev pub Dict {ℓ} : Type ℓ → Type ℓ
Dict V = List (Bytes × V)

module _ {ℓ} {V : Type ℓ} where
  -- m.find(k), m.at(k)
  unfoldable pub lookup : Bytes → Dict V → Option V
  lookup k [] = none
  lookup k ((j, v) ∷ m) = if j =ᵇ k then some v else lookup k m

  -- m[k] = v
  unfoldable pub insert : Bytes → V → Dict V → Dict V
  insert k v [] = (k, v) ∷ []
  insert k v ((j, w) ∷ m) = if j =ᵇ k then (j, v) ∷ m else (j, w) ∷ insert k v m

  -- m.erase(k)
  unfoldable pub erase : Bytes → Dict V → Dict V
  erase k [] = []
  erase k ((j, w) ∷ m) = let rest = erase k m in if j =ᵇ k then rest else (j, w) ∷ rest

  pub lookup-insert :
      (k j : Bytes) (v : V) (m : Dict V)
      → lookup j (insert k v m) ≡ (if k =ᵇ j then some v else lookup j m)
  unfolding lookup insert
  lookup-insert k j v [] = refl
  lookup-insert k j v ((i, w) ∷ m) =
      ground (arith, =ᵇ_iff k j, =ᵇ_iff i k, =ᵇ_iff i j, lookup-insert k j v m)

  pub lookup-erase :
      (k j : Bytes) (m : Dict V) → lookup j (erase k m) ≡ (if k =ᵇ j then none else lookup j m)
  unfolding lookup erase
  lookup-erase k j [] = ground arith
  lookup-erase k j ((i, w) ∷ m) =
      ground (arith, =ᵇ_iff k j, =ᵇ_iff i k, =ᵇ_iff i j, lookup-erase k j m)

pub ruleset dict_laws = (lookup-insert, lookup-erase)
