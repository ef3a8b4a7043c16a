-- ===== src/OrderedMap/Index.antt =====
-- The table of ordered_map holds the iterator of each key of the list, and no other.
use cpp_experiments.Common.{
  ℕ, suc, ◌<◌, ◌≤◌, ◌≡◌, Bool-cases, inl, inr, ◌≢◌, refl, ◌∙◌, Option, none, some, List, [], ◌∷◌,
  ◌++◌, arith, ◌==◌, if◌then◌else◌,
}
use cpp_experiments.OrderedMap.{Node, OrderedMap, unlink, assign_value, new_node, find}

module _ {ℓ} {V : Type ℓ} where
  -- The address of the first node with the key.
  unfoldable pub place_of : ℕ → List (Node V) → Option ℕ
  place_of k [] = none
  place_of k (n ∷ ns) = if n.key == k then some n.place else place_of k ns

  abbrev pub NoPlace : ℕ → List (Node V) → Type 0
  NoPlace p [] = Unit {0}
  NoPlace p (n ∷ ns) = (n.place ≢ p) × NoPlace p ns

  -- No key and no address occurs twice, and the addresses are below `b`.
  abbrev pub Distinct : ℕ → List (Node V) → Type 0
  Distinct b [] = Unit {0}
  Distinct b (n ∷ ns) =
      (place_of n.key ns ≡ none) × NoPlace n.place ns × (n.place < b) × Distinct b ns

  pub record IsValid (m : OrderedMap V) : Type 0 where
    pub index : (k : ℕ) → find k m ≡ place_of k m.nodes
    pub distinct : Distinct m.fresh m.nodes

  pub place_of-append :
      (j : ℕ) (ns : List (Node V)) (n : Node V)
      → place_of n.key ns ≡ none
      → place_of j (ns ++ n ∷ []) ≡ (if n.key == j then some n.place else place_of j ns)
  unfolding place_of
  place_of-append j [] n h = refl
  place_of-append j (m ∷ ns) n h = ground (arith, place_of-append j ns n)

  pub place_of-assign_value :
      (j p : ℕ) (v : V) (ns : List (Node V)) → place_of j (assign_value p v ns) ≡ place_of j ns
  unfolding place_of assign_value
  place_of-assign_value j p v [] = refl
  place_of-assign_value j p v (n ∷ ns) = ground (arith, place_of-assign_value j p v ns)

  pub NoPlace-bound : (p b : ℕ) (ns : List (Node V)) → Distinct b ns → b ≤ p → NoPlace p ns
  NoPlace-bound p b [] d h = tt
  NoPlace-bound p b (n ∷ ns) (x, y, z, d) h = (λ e. omega arith, NoPlace-bound p b ns d h)

  pub unlink_absent : (p : ℕ) (ns : List (Node V)) → NoPlace p ns → unlink p ns ≡ ns
  unfolding unlink
  unlink_absent p [] h = refl
  unlink_absent p (n ∷ ns) (o, h) = ground (arith, unlink_absent p ns)

  -- A key's address is not that of another node.
  pub NoPlace-other :
      (k p q : ℕ) (ns : List (Node V)) → NoPlace q ns → place_of k ns ≡ some p → p ≢ q
  unfolding place_of
  NoPlace-other k p q [] o h = cc
  NoPlace-other k p q (n ∷ ns) (x, o) h = ground (arith, NoPlace-other k p q ns)

  pub place_of-unlink :
      (k p b j : ℕ) (ns : List (Node V))
      → Distinct b ns
      → place_of k ns ≡ some p
      → place_of j (unlink p ns) ≡ (if k == j then none else place_of j ns)
  unfolding place_of unlink
  place_of-unlink k p b j [] d h = ground arith
  place_of-unlink k p b j (n ∷ ns) (x, y, z, d) h = ground (
    arith,
    place_of-unlink k p b j ns d,
    NoPlace-other k p n.place ns y,
    unlink_absent n.place ns y,
  )

  NoPlace-unlink : (p q : ℕ) (ns : List (Node V)) → NoPlace q ns → NoPlace q (unlink p ns)
  unfolding unlink
  NoPlace-unlink p q [] h = tt
  NoPlace-unlink p q (n ∷ ns) (o, h) = ground (arith, NoPlace-unlink p q ns)

  place_of-unlink-none :
      (j p : ℕ) (ns : List (Node V)) → place_of j ns ≡ none → place_of j (unlink p ns) ≡ none
  unfolding place_of unlink
  place_of-unlink-none j p [] h = refl
  place_of-unlink-none j p (n ∷ ns) h = ground (arith, place_of-unlink-none j p ns)

  pub Distinct-unlink : (p b : ℕ) (ns : List (Node V)) → Distinct b ns → Distinct b (unlink p ns)
  unfolding unlink
  Distinct-unlink p b [] d = tt
  Distinct-unlink p b (n ∷ ns) (x, y, z, d) = elim (Bool-cases (n.place == p)) [
    | inl e ↦ rw e (Distinct-unlink p b ns d)
    | inr e ↦ rw e (
      place_of-unlink-none n.key p ns x,
      NoPlace-unlink p n.place ns y,
      z,
      Distinct-unlink p b ns d,
    )
  ]

  Distinct-up : (b : ℕ) (ns : List (Node V)) → Distinct b ns → Distinct (suc b) ns
  Distinct-up b [] d = tt
  Distinct-up b (n ∷ ns) (x, y, z, d) = (x, y, omega arith, Distinct-up b ns d)

  NoPlace-append :
      (q : ℕ) (ns : List (Node V)) (n : Node V)
      → NoPlace q ns
      → n.place ≢ q
      → NoPlace q (ns ++ n ∷ [])
  NoPlace-append q [] n h o = (o, tt)
  NoPlace-append q (m ∷ ns) n (x, h) o = (x, NoPlace-append q ns n h o)

  pub Distinct-append :
      (b k : ℕ) (v : V) (ns : List (Node V))
      → place_of k ns ≡ none
      → Distinct b ns
      → Distinct (suc b) (ns ++ new_node b k v ∷ [])
  unfolding place_of
  Distinct-append b k v [] h d = (refl, tt, omega arith, tt)
  Distinct-append b k v (n ∷ ns) h (x, y, z, d) = (
    ground (arith, place_of-append n.key ns (new_node b k v)),
    NoPlace-append n.place ns (new_node b k v) y (λ e. omega arith),
    omega arith,
    Distinct-append b k v ns (ground arith) d,
  )

  NoPlace-assign_value :
      (p q : ℕ) (v : V) (ns : List (Node V)) → NoPlace q ns → NoPlace q (assign_value p v ns)
  unfolding assign_value
  NoPlace-assign_value p q v [] h = tt
  NoPlace-assign_value p q v (n ∷ ns) (o, h) = ground (arith, NoPlace-assign_value p q v ns)

  pub Distinct-assign_value :
      (p b : ℕ) (v : V) (ns : List (Node V)) → Distinct b ns → Distinct b (assign_value p v ns)
  unfolding assign_value
  Distinct-assign_value p b v [] d = tt
  Distinct-assign_value p b v (n ∷ ns) (x, y, z, d) = elim (Bool-cases (n.place == p)) [
    | inl e ↦ rw e (
      place_of-assign_value n.key p v ns ∙ x,
      NoPlace-assign_value p n.place v ns y,
      z,
      Distinct-assign_value p b v ns d,
    )
    | inr e ↦ rw e (
      place_of-assign_value n.key p v ns ∙ x,
      NoPlace-assign_value p n.place v ns y,
      z,
      Distinct-assign_value p b v ns d,
    )
  ]
