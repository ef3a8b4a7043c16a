-- ===== src/OrderedMap/Valid.antt =====
-- The operations of ordered_map keep its table and its list in step.
use cpp_experiments.Common.{
  ℕ, ◌<◌, ◌≡◌, ◌≢◌, refl, sym, ap, ◌∙◌, Option, none, some, List, [], ◌∷◌, ◌++◌, arith, ◌==◌,
  if◌then◌else◌,
}
use cpp_experiments.Common.Table
use cpp_experiments.OrderedMap.{
  Node, OrderedMap, unlink, new_node, append, find, insert_at, erase, erase_at, emplace, move_back,
  empty,
}
use cpp_experiments.OrderedMap.Index.{
  place_of, Distinct, IsValid, place_of-append, place_of-assign_value, place_of-unlink,
  Distinct-unlink, Distinct-append, Distinct-assign_value,
}

module _ {ℓ} {V : Type ℓ} where
  pub empty-IsValid : IsValid (empty {V = V})
  unfolding find place_of Table.find
  empty-IsValid = record { index = λ k. refl; distinct = tt }

  pub append-IsValid :
      (k : ℕ) (v : V) (m : OrderedMap V) → find k m ≡ none → IsValid m → IsValid (append k v m)
  unfolding find
  append-IsValid k v m h i = record {
    index = λ j.
        Table.find-emplace k m.fresh j m.lookup h
        ∙ sym (
            place_of-append j m.nodes (new_node m.fresh k v) (sym (i.index k) ∙ h)
            ∙ ap (λ o. if k == j then some m.fresh else o) (sym (i.index j)));
    distinct = Distinct-append m.fresh k v m.nodes (sym (i.index k) ∙ h) i.distinct;
  }

  pub insert_at-IsValid :
      (o : Option ℕ) (k : ℕ) (v : V) (m : OrderedMap V)
      → find k m ≡ o
      → IsValid m
      → IsValid (insert_at o k v m)
  unfolding insert_at find
  insert_at-IsValid none k v m h i = append-IsValid k v m h i
  insert_at-IsValid (some p) k v m h i = record {
    index = λ j. i.index j ∙ sym (place_of-assign_value j p v m.nodes);
    distinct = Distinct-assign_value p m.fresh v m.nodes i.distinct;
  }

  pub erase_at-IsValid :
      (o : Option ℕ) (k : ℕ) (m : OrderedMap V)
      → find k m ≡ o
      → IsValid m
      → IsValid (erase_at o k m).1
  unfolding erase_at find
  erase_at-IsValid none k m h i = i
  erase_at-IsValid (some p) k m h i = record {
    index = λ j.
        Table.find-erase k j m.lookup
        ∙ ap (λ o. if k == j then none else o) (i.index j)
        ∙ sym (place_of-unlink k p m.fresh j m.nodes i.distinct (sym (i.index k) ∙ h));
    distinct = Distinct-unlink p m.fresh m.nodes i.distinct;
  }

  pub erase-find :
      (o : Option ℕ) (k j : ℕ) (m : OrderedMap V)
      → find k m ≡ o
      → find j (erase_at o k m).1 ≡ (if k == j then none else find j m)
  unfolding erase_at find
  erase-find none k j m h = ground (arith, h)
  erase-find (some p) k j m h = Table.find-erase k j m.lookup

  pub emplace-IsValid : (k : ℕ) (v : V) (m : OrderedMap V) → IsValid m → IsValid (emplace k v m)
  emplace-IsValid k v m i =
      append-IsValid k v (erase k m).1 (ground (arith, erase-find (find k m) k k m refl))
        (erase_at-IsValid (find k m) k m refl i)

  pub place_of_bound :
      (k p b : ℕ) (ns : List (Node V)) → Distinct b ns → place_of k ns ≡ some p → p < b
  unfolding place_of
  place_of_bound k p b [] d h = cc
  place_of_bound k p b (n ∷ ns) (x, y, z, d) h = ground (arith, place_of_bound k p b ns d)

  pub unlink-append :
      (p : ℕ) (ns : List (Node V)) (n : Node V)
      → n.place ≢ p
      → unlink p (ns ++ n ∷ []) ≡ unlink p ns ++ n ∷ []
  unfolding unlink
  unlink-append p [] n o = ground (arith, o)
  unlink-append p (m ∷ ns) n o = ground (arith, unlink-append p ns n o)

  -- The nodes after a touch: the old node is gone and the new one is the last.
  pub touched :
      (k p : ℕ) (v : V) (m : OrderedMap V)
      → find k m ≡ some p
      → IsValid m
      → unlink p (m.nodes ++ new_node m.fresh k v ∷ [])
        ≡ unlink p m.nodes ++ new_node m.fresh k v ∷ []
  touched k p v m h i =
      let b = place_of_bound k p m.fresh m.nodes i.distinct (sym (i.index k) ∙ h) in
      unlink-append p m.nodes (new_node m.fresh k v) (λ e. omega arith)

  pub move_back-IsValid :
      (p k : ℕ) (v : V) (m : OrderedMap V)
      → find k m ≡ some p
      → IsValid m
      → IsValid (move_back p k v m)
  unfolding find
  move_back-IsValid p k v m h i =
      let here = sym (i.index k) ∙ h in
      let gone : place_of k (unlink p m.nodes) ≡ none =
        ground (arith, place_of-unlink k p m.fresh k m.nodes i.distinct here) in
      record {
        index = λ j. ground (
          arith,
          Table.find-assign k m.fresh j m.lookup,
          place_of-append j (unlink p m.nodes) (new_node m.fresh k v) gone,
          place_of-unlink k p m.fresh j m.nodes i.distinct here,
          i.index j,
          touched k p v m h i,
        );
        distinct = rw (touched k p v m h i) (
            Distinct-append m.fresh k v (unlink p m.nodes) gone
              (Distinct-unlink p m.fresh m.nodes i.distinct));
      }
