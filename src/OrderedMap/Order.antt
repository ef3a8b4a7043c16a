-- ===== src/OrderedMap/Order.antt =====
-- The operations of ordered_map on the list of its entries.
use cpp_experiments.Common.{
  ℕ, ◌≡◌, refl, sym, ap, ◌∙◌, Bool-cases, inl, inr, Option, none, some, List, [], ◌∷◌, ◌++◌, map,
  arith, ◌==◌, if◌then◌else◌,
}
use cpp_experiments.Common.Fault.{Run, ok, fault, thrown}
use cpp_experiments.OrderedMap.{
  Node, OrderedMap, deref, unlink, assign_value, new_node, find, insert, insert_at, erase, erase_at,
  emplace, touch, touch_at, move_back, entry, entries,
}
use cpp_experiments.OrderedMap.Index.{
  place_of, NoPlace, Distinct, IsValid, unlink_absent, NoPlace-other,
}
use cpp_experiments.OrderedMap.Valid.{
  touched, move_back-IsValid, insert_at-IsValid, emplace-IsValid, erase_at-IsValid,
}

module _ {ℓ} {V : Type ℓ} where
  -- The specification: a list of entries whose keys are distinct.
  unfoldable pub get : ℕ → List (ℕ × V) → Option V
  get k [] = none
  get k ((j, v) ∷ es) = if j == k then some v else get k es

  unfoldable pub without : ℕ → List (ℕ × V) → List (ℕ × V)
  without k [] = []
  without k ((j, v) ∷ es) = let rest = without k es in if j == k then rest else (j, v) ∷ rest

  -- The value replaced where the key is, or else a new entry at the end.
  unfoldable pub put : ℕ → V → List (ℕ × V) → List (ℕ × V)
  put k v [] = (k, v) ∷ []
  put k v ((j, w) ∷ es) = let rest = put k v es in if j == k then (j, v) ∷ es else (j, w) ∷ rest

  map_append :
      (ns : List (Node V)) (n : Node V) → map entry (ns ++ n ∷ []) ≡ map entry ns ++ entry n ∷ []
  map_append [] n = refl
  map_append (m ∷ ns) n = ap (λ t. entry m ∷ t) (map_append ns n)

  pub place-get : (k : ℕ) (ns : List (Node V)) → place_of k ns ≡ none → get k (map entry ns) ≡ none
  unfolding place_of get
  place-get k [] h = refl
  place-get k (n ∷ ns) h = ground (arith, place-get k ns)

  without_absent :
      (k : ℕ) (ns : List (Node V)) → place_of k ns ≡ none → without k (map entry ns) ≡ map entry ns
  unfolding place_of without
  without_absent k [] h = refl
  without_absent k (n ∷ ns) h = ground (arith, without_absent k ns)

  -- A place found by its key: the value there, and the list without it.
  deref-place :
      (k p b : ℕ) (ns : List (Node V))
      → Distinct b ns
      → place_of k ns ≡ some p
      → (v : V) × (deref p ns ≡ ok v) × (get k (map entry ns) ≡ some v)
  unfolding place_of deref get
  deref-place k p b [] d h = cc
  deref-place k p b (n ∷ ns) (x, y, z, d) h = elim (Bool-cases (n.key == k)) [
    | inl e ↦ (n.value, ground (arith, h), ground arith)
    | inr e ↦
        let f : place_of k ns ≡ some p = ground (arith, h) in
        let (v, g, s) = deref-place k p b ns d f in
        (v, ground (arith, g, NoPlace-other k p n.place ns y f), ground (arith, s))
  ]

  unlink-without :
      (k p b : ℕ) (ns : List (Node V))
      → Distinct b ns
      → place_of k ns ≡ some p
      → map entry (unlink p ns) ≡ without k (map entry ns)
  unfolding place_of unlink without
  unlink-without k p b [] d h = refl
  unlink-without k p b (n ∷ ns) (x, y, z, d) h = ground (
    arith,
    unlink-without k p b ns d,
    NoPlace-other k p n.place ns y,
    unlink_absent n.place ns y,
    without_absent n.key ns x,
  )

  assign_value_absent :
      (p : ℕ) (v : V) (ns : List (Node V)) → NoPlace p ns → assign_value p v ns ≡ ns
  unfolding assign_value
  assign_value_absent p v [] h = refl
  assign_value_absent p v (n ∷ ns) (o, h) = ground (arith, assign_value_absent p v ns h)

  assign_value-put :
      (k p b : ℕ) (v : V) (ns : List (Node V))
      → Distinct b ns
      → place_of k ns ≡ some p
      → map entry (assign_value p v ns) ≡ put k v (map entry ns)
  unfolding place_of assign_value put
  assign_value-put k p b v [] d h = cc
  assign_value-put k p b v (n ∷ ns) (x, y, z, d) h = elim (Bool-cases (n.key == k)) [
    | inl e ↦ ground (arith, h, assign_value_absent n.place v ns y)
    | inr e ↦
        let f : place_of k ns ≡ some p = ground (arith, h) in
        ground (arith, assign_value-put k p b v ns d f, NoPlace-other k p n.place ns y f)
  ]

  put_absent :
      (k : ℕ) (v : V) (ns : List (Node V))
      → place_of k ns ≡ none
      → put k v (map entry ns) ≡ map entry ns ++ (k, v) ∷ []
  unfolding place_of put
  put_absent k v [] h = refl
  put_absent k v (n ∷ ns) h = ground (arith, put_absent k v ns)

  insert_at-put :
      (o : Option ℕ) (k : ℕ) (v : V) (m : OrderedMap V)
      → find k m ≡ o
      → IsValid m
      → entries (insert_at o k v m) ≡ put k v (entries m)
  unfolding insert_at
  insert_at-put none k v m h i =
      map_append m.nodes (new_node m.fresh k v) ∙ sym (put_absent k v m.nodes (sym (i.index k) ∙ h))
  insert_at-put (some p) k v m h i =
      assign_value-put k p m.fresh v m.nodes i.distinct (sym (i.index k) ∙ h)

  erase_at-without :
      (o : Option ℕ) (k : ℕ) (m : OrderedMap V)
      → find k m ≡ o
      → IsValid m
      → entries (erase_at o k m).1 ≡ without k (entries m)
  unfolding erase_at
  erase_at-without none k m h i = sym (without_absent k m.nodes (sym (i.index k) ∙ h))
  erase_at-without (some p) k m h i =
      unlink-without k p m.fresh m.nodes i.distinct (sym (i.index k) ∙ h)

  -- insert keeps the table and the list in step, and on the entries it replaces the value where
  -- the key is, or appends a new entry.
  pub insert-put :
      (k : ℕ) (v : V) (m : OrderedMap V)
      → IsValid m
      → IsValid (insert k v m) × (entries (insert k v m) ≡ put k v (entries m))
  insert-put k v m i =
      (insert_at-IsValid (find k m) k v m refl i, insert_at-put (find k m) k v m refl i)

  -- emplace keeps the table and the list in step; the entries are those of the other keys in
  -- their order, then the new one.
  pub emplace-without :
      (k : ℕ) (v : V) (m : OrderedMap V)
      → IsValid m
      → IsValid (emplace k v m) × (entries (emplace k v m) ≡ without k (entries m) ++ (k, v) ∷ [])
  emplace-without k v m i = (
    emplace-IsValid k v m i,
    map_append (erase k m).1.nodes (new_node (erase k m).1.fresh k v)
        ∙ ap (λ t. t ++ (k, v) ∷ []) (erase_at-without (find k m) k m refl i),
  )

  -- erase keeps the table and the list in step and takes the key's entry away.
  pub erase-without :
      (k : ℕ) (m : OrderedMap V)
      → IsValid m
      → IsValid (erase k m).1 × (entries (erase k m).1 ≡ without k (entries m))
  erase-without k m i =
      (erase_at-IsValid (find k m) k m refl i, erase_at-without (find k m) k m refl i)

  -- What touch is to do on the entries `es`: to throw where the key is missing, and else to return
  -- its value and to move the entry to the end, the table staying in step with the list.
  abbrev pub Touched : ℕ → List (ℕ × V) → Option V → Run (V × OrderedMap V) → Type ℓ
  Touched k es none r = r ≡ fault thrown
  Touched k es (some v) r =
      (m' : OrderedMap V) × (r ≡ ok (v, m'))
      × IsValid m'
      × (entries m' ≡ without k es ++ (k, v) ∷ [])

  touch_at-Touched :
      (o : Option ℕ) (k : ℕ) (m : OrderedMap V)
      → find k m ≡ o
      → IsValid m
      → Touched k (entries m) (get k (entries m)) (touch_at o k m)
  unfolding touch_at
  touch_at-Touched none k m h i = rw (place-get k m.nodes (sym (i.index k) ∙ h)) refl
  touch_at-Touched (some p) k m h i =
      let here = sym (i.index k) ∙ h in
      let (v, e, g) = deref-place k p m.fresh m.nodes i.distinct here in
      rw (g, e)
        (
          move_back p k v m,
          refl,
          move_back-IsValid p k v m h i,
          ap (map entry) (touched k p v m h i)
              ∙ map_append (unlink p m.nodes) (new_node m.fresh k v)
              ∙ ap (λ t. t ++ (k, v) ∷ []) (unlink-without k p m.fresh m.nodes i.distinct here),
        )

  -- touch throws where the key is missing; else it returns the key's value, moves the entry to
  -- the end of the list, and keeps the table and the list in step.
  pub touch-without :
      (k : ℕ) (m : OrderedMap V) → IsValid m → Touched k (entries m) (get k (entries m)) (touch k m)
  touch-without k m i = touch_at-Touched (find k m) k m refl i
