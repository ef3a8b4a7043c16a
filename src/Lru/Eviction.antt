-- ===== src/Lru/Eviction.antt =====
-- The loop of ensureCapacity keeps the newest entries.
use cpp_experiments.Common.{
  ℕ, zero, suc, ◌+◌, ◌-◌, ◌<◌, ◌≤◌, ◌≡◌, refl, ap, ◌∙◌, subst, Bool-cases, inl, inr, Option, none,
  some, List, [], ◌∷◌, ◌++◌, arith, ltb, length, drop, length-drop,
}
use cpp_experiments.Common.Fault.{ok}
use cpp_experiments.OrderedMap.{Node, OrderedMap, deref, unlink, new_node, find, erase_at, size}
use cpp_experiments.OrderedMap.Index.{place_of, NoPlace, Distinct, IsValid, unlink_absent}
use cpp_experiments.OrderedMap.Valid.{erase_at-IsValid}
use cpp_experiments.Lru.{Cache, erase_front, trim, ensure_capacity}

module _ {ℓ} {V : Type ℓ} where
  erase_at-nodes :
      (o : Option ℕ) (p k : ℕ) (m : OrderedMap V)
      → o ≡ some p
      → (erase_at o k m).1.nodes ≡ unlink p m.nodes
  unfolding erase_at
  erase_at-nodes none p k m h = cc
  erase_at-nodes (some q) p k m h = ground (arith, h)

  erase_front_lem :
      (ns : List (Node V)) (m : OrderedMap V)
      → m.nodes ≡ ns
      → IsValid m
      → IsValid (erase_front ns m) × ((erase_front ns m).nodes ≡ drop 1 ns)
  unfolding erase_front place_of unlink
  erase_front_lem [] m e i = (i, e)
  erase_front_lem (n ∷ ns) m e i =
      let d = subst (Distinct m.fresh) e i.distinct in
      let f : find n.key m ≡ some n.place = i.index n.key ∙ ap (place_of n.key) e ∙ ground arith in
      (
        erase_at-IsValid (find n.key m) n.key m refl i,
        erase_at-nodes (find n.key m) n.place n.key m f
            ∙ ap (unlink n.place) e
            ∙ ground (arith, unlink_absent n.place ns d.1),
      )

  drop-suc : (n : ℕ) (ns : List (Node V)) → drop n (drop 1 ns) ≡ drop (suc n) ns
  drop-suc zero [] = refl
  drop-suc (suc n) [] = refl
  drop-suc n (x ∷ ns) = refl

  drop_zero : (n : ℕ) (ns : List (Node V)) → n ≡ 0 → ns ≡ drop n ns
  drop_zero n ns h = rw h refl

  pub trim-drop :
      (rounds capacity : ℕ) (m : OrderedMap V)
      → size m ≤ capacity + rounds
      → IsValid m
      → IsValid (trim rounds capacity m)
        × ((trim rounds capacity m).nodes ≡ drop (size m - capacity) m.nodes)
  unfolding trim
  trim-drop zero capacity m h i = (i, drop_zero (size m - capacity) m.nodes (omega arith))
  trim-drop (suc rounds) capacity m h i = elim (Bool-cases (ltb capacity (size m))) [
    | inl e ↦
        let (j, f) = erase_front_lem m.nodes m refl i in
        let smaller : size (erase_front m.nodes m) ≡ size m - 1 =
          ap length f ∙ length-drop 1 m.nodes in
        let (v, g) = trim-drop rounds capacity (erase_front m.nodes m) (omega arith) j in
        let less : suc (size (erase_front m.nodes m) - capacity) ≡ size m - capacity =
          ground arith in
        rw e (
          v,
          g
              ∙ ap (drop (size (erase_front m.nodes m) - capacity)) f
              ∙ drop-suc (size (erase_front m.nodes m) - capacity) m.nodes
              ∙ ap (λ n. drop n m.nodes) less,
        )
    | inr e ↦ rw e (i, drop_zero (size m - capacity) m.nodes (ground arith))
  ]

  pub deref_last :
      (j p k : ℕ) (v : V) (ns : List (Node V))
      → j ≤ length ns
      → NoPlace p ns
      → deref p (drop j (ns ++ new_node p k v ∷ [])) ≡ ok v
  unfolding deref
  deref_last zero p k v [] h o = ground arith
  deref_last (suc j) p k v [] h o = absurd (omega arith)
  deref_last zero p k v (n ∷ ns) h (x, o) = ground (arith, deref_last 0 p k v ns (omega arith) o)
  deref_last (suc j) p k v (n ∷ ns) h (x, o) = deref_last j p k v ns (omega arith) o

  abbrev pub IsBounded : Cache V → Type 0
  IsBounded c = IsValid c.cache × (size c.cache ≤ c.capacity) × (0 < c.capacity)

  pub ensure_capacity-IsBounded :
      (c : Cache V) → 0 < c.capacity → IsValid c.cache → IsBounded (ensure_capacity c)
  ensure_capacity-IsBounded c h i =
      let (v, e) = trim-drop (size c.cache) c.capacity c.cache (omega arith) i in
      let n = ap length e ∙ length-drop (size c.cache - c.capacity) c.cache.nodes in
      (v, omega (arith, n), h)
