-- ===== src/OrderedMap/Copies.antt =====
-- A copy by `=` of an ordered_map leaves the old iterators in the table.
use cpp_experiments.Common.{ℕ, suc, ◌<◌, ◌≡◌, refl, sym, ◌∙◌, some, List, [], ◌∷◌, arith}
use cpp_experiments.Common.Table
use cpp_experiments.Common.Fault.{fault, undefined}
use cpp_experiments.OrderedMap.{
  Node, OrderedMap, deref, find, at, at_place, copies, index_all, copy_assign,
}
use cpp_experiments.OrderedMap.Index.{IsValid}
use cpp_experiments.OrderedMap.Valid.{place_of_bound}

find-emplace_kept :
    (k p j q : ℕ) (t : List (ℕ × ℕ))
    → Table.find j t ≡ some q
    → Table.find j (Table.emplace k p t) ≡ some q
unfolding Table.find Table.emplace
find-emplace_kept k p j q [] h = cc
find-emplace_kept k p j q ((i, r) ∷ t) h = ground (arith, find-emplace_kept k p j q t)

module _ {ℓ} {V : Type ℓ} where
  index_all_kept :
      (j q : ℕ) (ns : List (Node V)) (t : List (ℕ × ℕ))
      → Table.find j t ≡ some q
      → Table.find j (index_all ns t) ≡ some q
  unfolding index_all
  index_all_kept j q [] t h = h
  index_all_kept j q (n ∷ ns) t h =
      index_all_kept j q ns (Table.emplace n.key n.place t)
        (find-emplace_kept n.key n.place j q t h)

  deref-copies : (p q : ℕ) (ns : List (Node V)) → p < q → deref p (copies q ns) ≡ fault undefined
  unfolding deref copies
  deref-copies p q [] h = refl
  deref-copies p q (n ∷ ns) h = ground (arith, deref-copies p (suc q) ns (omega arith))

  -- After `m = other` a key that `m` held before is still looked up at its old node, which is
  -- gone: reading it is undefined, whether or not `other` holds the key.
  pub at-copy_assign :
      (k p : ℕ) (m other : OrderedMap V)
      → IsValid m
      → find k m ≡ some p
      → at k (copy_assign m other) ≡ fault undefined
  unfolding find copy_assign at_place
  at-copy_assign k p m other i h =
      let b = place_of_bound k p m.fresh m.nodes i.distinct (sym (i.index k) ∙ h) in
      rw (index_all_kept k p (copies m.fresh other.nodes) m.lookup h)
        (deref-copies p m.fresh other.nodes b)
