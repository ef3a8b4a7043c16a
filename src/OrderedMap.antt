-- ===== src/OrderedMap.antt =====
-- misc/ordered_map.hpp: `stdx::ordered_map`, a list of entries with a table of the keys' iterators.
pub mod Index
pub mod Valid
pub mod Order
pub mod Copies
pub mod Tests
use cpp_experiments.Common.{
  ℕ, suc, ◌+◌, Bool, true, false, Option, none, some, List, [], ◌∷◌, ◌++◌, map, ◌==◌, if◌then◌else◌,
  length,
}
use cpp_experiments.Common.Table
use cpp_experiments.Common.Fault.{Run, ok, fault, undefined, thrown, ◌>>=◌}

module _ {ℓ} (V : Type ℓ) where
  -- A node of the std::list; `place` is its address, which its iterator holds.
  pub record Node : Type ℓ where
    pub place : ℕ
    pub key : ℕ
    pub value : V

  -- The keys are numbers, as those of misc/cache.hpp. `fresh` is above the addresses in use.
  pub record OrderedMap : Type ℓ where
    pub lookup : List (ℕ × ℕ)
    pub nodes : List Node
    pub fresh : ℕ

module _ {ℓ} {V : Type ℓ} where
  -- The value behind an iterator; an iterator whose node is gone is undefined.
  unfoldable pub deref : ℕ → List (Node V) → Run V
  deref p [] = fault undefined
  deref p (n ∷ ns) = if n.place == p then ok n.value else deref p ns

  -- data.erase(it)
  unfoldable pub unlink : ℕ → List (Node V) → List (Node V)
  unlink p [] = []
  unlink p (n ∷ ns) = let rest = unlink p ns in if n.place == p then rest else n ∷ rest

  -- it->second = value
  unfoldable pub assign_value : ℕ → V → List (Node V) → List (Node V)
  assign_value p v [] = []
  assign_value p v (n ∷ ns) =
      let rest = assign_value p v ns in (if n.place == p then record n { value = v } else n) ∷ rest

  abbrev pub new_node : ℕ → ℕ → V → Node V
  new_node p k v = record { place = p; key = k; value = v }

  -- data.emplace_back(key, value), and lookup.emplace(key, std::prev(end()))
  abbrev pub append : ℕ → V → OrderedMap V → OrderedMap V
  append k v m = record {
    lookup = Table.emplace k m.fresh m.lookup;
    nodes = m.nodes ++ new_node m.fresh k v ∷ [];
    fresh = suc m.fresh;
  }

  unfoldable pub find : ℕ → OrderedMap V → Option ℕ
  find k m = Table.find k m.lookup

  unfoldable pub insert_at : Option ℕ → ℕ → V → OrderedMap V → OrderedMap V
  insert_at (some p) k v m = record m { nodes = assign_value p v m.nodes }
  insert_at none k v m = append k v m

  abbrev pub insert : ℕ → V → OrderedMap V → OrderedMap V
  insert k v m = insert_at (find k m) k v m

  -- The map without the key, and whether it was there.
  unfoldable pub erase_at : Option ℕ → ℕ → OrderedMap V → Bool × OrderedMap V
  erase_at none k m = (false, m)
  erase_at (some p) k m =
      (true, record m { lookup = Table.erase k m.lookup; nodes = unlink p m.nodes })

  abbrev pub erase : ℕ → OrderedMap V → Bool × OrderedMap V
  erase k m = erase_at (find k m) k m

  abbrev pub emplace : ℕ → V → OrderedMap V → OrderedMap V
  emplace k v m = append k v (erase k m).1

  -- A new node at the end of the list, the old one erased.
  abbrev pub move_back : ℕ → ℕ → V → OrderedMap V → OrderedMap V
  move_back p k v m = record {
    lookup = Table.assign k m.fresh m.lookup;
    nodes = unlink p (m.nodes ++ new_node m.fresh k v ∷ []);
    fresh = suc m.fresh;
  }

  -- The entry moved to the end of the list, with the value moved out of the old node.
  unfoldable pub touch_at : Option ℕ → ℕ → OrderedMap V → Run (V × OrderedMap V)
  touch_at none k m = fault thrown
  touch_at (some p) k m = deref p m.nodes >>= λ v. ok (v, move_back p k v m)

  abbrev pub touch : ℕ → OrderedMap V → Run (V × OrderedMap V)
  touch k m = touch_at (find k m) k m

  unfoldable pub at_place : Option ℕ → OrderedMap V → Run V
  at_place none m = fault thrown
  at_place (some p) m = deref p m.nodes

  abbrev pub at : ℕ → OrderedMap V → Run V
  at k m = at_place (find k m) m

  -- The copy is read, then lookup.erase(it) frees the iterator that data.erase reads.
  unfoldable pub extract_at : Option ℕ → OrderedMap V → Run (Option V × OrderedMap V)
  extract_at none m = ok (none, m)
  extract_at (some p) m = deref p m.nodes >>= λ _. fault undefined

  abbrev pub extract : ℕ → OrderedMap V → Run (Option V × OrderedMap V)
  extract k m = extract_at (find k m) m

  abbrev pub size : OrderedMap V → ℕ
  size m = length m.nodes

  abbrev pub empty : OrderedMap V
  empty = record { lookup = []; nodes = []; fresh = 0 }

  -- The nodes of a copied list, at addresses from `p` on.
  unfoldable pub copies : ℕ → List (Node V) → List (Node V)
  copies p [] = []
  copies p (n ∷ ns) = record n { place = p } ∷ copies (suc p) ns

  -- lookup.emplace for each node of the list.
  unfoldable pub index_all : List (Node V) → List (ℕ × ℕ) → List (ℕ × ℕ)
  index_all [] t = t
  index_all (n ∷ ns) t = index_all ns (Table.emplace n.key n.place t)

  -- operator=(const ordered_map &): the new nodes are indexed on top of the old table.
  unfoldable pub copy_assign : OrderedMap V → OrderedMap V → OrderedMap V
  copy_assign m other =
      let nodes = copies m.fresh other.nodes in
      record {
        lookup = index_all nodes m.lookup;
        nodes = nodes;
        fresh = m.fresh + length other.nodes;
      }

  -- ordered_map(const ordered_map &)
  abbrev pub copy : OrderedMap V → OrderedMap V
  copy other = copy_assign empty other

  -- ordered_map(std::initializer_list), one insert after the other.
  unfoldable pub insert_all : List (ℕ × V) → OrderedMap V → OrderedMap V
  insert_all [] m = m
  insert_all ((k, v) ∷ kvs) m = insert_all kvs (insert k v m)

  unfoldable pub subscript_at : Option ℕ → V → ℕ → OrderedMap V → Run (V × OrderedMap V)
  subscript_at (some p) d k m = deref p m.nodes >>= λ v. ok (v, m)
  subscript_at none d k m = at k (insert k d m) >>= λ v. ok (v, insert k d m)

  -- operator[], where `d` is the value that V{} makes.
  abbrev pub subscript : V → ℕ → OrderedMap V → Run (V × OrderedMap V)
  subscript d k m = subscript_at (find k m) d k m

  -- The abstract view: the entries in the order of the list.
  abbrev pub entry : Node V → ℕ × V
  entry n = (n.key, n.value)

  abbrev pub entries : OrderedMap V → List (ℕ × V)
  entries m = map entry m.nodes
