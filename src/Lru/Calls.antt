-- ===== src/Lru/Calls.antt =====
-- A call of the memo: what it returns, and the order in which it keeps the results.
use cpp_experiments.Common.{
  ℕ, zero, suc, ◌-◌, ◌<◌, ◌≡◌, refl, sym, ap, ◌∙◌, subst, Option, none, some, List, [], ◌∷◌, ◌++◌,
  map, arith, length, drop, length-append,
}
use cpp_experiments.Common.Fault.{Run, ok, ◌>>=◌}
use cpp_experiments.OrderedMap.{
  Node, OrderedMap, deref, new_node, find, erase, emplace, touch, size, entry, entries,
}
use cpp_experiments.OrderedMap.Index.{place_of, NoPlace-bound, IsValid}
use cpp_experiments.OrderedMap.Valid.{emplace-IsValid}
use cpp_experiments.OrderedMap.Order.{
  get, without, emplace-without, erase-without, touch-without, place-get, Touched,
}
use cpp_experiments.Lru.{Cache, count, ensure_capacity, inserted, remember, call_at, call}
use cpp_experiments.Lru.Eviction.{trim-drop, deref_last}

module _ {ℓ} {V : Type ℓ} where
  map-drop : (n : ℕ) (ns : List (Node V)) → map entry (drop n ns) ≡ drop n (map entry ns)
  map-drop zero ns = refl
  map-drop (suc n) [] = refl
  map-drop (suc n) (x ∷ ns) = map-drop n ns

  pub length_entries : (ns : List (Node V)) → length (map entry ns) ≡ length ns
  length_entries [] = refl
  length_entries (x ∷ ns) = ap suc (length_entries ns)

  -- The newest entries that the capacity lets stay.
  abbrev pub newest : ℕ → List (ℕ × V) → List (ℕ × V)
  newest capacity es = drop (length es - capacity) es

  ensure_capacity-newest :
      (c : Cache V)
      → IsValid c.cache
      → entries (ensure_capacity c).cache ≡ newest c.capacity (entries c.cache)
  ensure_capacity-newest c i =
      let (v, e) = trim-drop (size c.cache) c.capacity c.cache (omega arith) i in
      ap (map entry) e
      ∙ map-drop (size c.cache - c.capacity) c.cache.nodes
      ∙ ap (λ n. drop (n - c.capacity) (entries c.cache)) (sym (length_entries c.cache.nodes))

  pub remember_lem :
      (key : ℕ) (v : V) (c : Cache V)
      → 0 < c.capacity
      → IsValid c.cache
      → remember key v c ≡ ok (v, ensure_capacity (record c { cache = emplace key v c.cache }))
  unfolding inserted
  remember_lem key v c h i =
      let old = (erase key c.cache).1 in
      let m = emplace key v c.cache in
      let (j, e) =
        trim-drop (size m) c.capacity m (omega arith) (emplace-IsValid key v c.cache i) in
      let fits = length-append old.nodes (new_node old.fresh key v ∷ []) in
      let o =
        NoPlace-bound old.fresh old.fresh old.nodes (erase-without key c.cache i).0.distinct
          (omega arith) in
      let d : deref old.fresh (drop (size m - c.capacity) m.nodes) ≡ ok v =
        deref_last (size m - c.capacity) old.fresh key v old.nodes (omega arith) o in
      rw (e, d) refl

  pub get-place : (k : ℕ) (ns : List (Node V)) → get k (map entry ns) ≡ none → place_of k ns ≡ none
  unfolding get place_of
  get-place k [] h = refl
  get-place k (n ∷ ns) h = ground (arith, get-place k ns)

  find-some :
      (o : Option ℕ) (k : ℕ) (v : V) (m : OrderedMap V)
      → find k m ≡ o
      → IsValid m
      → get k (entries m) ≡ some v
      → (p : ℕ) × (o ≡ some p)
  find-some none k v m f i g = absurd (cc (place-get k m.nodes (sym (i.index k) ∙ f), g))
  find-some (some p) k v m f i g = (p, refl)

  module _ {κ} {K : Type κ} (hash : K → ℕ) (func : Cache V → K → Run (V × Cache V)) where
    -- On a key that is not remembered the function runs, once the miss is counted, on the cache
    -- itself. Where it returns a value and a cache that is in step and has room for an entry, the
    -- call returns that value, and the cache holds the newest entries that its capacity allows of
    -- these: the entries that the function has left, less one of the same key, and then the value.
    pub call_miss :
        (k : K) (c c' : Cache V) (v : V)
        → IsValid c.cache
        → get (hash k) (entries c.cache) ≡ none
        → func (record c { miss = count c.miss }) k ≡ ok (v, c')
        → 0 < c'.capacity
        → IsValid c'.cache
        → (d : Cache V) × (call hash func k c ≡ ok (v, d))
          × (entries d.cache
              ≡ newest c'.capacity (without (hash k) (entries c'.cache) ++ (hash k, v) ∷ []))
    unfolding call_at
    call_miss k c c' v j g e h i =
        let f = j.index (hash k) ∙ get-place (hash k) c.cache.nodes g in
        let m = record c' { cache = emplace (hash k) v c'.cache } in
        (
          ensure_capacity m,
          rw (f, e) (remember_lem (hash k) v c' h i),
          ensure_capacity-newest m (emplace-IsValid (hash k) v c'.cache i)
              ∙ ap (newest c'.capacity) (emplace-without (hash k) v c'.cache i).1,
        )

    -- On a key that is remembered the call returns the value kept, without running the function,
    -- counts a hit, and moves the entry to the end of the order; no entry is lost.
    pub call_hit :
        (k : K) (c : Cache V) (v : V)
        → IsValid c.cache
        → get (hash k) (entries c.cache) ≡ some v
        → (m : OrderedMap V) × (call hash func k c
            ≡ ok (v, record c { cache = m; hits = count c.hits }))
          × IsValid m
          × (entries m ≡ without (hash k) (entries c.cache) ++ (hash k, v) ∷ [])
    unfolding call_at
    call_hit k c v i g =
        let (p, f) = find-some (find (hash k) c.cache) (hash k) v c.cache refl i g in
        let (m, t, j, e) =
          subst (λ o. Touched (hash k) (entries c.cache) o (touch (hash k) c.cache)) g
            (touch-without (hash k) c.cache i) in
        (
          m,
          rw f (ap (λ r. r >>= λ x. ok (x.0, record c { cache = x.1; hits = count c.hits })) t),
          j,
          e,
        )
