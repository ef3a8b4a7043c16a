-- ===== src/Lru/Bounds.antt =====
-- The memo never holds more results than its capacity.
use cpp_experiments.Common.{
  ℕ, suc, ◌≤◌, ◌≡◌, refl, sym, ap, ◌∙◌, subst, Bool-cases, inl, inr, Option, none, some, List, [],
  ◌∷◌, arith, ◌==◌, length, length-append,
}
use cpp_experiments.Common.Fault.{Run, ok, fault, thrown, ◌>>=◌}
use cpp_experiments.OrderedMap.{emplace, entries}
use cpp_experiments.OrderedMap.Index.{IsValid}
use cpp_experiments.OrderedMap.Valid.{emplace-IsValid}
use cpp_experiments.OrderedMap.Order.{get, without}
use cpp_experiments.Lru.{Cache, count, ensure_capacity, remember, call_at, call, resize}
use cpp_experiments.Lru.Eviction.{IsBounded, ensure_capacity-IsBounded}
use cpp_experiments.Lru.Calls.{length_entries, remember_lem, get-place, call_hit}

module _ {ℓ} {V : Type ℓ} where
  without_le : (k : ℕ) (es : List (ℕ × V)) → length (without k es) ≤ length es
  unfolding without
  without_le k [] = omega arith
  without_le k ((j, w) ∷ es) = ground (arith, without_le k es)

  get-without :
      (k : ℕ) (v : V) (es : List (ℕ × V))
      → get k es ≡ some v
      → suc (length (without k es)) ≤ length es
  unfolding get without
  get-without k v [] h = cc
  get-without k v ((j, w) ∷ es) h = elim (Bool-cases (j == k)) [
    | inl e ↦ rw e (omega (arith, without_le k es))
    | inr e ↦ rw e (omega (arith, get-without k v es (rw e at h)))
  ]

  -- `IsBounded` after a run that returns.
  abbrev pub Bounded : Run (V × Cache V) → Type 0
  Bounded (ok r) = IsBounded r.1
  Bounded (fault e) = Unit {0}

  module _ {κ} {K : Type κ} (hash : K → ℕ) (func : Cache V → K → Run (V × Cache V)) where
    after :
        (key : ℕ) (r : Run (V × Cache V)) → Bounded r → Bounded (r >>= λ x. remember key x.0 x.1)
    after key (fault e) b = tt
    after key (ok (v, c)) (i, s, h) = subst Bounded (sym (remember_lem key v c h i)) (
        ensure_capacity-IsBounded (record c { cache = emplace key v c.cache }) h
          (emplace-IsValid key v c.cache i))

    by_get :
        (o : Option V)
        → ((c : Cache V) (k : K) → IsBounded c → Bounded (func c k))
        → (k : K) (c : Cache V) → get (hash k) (entries c.cache) ≡ o
        → IsBounded c
        → Bounded (call hash func k c)
    unfolding call_at
    by_get none keeps k c g (i, s, h) =
        subst (λ o. Bounded (call_at hash func o k c))
          (sym (i.index (hash k) ∙ get-place (hash k) c.cache.nodes g))
          (after (hash k) (func (record c { miss = count c.miss }) k)
            (keeps (record c { miss = count c.miss }) k (i, s, h)))
    by_get (some v) keeps k c g (i, s, h) =
        let (m, t, j, e) = call_hit hash func k c v i g in
        let fewer = get-without (hash k) v (entries c.cache) g in
        let now =
          ap length e ∙ length-append (without (hash k) (entries c.cache)) ((hash k, v) ∷ []) in
        let n = length_entries m.nodes in
        let n' = length_entries c.cache.nodes in subst Bounded (sym t) (j, omega arith, h)

    -- Where the function leaves a bounded cache bounded, a call does too.
    pub call-Bounded :
        ((c : Cache V) (k : K) → IsBounded c → Bounded (func c k))
        → (k : K) (c : Cache V) → IsBounded c
        → Bounded (call hash func k c)
    call-Bounded keeps k c b = by_get (get (hash k) (entries c.cache)) keeps k c refl b

  -- resize refuses a capacity of zero; with any other the cache is within the new capacity.
  pub resize-IsBounded :
      (n : ℕ) (c : Cache V)
      → IsValid c.cache
      → (resize 0 c ≡ fault thrown)
        × ((d : Cache V) × (resize (suc n) c ≡ ok d) × IsBounded d × (d.capacity ≡ suc n))
  unfolding resize
  resize-IsBounded n c i = (
    refl,
    (
      ensure_capacity (record c { capacity = suc n }),
      ground arith,
      ensure_capacity-IsBounded (record c { capacity = suc n }) (omega arith) i,
      refl,
    ),
  )
