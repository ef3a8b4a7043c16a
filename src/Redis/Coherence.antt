-- ===== src/Redis/Coherence.antt =====
-- The remembered texts of the nodes in the cache are what their values render to.
pub mod Handlers
pub mod Lists
pub mod Requests
use cpp_experiments.Common.{
  ℕ, zero, suc, ◌+◌, ◌≡◌, refl, ap, ◌∙◌, Bool, true, false, ◌&&◌, ◌||◌, not, Option, none, some,
  List, [], ◌∷◌, ◌++◌, map, if◌then◌else◌, arith, length, inl, inr, Option-cases, Bool-cases,
}
use cpp_experiments.Common.Int.{ℤ, pos, negsuc, ◌+ℤ◌}
use cpp_experiments.Common.Fault.{Run, ok, fault, undefined, ◌>>=◌}
use cpp_experiments.Common.Bytes.{Bytes, codes, ◌=ᵇ◌}
use cpp_experiments.Common.Dict.{Dict, lookup, insert}
use cpp_experiments.Common.Dict
use cpp_experiments.Redis.Node.{
  Node, Variant, plain, variant, aggregate, variant_of, str, memoised, remembered, push_back,
  push_front,
}
use cpp_experiments.Redis.Node.RoundTrip.{IsCoherent, memoised-IsCoherent}
use cpp_experiments.Redis.Cache.{Cache, set_value, erase, purged, get_value, exists, expired}
use cpp_experiments.Redis.Lists.{push_all, memoise_range}

abbrev pub AllVariants : List Variant → Type 0
AllVariants [] = Unit {0}
AllVariants (v ∷ vs) = IsCoherent v × AllVariants vs

abbrev pub NodeIsCoherent : Node → Type 0
NodeIsCoherent (plain m e) = Unit {0}
NodeIsCoherent (variant v) = IsCoherent v
NodeIsCoherent (aggregate vs) = AllVariants vs

abbrev pub AllNodes : Dict Node → Type 0
AllNodes [] = Unit {0}
AllNodes ((key, n) ∷ es) = NodeIsCoherent n × AllNodes es

abbrev pub CacheIsCoherent : Cache → Type 0
CacheIsCoherent c = AllNodes c.nodes

insert-AllNodes :
    (key : Bytes) (n : Node) (m : Dict Node)
    → NodeIsCoherent n
    → AllNodes m
    → AllNodes (insert key n m)
unfolding insert
insert-AllNodes key n [] h all = (h, tt)
insert-AllNodes key n ((k, o) ∷ m) h all = elim (Bool-cases (k =ᵇ key)) [
  | inl e ↦ rw e (h, all.1)
  | inr e ↦ rw e (all.0, insert-AllNodes key n m h all.1)
]

erase-AllNodes : (key : Bytes) (m : Dict Node) → AllNodes m → AllNodes (Dict.erase key m)
unfolding Dict.erase
erase-AllNodes key [] all = tt
erase-AllNodes key ((k, o) ∷ m) all = elim (Bool-cases (k =ᵇ key)) [
  | inl e ↦ rw e (erase-AllNodes key m all.1)
  | inr e ↦ rw e (all.0, erase-AllNodes key m all.1)
]

lookup-AllNodes :
    (key : Bytes) (m : Dict Node) (n : Node) → lookup key m ≡ some n → AllNodes m → NodeIsCoherent n
unfolding lookup
lookup-AllNodes key [] n e all = cc
lookup-AllNodes key ((k, o) ∷ m) n e all = ground (arith, lookup-AllNodes key m n)

IsCoherent-memoised : (v : Variant) → IsCoherent v → IsCoherent (memoised v)
IsCoherent-memoised v h = rw (memoised-IsCoherent v h) (inr refl)

map-AllVariants : (vs : List Variant) → AllVariants vs → AllVariants (map memoised vs)
map-AllVariants [] h = tt
map-AllVariants (v ∷ vs) h = (IsCoherent-memoised v h.0, map-AllVariants vs h.1)

pub memoise_range-AllVariants :
    (skip rounds : ℕ) (vs : List Variant)
    → AllVariants vs
    → AllVariants (memoise_range skip rounds vs)
unfolding memoise_range
memoise_range-AllVariants zero zero [] h = tt
memoise_range-AllVariants zero (suc r) [] h = tt
memoise_range-AllVariants (suc k) r [] h = tt
memoise_range-AllVariants (suc skip) rounds (v ∷ vs) h =
    (h.0, memoise_range-AllVariants skip rounds vs h.1)
memoise_range-AllVariants zero zero (v ∷ vs) h = h
memoise_range-AllVariants zero (suc rounds) (v ∷ vs) h =
    (IsCoherent-memoised v h.0, memoise_range-AllVariants zero rounds vs h.1)

pub remembered-NodeIsCoherent : (n : Node) → NodeIsCoherent n → NodeIsCoherent (remembered n)
unfolding remembered
remembered-NodeIsCoherent (plain m e) h = tt
remembered-NodeIsCoherent (variant v) h = IsCoherent-memoised v h
remembered-NodeIsCoherent (aggregate vs) h = map-AllVariants vs h

append-AllVariants :
    (vs : List Variant) (v : Variant) → AllVariants vs → IsCoherent v → AllVariants (vs ++ v ∷ [])
append-AllVariants [] v h k = (k, tt)
append-AllVariants (w ∷ vs) v h k = (h.0, append-AllVariants vs v h.1 k)

pub push_all-AllVariants :
    (back : Bool) (args : List Bytes) (vs : List Variant)
    → AllVariants vs
    → AllVariants (push_all back args vs)
unfolding push_all push_back push_front
push_all-AllVariants back [] vs h = h
push_all-AllVariants true (a ∷ args) vs h =
    push_all-AllVariants true args _ (append-AllVariants vs (variant_of (str a)) h (inl refl))
push_all-AllVariants false (a ∷ args) vs h = push_all-AllVariants false args _ (inl refl, h)

module _ (c : Cache) (h : CacheIsCoherent c) where
  pub set_value-coherent :
      (key : Bytes) (n : Node) → NodeIsCoherent n → CacheIsCoherent (set_value c key n)
  unfolding set_value
  set_value-coherent key n k = insert-AllNodes key n c.nodes k h

  pub erase-coherent : (key : Bytes) → CacheIsCoherent (erase c key)
  unfolding erase
  erase-coherent key = erase-AllNodes key c.nodes h

  pub purged-coherent : (now : ℕ) (key : Bytes) → CacheIsCoherent (purged now c key)
  unfolding purged
  purged-coherent now key = elim (Bool-cases (expired now c key)) [
    | inl e ↦ rw e (erase-coherent key)
    | inr e ↦ rw e h
  ]

  pub lookup-coherent : (key : Bytes) (n : Node) → lookup key c.nodes ≡ some n → NodeIsCoherent n
  lookup-coherent key n e = lookup-AllNodes key c.nodes n e h
