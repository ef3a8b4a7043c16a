-- ===== src/Redis/Coherence/Lists.antt =====
-- The commands on lists keep the remembered texts right.
use cpp_experiments.Common.{
  ℕ, ◌≡◌, refl, Bool, true, false, ◌&&◌, ◌||◌, not, Option, none, some, List, [], ◌∷◌,
  if◌then◌else◌,
}
use cpp_experiments.Common.Int.{ℤ}
use cpp_experiments.Common.Fault.{ok}
use cpp_experiments.Common.Bytes.{Bytes}
use cpp_experiments.Common.Decimal.{long_of_text}
use cpp_experiments.Redis.Node.{Node, plain, variant, aggregate}
use cpp_experiments.Redis.Cache.{Cache, set_value, purged, get_value, exists, expired}
use cpp_experiments.Redis.Handler.{Env}
use cpp_experiments.Redis.Lists.{
  gather, range_of_node, range_of_key, range_parsed, handle_lrange, push_into, handle_push,
  length_of_node, handle_llen,
}
use cpp_experiments.Redis.Coherence.{
  NodeIsCoherent, CacheIsCoherent, set_value-coherent, purged-coherent, lookup-coherent,
  push_all-AllVariants, memoise_range-AllVariants,
}
use cpp_experiments.Redis.Coherence.Handlers.{
  Ends-if, Ends-bind, Ends, Keeps, get_value-Keeps, faults,
}

range_of_node-Keeps :
    (key : Bytes) (left right : ℤ) (n : Node)
    → NodeIsCoherent n
    → Keeps (range_of_node key left right n)
unfolding range_of_node
range_of_node-Keeps key left right (aggregate vs) k c h =
    Ends-bind (gather _ _ vs) _
      (λ body. set_value-coherent c h key _ (memoise_range-AllVariants _ _ vs k))
range_of_node-Keeps key left right (plain m e) k c h = h
range_of_node-Keeps key left right (variant v) k c h = h

range_of_key-Keeps :
    (now : ℕ) (key : Bytes) (left right : ℤ) → Keeps (range_of_key now key left right)
unfolding range_of_key
range_of_key-Keeps now key left right c h =
    Ends-if (not (exists c key) || expired now c key) _ _ h (
      get_value-Keeps now key faults (range_of_node key left right) (λ c h. tt)
        (range_of_node-Keeps key left right) c h)

range_parsed-Keeps :
    (now : ℕ) (key : Bytes) (left right : Option ℤ) → Keeps (range_parsed now key left right)
unfolding range_parsed
range_parsed-Keeps now key (some l) (some r) c h = range_of_key-Keeps now key l r c h
range_parsed-Keeps now key none none c h = h
range_parsed-Keeps now key none (some r) c h = h
range_parsed-Keeps now key (some l) none c h = h

pub handle_lrange-Keeps : (env : Env) (args : List Bytes) → Keeps (handle_lrange env args)
unfolding handle_lrange
handle_lrange-Keeps env (_ ∷ key ∷ left ∷ right ∷ []) c h =
    range_parsed-Keeps env.now key (long_of_text left) (env.stray_long right left) c h
handle_lrange-Keeps env [] c h = h
handle_lrange-Keeps env (_ ∷ []) c h = h
handle_lrange-Keeps env (_ ∷ _ ∷ []) c h = h
handle_lrange-Keeps env (_ ∷ _ ∷ _ ∷ []) c h = h
handle_lrange-Keeps env (_ ∷ _ ∷ _ ∷ _ ∷ _ ∷ _) c h = h

push_into-Ends :
    (key : Bytes) (args : List Bytes) (back : Bool) (found : Option Node) (c : Cache)
    → ((n : Node) → found ≡ some n → NodeIsCoherent n)
    → CacheIsCoherent c
    → Ends (push_into key args back found c)
unfolding push_into
push_into-Ends key args back none c k h = tt
push_into-Ends key args back (some (aggregate vs)) c k h =
    set_value-coherent c h key _ (push_all-AllVariants back args vs (k (aggregate vs) refl))
push_into-Ends key args back (some (plain m e)) c k h = tt
push_into-Ends key args back (some (variant v)) c k h = tt

pub handle_push-Keeps :
    (now : ℕ) (args : List Bytes) (back : Bool) → Keeps (λ c. handle_push now args back c)
unfolding handle_push get_value
handle_push-Keeps now (_ ∷ key ∷ a ∷ args) back c h = Ends-if _ (ok _) _ h (
    push_into-Ends key (a ∷ args) back _ (purged now c₀ key)
      (lookup-coherent (purged now c₀ key) hp key) hp)
  where
    c₀ : Cache
    c₀ = if exists c key && not (expired now c key) then c else set_value c key (aggregate [])

    h₀ : (b : Bool) → CacheIsCoherent (if b then c else set_value c key (aggregate []))
    h₀ true = h
    h₀ false = set_value-coherent c h key (aggregate []) tt

    hp : CacheIsCoherent (purged now c₀ key)
    hp = purged-coherent c₀ (h₀ (exists c key && not (expired now c key))) now key
handle_push-Keeps now [] back c h = h
handle_push-Keeps now (_ ∷ []) back c h = h
handle_push-Keeps now (_ ∷ _ ∷ []) back c h = h

length_of_node-Keeps : (n : Node) → Keeps (length_of_node n)
unfolding length_of_node
length_of_node-Keeps (aggregate vs) c h = h
length_of_node-Keeps (plain m e) c h = h
length_of_node-Keeps (variant v) c h = h

pub handle_llen-Keeps : (now : ℕ) (args : List Bytes) → Keeps (handle_llen now args)
unfolding handle_llen
handle_llen-Keeps now (_ ∷ key ∷ []) c h =
    Ends-if (not (exists c key) || expired now c key) _ _ h (
      get_value-Keeps now key faults length_of_node (λ c h. tt) (λ n k. length_of_node-Keeps n) c h)
handle_llen-Keeps now [] c h = h
handle_llen-Keeps now (_ ∷ []) c h = h
handle_llen-Keeps now (_ ∷ _ ∷ _ ∷ _) c h = h
