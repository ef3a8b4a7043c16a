-- ===== src/Redis/Coherence/Handlers.antt =====
-- The commands on strings, counters and deadlines keep the remembered texts right.
use cpp_experiments.Common.{
  ℕ, ◌≡◌, refl, Bool, true, false, ◌||◌, not, Option, none, some, List, [], ◌∷◌, if◌then◌else◌,
  arith, inl, inr, Option-cases, Bool-cases,
}
use cpp_experiments.Common.Int.{ℤ, ◌+ℤ◌}
use cpp_experiments.Common.Fault.{Run, ok, fault, undefined, ◌>>=◌}
use cpp_experiments.Common.Bytes.{Bytes, codes}
use cpp_experiments.Common.Dict.{lookup}
use cpp_experiments.Common.Decimal.{stol, stoul}
use cpp_experiments.Redis.Node.{
  Node, plain, variant, aggregate, remembered, text, all_digits_signed, serialize,
}
use cpp_experiments.Redis.Cache.{
  Cache, set_value, erase, purged, get_value, exists, expired, long_result, set_ttl_s, set_ttl_ms,
  set_ttl_s_at, set_ttl_ms_at, get_ttl,
}
use cpp_experiments.Redis.Handler.{
  Handler, status, or_else, set_option, set_options, handle_set, serialized_at, handle_get,
  delete_all, handle_del,
}
use cpp_experiments.Redis.Numbers.{serialized_now, add_to_node, handle_ladd, handle_ttl}
use cpp_experiments.Redis.Coherence.{
  NodeIsCoherent, CacheIsCoherent, set_value-coherent, erase-coherent, purged-coherent,
  lookup-coherent, remembered-NodeIsCoherent,
}

-- If the run returns, the cache is coherent.
abbrev pub Ends : Run (Bytes × Cache) → Type 0
Ends (ok (out, c)) = CacheIsCoherent c
Ends (fault e) = Unit {0}

abbrev pub Keeps : Handler → Type 0
Keeps h = (c : Cache) → CacheIsCoherent c → Ends (h c)

-- What `getValue` is followed by, for each of its two outcomes.
pub get_value-Keeps :
    (now : ℕ) (key : Bytes) (missing : Handler) (found : Node → Handler)
    → Keeps missing
    → ((n : Node) → NodeIsCoherent n → Keeps (found n))
    → Keeps (λ c. elim (get_value now c key).0 [
      | none ↦ missing (get_value now c key).1
      | some n ↦ found n (get_value now c key).1
    ])
unfolding get_value
get_value-Keeps now key missing found km kf c h =
    elim (Option-cases (lookup key (purged now c key).nodes)) [
      | inl e ↦ rw e (km _ (purged-coherent c h now key))
      | inr (n, e) ↦
          let hp = purged-coherent c h now key in
          rw e (kf n (lookup-coherent (purged now c key) hp key n e) _ hp)
    ]

abbrev pub faults : Handler
faults c = fault undefined

pub Ends-if : (b : Bool) (x y : Run (Bytes × Cache)) → Ends x → Ends y → Ends (if b then x else y)
Ends-if true x y h k = h
Ends-if false x y h k = k

pub Ends-bind :
    {A : Type 0} (m : Run A) (f : A → Run (Bytes × Cache)) → ((a : A) → Ends (f a)) → Ends (m >>= f)
Ends-bind (ok a) f h = h a
Ends-bind (fault e) f h = tt

abbrev EndsOption : Option (Run (Bytes × Cache)) → Type 0
EndsOption none = Unit {0}
EndsOption (some r) = Ends r

set_option-Ends :
    (now : ℕ) (key option expiry : Bytes) (c : Cache)
    → CacheIsCoherent c
    → EndsOption (set_option now key option expiry c)
unfolding set_option set_ttl_s set_ttl_ms set_ttl_s_at set_ttl_ms_at
set_option-Ends now key option expiry c h = ground (
  arith,
  timed (set_ttl_s now c key) (λ n. h),
  timed (set_ttl_ms now c key) (λ n. h),
  timed (set_ttl_s_at c key) (λ n. h),
  timed (set_ttl_ms_at c key) (λ n. h),
)
  where
    timed :
        (k : ℕ → Cache)
        → ((n : ℕ) → CacheIsCoherent (k n))
        → Ends (◌>>=◌ {B = Bytes × Cache} (stoul expiry) (λ n. ok (status (codes "OK"), k n)))
    timed k hk = Ends-bind (stoul expiry) _ hk

or_else-Ends :
    (o : Option (Run (Bytes × Cache))) (rest : Run (Bytes × Cache))
    → EndsOption o
    → Ends rest
    → Ends (or_else o rest)
or_else-Ends none rest h k = k
or_else-Ends (some r) rest h k = h

set_options-Keeps :
    (now : ℕ) (key : Bytes) (options : List Bytes) → Keeps (set_options now key options)
unfolding set_options
set_options-Keeps now key [] c h = h
set_options-Keeps now key (o ∷ []) c h = h
set_options-Keeps now key (o ∷ e ∷ more) c h =
    or_else-Ends (set_option now key o e c) _ (set_option-Ends now key o e c h)
      (set_options-Keeps now key (e ∷ more) c h)

pub handle_set-Keeps : (now : ℕ) (args : List Bytes) → Keeps (handle_set now args)
unfolding handle_set
handle_set-Keeps now (_ ∷ key ∷ value ∷ options) c h =
    set_options-Keeps now key options _ (set_value-coherent c h key _ (inl refl))
handle_set-Keeps now [] c h = h
handle_set-Keeps now (_ ∷ []) c h = h
handle_set-Keeps now (_ ∷ _ ∷ []) c h = h

serialized_at-Ends :
    (key : Bytes) (found : Option Node) (c : Cache)
    → ((n : Node) → found ≡ some n → NodeIsCoherent n)
    → CacheIsCoherent c
    → CacheIsCoherent (serialized_at key found c).1
unfolding serialized_at
serialized_at-Ends key none c k h = h
serialized_at-Ends key (some n) c k h =
    set_value-coherent c h key _ (remembered-NodeIsCoherent n (k n refl))

pub handle_get-Keeps : (now : ℕ) (args : List Bytes) → Keeps (handle_get now args)
unfolding handle_get get_value
handle_get-Keeps now (_ ∷ key ∷ []) c h =
    let hp = purged-coherent c h now key in
    serialized_at-Ends key _ (purged now c key) (lookup-coherent (purged now c key) hp key) hp
handle_get-Keeps now [] c h = h
handle_get-Keeps now (_ ∷ []) c h = h
handle_get-Keeps now (_ ∷ _ ∷ _ ∷ _) c h = h

delete_all-coherent :
    (now : ℕ) (keys : List Bytes) (c : Cache)
    → CacheIsCoherent c
    → CacheIsCoherent (delete_all now keys c).1
unfolding delete_all
delete_all-coherent now [] c h = h
delete_all-coherent now (k ∷ ks) c h = elim (Bool-cases (exists c k)) [
  | inl e ↦ rw e (delete_all-coherent now ks (erase c k) (erase-coherent c h k))
  | inr e ↦ rw e (delete_all-coherent now ks c h)
]

pub handle_del-Keeps : (now : ℕ) (args : List Bytes) → Keeps (handle_del now args)
unfolding handle_del
handle_del-Keeps now args c h = delete_all-coherent now _ c h

serialized_now-Keeps : (now : ℕ) (key : Bytes) → Keeps (serialized_now now key)
unfolding serialized_now
serialized_now-Keeps now key =
    get_value-Keeps now key (λ c. fault undefined)
      (λ n c. ok (serialize n, set_value c key (remembered n))) (λ c h. tt)
      (λ n k c h. set_value-coherent c h key (remembered n) (remembered-NodeIsCoherent n k))

add_to_node-Keeps : (now : ℕ) (key : Bytes) (by : ℤ) (n : Node) → Keeps (add_to_node now key by n)
unfolding add_to_node
add_to_node-Keeps now key by (variant v) c h =
    Ends-if (all_digits_signed (text v)) _ _
      (Ends-bind (stol (text v)) _ (λ n.
        Ends-bind (long_result (n +ℤ by)) _
          (λ sum. serialized_now-Keeps now key _ (set_value-coherent c h key _ (inl refl)))))
      h
add_to_node-Keeps now key by (plain m e) c h = h
add_to_node-Keeps now key by (aggregate vs) c h = h

pub handle_ladd-Keeps :
    (now : ℕ) (args : List Bytes) (by : ℤ) → Keeps (λ c. handle_ladd now args by c)
unfolding handle_ladd
handle_ladd-Keeps now (_ ∷ key ∷ []) by c h =
    Ends-if (not (exists c key) || expired now c key) _ _
      (serialized_now-Keeps now key _ (set_value-coherent c h key _ (inl refl)))
      (get_value-Keeps now key faults (add_to_node now key by) (λ c h. tt)
        (λ n k. add_to_node-Keeps now key by n) c h)
handle_ladd-Keeps now [] by c h = h
handle_ladd-Keeps now (_ ∷ []) by c h = h
handle_ladd-Keeps now (_ ∷ _ ∷ _ ∷ _) by c h = h

pub handle_ttl-Keeps : (now : ℕ) (args : List Bytes) → Keeps (handle_ttl now args)
unfolding handle_ttl
handle_ttl-Keeps now (_ ∷ key ∷ []) c h = Ends-bind (get_ttl now c key) _ (λ t. h)
handle_ttl-Keeps now [] c h = h
handle_ttl-Keeps now (_ ∷ []) c h = h
handle_ttl-Keeps now (_ ∷ _ ∷ _ ∷ _) c h = h
