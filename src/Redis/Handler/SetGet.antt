-- ===== src/Redis/Handler/SetGet.antt =====
-- What GET, EXISTS and DEL show of what SET stored.
use cpp_experiments.Common.{
  ℕ, ◌+◌, ◌*◌, ◌%◌, ◌^◌, ◌<◌, ◌≡◌, refl, ap, ◌∙◌, Option, none, some, [], ◌∷◌, ltb, if◌then◌else◌,
  arith,
}
use cpp_experiments.Common.Fault.{Run, ok}
use cpp_experiments.Common.Bytes.{Bytes, codes, ◌=ᵇ◌, =ᵇ-refl}
use cpp_experiments.Common.Decimal.{print_ℕ, stoul}
use cpp_experiments.Common.Decimal.Laws.{all_digits-print, from_chars-print}
use cpp_experiments.Common.Dict.{lookup, insert, lookup-erase, lookup-insert}
use cpp_experiments.Redis.Node.{Node, variant, variant_of, str, nullptr, serialize}
use cpp_experiments.Redis.Cache.{
  Cache, expired, erase, purged, get_value, set_value, set_ttl_s, set_ttl_ms, set_ttl_s_at,
  set_ttl_ms_at,
}
use cpp_experiments.Redis.Handler.{
  reply, status, lower, set_option, set_options, or_else, handle_set, serialized_at, handle_get,
}

-- The text that a handler replies with.
abbrev pub out : Run (Bytes × Cache) → Option Bytes
out (ok (b, c)) = some b
out _ = none

lookup-purged :
    (now : ℕ) (key : Bytes) (c : Cache)
    → lookup key (purged now c key).nodes ≡ (if expired now c key then none else lookup key c.nodes)
unfolding purged erase
lookup-purged now key c = ground (arith, lookup-erase key key c.nodes, =ᵇ-refl key)

abbrev shown : Option Node → Bytes
shown none = reply nullptr
shown (some n) = serialize n

-- GET replies with the node under the key, or with nil if there is none or its deadline is over.
pub get-live :
    (now : ℕ) (cmd key : Bytes) (c : Cache)
    → out (handle_get now (cmd ∷ key ∷ []) c)
      ≡ some (if expired now c key then reply nullptr else shown (lookup key c.nodes))
unfolding handle_get get_value serialized_at
get-live now cmd key c = ground (arith, lookup-purged now key c)

abbrev pub stored : Bytes → Bytes → Cache → Cache
stored key value c = set_value c key (variant (variant_of (str value)))

lookup-stored :
    (key value : Bytes) (c : Cache)
    → lookup key (stored key value c).nodes ≡ some (variant (variant_of (str value)))
unfolding set_value
lookup-stored key value c =
    ground (arith, lookup-insert key key (variant (variant_of (str value))) c.nodes, =ᵇ-refl key)

-- SET without options stores the text and leaves the deadlines as they were. A GET at the same
-- time finds the text if the key has not expired, and nil if a deadline left over from an earlier
-- value has passed.
pub get-set :
    (now : ℕ) (cmd key value : Bytes) (c : Cache)
    → (handle_set now (cmd ∷ key ∷ value ∷ []) c ≡ ok (status (codes "OK"), stored key value c))
      × (out (handle_get now (cmd ∷ key ∷ []) (stored key value c))
          ≡ some (if expired now c key then reply nullptr else reply (str value)))
unfolding handle_set set_options set_value expired
get-set now cmd key value c = (
  refl,
  get-live now cmd key (stored key value c)
      ∙ ap (λ (n : Option Node). some (if expired now c key then reply nullptr else shown n))
          (lookup-stored key value c),
)

-- The options of SET that give a deadline: seconds or milliseconds, from now or since the epoch.
pub data Expiry : Type 0 where
  ex px exat pxat : Expiry

abbrev pub expiry_code : Expiry → Bytes
expiry_code ex = codes "EX"
expiry_code px = codes "PX"
expiry_code exat = codes "EXAT"
expiry_code pxat = codes "PXAT"

abbrev pub deadline : Expiry → ℕ → ℕ → ℕ
deadline ex now n = (now + n * 1000) % 2 ^ 64
deadline px now n = (now + n) % 2 ^ 64
deadline exat now n = n * 1000 % 2 ^ 64
deadline pxat now n = n

abbrev pub timed : Bytes → Bytes → ℕ → Cache → Cache
timed key value t c = record { nodes = (stored key value c).nodes; ttl = insert key t c.ttl }

stoul-print : (n : ℕ) → n < 2 ^ 64 → stoul (print_ℕ n) ≡ ok n
unfolding stoul
stoul-print n h = rw (from_chars-print n h, stoul) refl

with_deadline : Bytes → ℕ → Cache → Cache
with_deadline key t c = record c { ttl = insert key t c.ttl }

set_option-expiry :
    (e : Expiry) (now n : ℕ) (key : Bytes) (c : Cache)
    → n < 2 ^ 64
    → set_option now key (expiry_code e) (print_ℕ n) c
      ≡ some (ok (status (codes "OK"), with_deadline key (deadline e now n) c))
unfolding set_option lower set_ttl_s set_ttl_ms set_ttl_s_at set_ttl_ms_at ◌=ᵇ◌ with_deadline
set_option-expiry ex now n key c h = rw (all_digits-print n, stoul-print n h)
set_option-expiry px now n key c h = rw (all_digits-print n, stoul-print n h)
set_option-expiry exat now n key c h = rw (all_digits-print n, stoul-print n h)
set_option-expiry pxat now n key c h = rw (all_digits-print n, stoul-print n h)

set-expiry :
    (e : Expiry) (now n : ℕ) (cmd key value : Bytes) (c : Cache)
    → n < 2 ^ 64
    → handle_set now (cmd ∷ key ∷ value ∷ expiry_code e ∷ print_ℕ n ∷ []) c
      ≡ ok (status (codes "OK"), timed key value (deadline e now n) c)
unfolding handle_set set_options with_deadline set_value
set-expiry e now n cmd key value c h =
    ap
      (λ (r : Option (Run (Bytes × Cache))).
        or_else r (ok (status (codes "OK"), stored key value c)))
      (set_option-expiry e now n key (stored key value c) h)

expired-timed :
    (later t : ℕ) (key value : Bytes) (c : Cache)
    → expired later (timed key value t c) key ≡ ltb t later
unfolding expired
expired-timed later t key value c = ground (arith, lookup-insert key key t c.ttl, =ᵇ-refl key)

-- SET with any of the four expiry options stores the text with the deadline of the option, which
-- wraps at 2^64. A GET at any later time finds the text as long as the deadline is not before that
-- time, and nil from then on.
pub get-set_expiry :
    (e : Expiry) (now later n : ℕ) (cmd key value : Bytes) (c : Cache)
    → n < 2 ^ 64
    → (handle_set now (cmd ∷ key ∷ value ∷ expiry_code e ∷ print_ℕ n ∷ []) c
        ≡ ok (status (codes "OK"), timed key value (deadline e now n) c))
      × (out (handle_get later (cmd ∷ key ∷ []) (timed key value (deadline e now n) c))
          ≡ some (if ltb (deadline e now n) later then reply nullptr else reply (str value)))
get-set_expiry e now later n cmd key value c h = (
  set-expiry e now n cmd key value c h,
  get-live later cmd key (timed key value (deadline e now n) c) ∙ (λ i. some (
      if expired-timed later (deadline e now n) key value c i
      then reply nullptr
      else shown (lookup-stored key value c i))),
)
