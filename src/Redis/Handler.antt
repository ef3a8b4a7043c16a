-- ===== src/Redis/Handler.antt =====
-- redis-server/src/CommandHandler.cpp: one function for each command, from the state and the
-- arguments to the reply and the new state. A handler reads the clock once.
pub mod SetGet
pub mod Delete
use cpp_experiments.Common.{
  ℕ, zero, suc, ◌+◌, ◌-◌, Bool, true, false, ◌&&◌, ◌||◌, not, Option, none, some, List, [], ◌∷◌,
  ◌++◌, map, leb, ltb, ◌==◌, if◌then◌else◌, length, take, drop,
}
use cpp_experiments.Common.Int.{ℤ, pos, negsuc, ◌+ℤ◌, ltb_ℤ}
use cpp_experiments.Common.Fault.{Run, ok, fault, undefined, thrown, ◌>>=◌, or_fault}
use cpp_experiments.Common.Bytes.{Bytes, codes, crlf, ◌=ᵇ◌}
use cpp_experiments.Common.Decimal.{print_ℕ, print_ℤ, all_digits, stoul, stol, long_of_text}
use cpp_experiments.Redis.Node.{
  Node, plain, variant, aggregate, Variant, Value, long, str, nullptr, variant_of, text, serialize,
  serialize_variant, memoised, remembered, push_back, push_front, all_digits_signed, deserialize,
  texts,
}
use cpp_experiments.Redis.Cache
use cpp_experiments.Redis.Cache.{
  Cache, exists, expired, get_value, set_value, get_ttl, set_ttl_s, set_ttl_ms, set_ttl_s_at,
  set_ttl_ms_at, long_result,
}

-- What a handler takes from its environment: the clock, std::regex_match against a translated
-- pattern (`none` where the pattern is rejected), and what std::from_chars returns on a range
-- that begins in one string and ends in another.
pub record Env : Type 0 where
  pub now : ℕ
  pub regex : Bytes → Option (Bytes → Bool)
  pub stray_long : Bytes → Bytes → Option ℤ

abbrev pub Handler : Type 0
Handler = Cache → Run (Bytes × Cache)

abbrev pub reply : Value → Bytes
reply v = serialize (variant (variant_of v))

abbrev pub status : Bytes → Bytes
status m = serialize (plain m true)

abbrev pub error : Bytes → Bytes
error m = serialize (plain m false)

abbrev answer : Bytes → Handler
answer b c = ok (b, c)

abbrev pub wrong_arguments : Bytes
wrong_arguments = codes "ERR wrong number of arguments for command"

abbrev pub wrong_type : Bytes
wrong_type = codes "WRONGTYPE Operation against a key holding the wrong kind of value"

-- Redis::lower
abbrev to_lower : ℕ → ℕ
to_lower c = if leb 65 c && leb c 90 then c + 32 else c

unfoldable pub lower : Bytes → Bytes
lower s = map to_lower s

unfoldable pub handle_ping : List Bytes → Handler
handle_ping (_ ∷ []) = answer (status (codes "PONG"))
handle_ping (_ ∷ m ∷ []) = answer (reply (str m))
handle_ping _ = answer (error (codes "Wrong number of arguments for 'ping' command"))

unfoldable pub handle_echo : List Bytes → Handler
handle_echo (_ ∷ m ∷ []) = answer (reply (str m))
handle_echo _ = answer (error (codes "Wrong number of arguments for 'echo' command"))

-- One round of the option loop of SET: `none` goes on to the next option.
unfoldable pub set_option : ℕ → Bytes → Bytes → Bytes → Cache → Option (Run (Bytes × Cache))
set_option now key option expiry c =
    let code = lower option in
    let done = λ (k : ℕ → Cache).
      ◌>>=◌ {B = Bytes × Cache} (stoul expiry) (λ n. ok (status (codes "OK"), k n)) in
    let valid = all_digits expiry in
    if not (
      (code =ᵇ codes "ex")
      || ((code =ᵇ codes "exat") || ((code =ᵇ codes "px") || (code =ᵇ codes "pxat"))))
    then none
    else if not valid
    then some (ok (error (codes "Invalid syntax"), c))
    else if code =ᵇ codes "ex"
    then some (done (set_ttl_s now c key))
    else if code =ᵇ codes "px"
    then some (done (set_ttl_ms now c key))
    else if code =ᵇ codes "exat"
    then some (done (set_ttl_s_at c key))
    else some (done (set_ttl_ms_at c key))

abbrev pub or_else : Option (Run (Bytes × Cache)) → Run (Bytes × Cache) → Run (Bytes × Cache)
or_else none rest = rest
or_else (some r) rest = r

unfoldable pub set_options : ℕ → Bytes → List Bytes → Handler
set_options now key (option ∷ expiry ∷ more) c =
    let rest = set_options now key (expiry ∷ more) c in
    or_else (set_option now key option expiry c) rest
set_options now key _ c = ok (status (codes "OK"), c)

unfoldable pub handle_set : ℕ → List Bytes → Handler
handle_set now (_ ∷ key ∷ value ∷ options) c =
    set_options now key options (set_value c key (variant (variant_of (str value))))
handle_set now _ c = ok (error (codes "Wrong number of arguments for 'set' command"), c)

-- The reply's serialisation is remembered in the node that stays in the cache.
unfoldable pub serialized_at : Bytes → Option Node → Cache → Bytes × Cache
serialized_at key none c = (reply nullptr, c)
serialized_at key (some node) c = (serialize node, set_value c key (remembered node))

unfoldable pub handle_get : ℕ → List Bytes → Handler
unfolding serialized_at
handle_get now (_ ∷ key ∷ []) c =
    let (found, c') = get_value now c key in ok (serialized_at key found c')
handle_get now _ c = ok (error (codes "Wrong number of arguments for 'get' command"), c)

abbrev as_number : Bool → ℕ
as_number true = 1
as_number false = 0

abbrev pub count_existing : Cache → List Bytes → ℕ
count_existing c [] = 0
count_existing c (key ∷ keys) = as_number (exists c key) + count_existing c keys

unfoldable pub handle_exists : List Bytes → Handler
handle_exists args c = ok (reply (long (pos (count_existing c (drop 1 args)))), c)

-- The loop of DEL: the count of live keys deleted, and the cache.
unfoldable pub delete_all : ℕ → List Bytes → Cache → ℕ × Cache
delete_all now [] c = (0, c)
delete_all now (key ∷ keys) c =
    let here = exists c key in
    let counted = as_number (here && not (expired now c key)) in
    let (n, c') = delete_all now keys (if here then Cache.erase c key else c) in (counted + n, c')

unfoldable pub handle_del : ℕ → List Bytes → Handler
handle_del now args c =
    let (n, c') = delete_all now (drop 1 args) c in ok (reply (long (pos n)), c')
