-- ===== src/Redis/Tests.antt =====
-- Runs of the server's parts on concrete data.
use cpp_experiments.Common.{
  ℕ, ◌≤◌, ◌≡◌, ◌&&◌, not, refl, inl, true, false, none, some, List, [], ◌∷◌, ◌++◌, arith, ltb,
  if◌then◌else◌,
}
use cpp_experiments.Common.Int.{pos, negsuc, ◌+ℤ◌}
use cpp_experiments.Common.Fault.{ok, fault, undefined}
use cpp_experiments.Common.Bytes.{Bytes, codes, ◌=ᵇ◌}
use cpp_experiments.Common.Dict.{lookup, insert}
use cpp_experiments.Common.Decimal.{print_ℕ, print_ℤ, digits}
use cpp_experiments.Redis.Node.{
  Node, variant, aggregate, Variant, str, long, nullptr, variant_of, serialize, serialize_variant,
  render, text, deserialize, remembered,
}
use cpp_experiments.Redis.Node.Whole.{restored, deserialize-serialize}
use cpp_experiments.Redis.Cache.{Cache, exists, expired, set_value}
use cpp_experiments.Redis.Handler.{reply, status, handle_set, handle_get, handle_del}
use cpp_experiments.Redis.Handler.SetGet.{
  out, stored, timed, deadline, px, expiry_code, get-live, get-set, get-set_expiry,
}
use cpp_experiments.Redis.Handler.Delete.{contains, exists-del}
use cpp_experiments.Redis.Numbers.{handle_ladd}
use cpp_experiments.Redis.Numbers.Incr.{number, ladd-expired, ladd-live}
use cpp_experiments.Redis.Lists.{handle_push, handle_llen, range_of_node, memoise_range}
use cpp_experiments.Redis.Lists.Range.{slice_reply, range-slice, range_before}
use cpp_experiments.Redis.Lists.Push.{HoldsList, pushed, push_live, push_expired, llen_live}
use cpp_experiments.Redis.Dump.{dump_bytes, load}
use cpp_experiments.Redis.Dump.Reload.{loaded, load-dump, load_garbage}
use cpp_experiments.Redis.Dispatch.{World, State, forked, handle_request}
use cpp_experiments.Redis.Coherence.Requests.{StateEnds, handle_request-coherent}
use cpp_experiments.Redis.Server.{complete, incomplete, judge, Client, pollout, on_writable}
use cpp_experiments.Redis.Server.Framing.{command, framed, judge-command, judge-bulk}
use cpp_experiments.Redis.Server.Delivery.{deliver, pending, Fits, deliver-pending}

abbrev key : Bytes
key = codes "k"

abbrev text_node : Bytes → Node
text_node s = variant (variant_of (str s))

-- The key holds 7 and expires at 100.
abbrev cache : Cache
cache = record { nodes = (key, text_node (codes "7")) ∷ []; ttl = (key, 100) ∷ [] }

abbrev two_texts : List Variant
two_texts = variant_of (str (codes "a")) ∷ variant_of (str (codes "b")) ∷ []

-- The key holds a list of two texts and does not expire.
abbrev list_cache : Cache
list_cache = record { nodes = (key, aggregate two_texts) ∷ []; ttl = [] }

deserialize-serialize_example :
    deserialize (serialize (text_node key)) ≡ ok (restored (text_node key))
unfolding serialize print_ℕ digits serialize_variant render
deserialize-serialize_example = deserialize-serialize (text_node key) (inl refl, tt) (omega arith)

load-dump_example :
    load 0 9 (dump_bytes 5 cache) cache ≡ ok (true, loaded cache.ttl cache.nodes cache)
unfolding serialize print_ℕ digits lookup serialize_variant render ◌=ᵇ◌
load-dump_example =
    load-dump 5 9 cache cache (omega arith, (inl refl, tt), omega arith, omega arith, tt)
      (omega arith) (omega arith) (omega arith)

load_garbage_example : load 1 9 (codes "REDIS0003") cache ≡ ok (false, cache)
load_garbage_example = load_garbage 1 9 (codes "REDIS0003") cache (λ e. omega arith) (omega arith)

get-live_example :
    out (handle_get 50 (codes "GET" ∷ key ∷ []) cache)
    ≡ some (if expired 50 cache key then reply nullptr else serialize (text_node (codes "7")))
unfolding lookup serialize ◌=ᵇ◌
get-live_example = get-live 50 (codes "GET") key cache

get-set_example :
    (handle_set 200 (codes "SET" ∷ key ∷ codes "x" ∷ []) cache
      ≡ ok (status (codes "OK"), stored key (codes "x") cache))
    × (out (handle_get 200 (codes "SET" ∷ key ∷ []) (stored key (codes "x") cache))
        ≡ some (if expired 200 cache key then reply nullptr else reply (str (codes "x"))))
get-set_example = get-set 200 (codes "SET") key (codes "x") cache

get-set_expiry_example :
    (handle_set 5 (codes "SET" ∷ key ∷ codes "x" ∷ expiry_code px ∷ print_ℕ 20 ∷ []) cache
      ≡ ok (status (codes "OK"), timed key (codes "x") (deadline px 5 20) cache))
    × (out (handle_get 26 (codes "SET" ∷ key ∷ []) (timed key (codes "x") (deadline px 5 20) cache))
        ≡ some (if ltb (deadline px 5 20) 26 then reply nullptr else reply (str (codes "x"))))
get-set_expiry_example = get-set_expiry px 5 26 20 (codes "SET") key (codes "x") cache (omega arith)

exists-del_example :
    (n : ℕ) × (c' : Cache) × (handle_del 5 (codes "DEL" ∷ key ∷ []) cache
      ≡ ok (reply (long (pos n)), c'))
    × (n ≤ 1)
    × ((j : Bytes) → exists c' j ≡ (exists cache j && not (contains j (key ∷ []))))
exists-del_example = exists-del 5 (codes "DEL") (key ∷ []) cache

ladd-expired_case : handle_ladd 101 (codes "INCR" ∷ key ∷ []) (pos 1) cache ≡ fault undefined
unfolding expired lookup ◌=ᵇ◌
ladd-expired_case = ladd-expired 101 (codes "INCR") key (pos 1) cache refl

ladd-live_case :
    handle_ladd 5 (codes "INCR" ∷ key ∷ []) (pos 1) cache
    ≡ ok (serialize (number (pos 8)), set_value cache key (remembered (number (pos 8))))
unfolding expired lookup insert ◌=ᵇ◌ text print_ℤ print_ℕ digits ◌+ℤ◌ set_value
ladd-live_case =
    ladd-live 5 (codes "INCR") key (pos 1) (pos 7) (variant_of (str (codes "7"))) cache refl refl
      refl (omega arith) refl

range-slice_example :
    range_of_node key (pos 0) (negsuc 0) (aggregate two_texts) list_cache
    ≡ ok (
      slice_reply 0 1 two_texts,
      set_value list_cache key (aggregate (memoise_range 0 2 two_texts)),
    )
range-slice_example =
    range-slice key (pos 0) (negsuc 0) two_texts list_cache (omega arith) (omega arith)

range_before_case :
    range_of_node key (pos 0) (negsuc 2) (aggregate two_texts) list_cache ≡ fault undefined
range_before_case =
    range_before key (pos 0) 2 two_texts list_cache (omega arith) (omega arith) (omega arith)

push_live_case :
    (c' : Cache) × (handle_push 5 (codes "RPUSH" ∷ key ∷ codes "c" ∷ []) true list_cache
      ≡ ok (reply (long (pos 1)), c'))
    × HoldsList 5 c' key (pushed true (codes "c" ∷ []) two_texts)
unfolding expired lookup ◌=ᵇ◌
push_live_case =
    push_live 5 (codes "RPUSH") key (codes "c") [] true list_cache two_texts (refl, inl refl)

push_expired_case :
    handle_push 101 (codes "RPUSH" ∷ key ∷ codes "c" ∷ []) true cache ≡ fault undefined
unfolding expired lookup ◌=ᵇ◌
push_expired_case = push_expired 101 (codes "RPUSH") key (codes "c") [] true cache refl

llen_of_two :
    handle_llen 5 (codes "LLEN" ∷ key ∷ []) list_cache ≡ ok (reply (long (pos 2)), list_cache)
unfolding expired lookup ◌=ᵇ◌
llen_of_two = llen_live 5 (codes "LLEN") key list_cache two_texts (refl, inl refl)

abbrev world : World
world = record {
  env = record { now = 5; regex = λ _. none; stray_long = λ _ _. none };
  disk = record { opens = true; stays_good = true; partial = λ _. [] };
  fork = forked;
}

abbrev state : State
state = record { cache = list_cache; dump = none }

handle_request-coherent_example :
    StateEnds (handle_request world (command (codes "LLEN" ∷ key ∷ [])) state)
handle_request-coherent_example =
    handle_request-coherent world (command (codes "LLEN" ∷ key ∷ [])) state
      ((inl refl, (inl refl, tt)), tt)

judge-command_case : judge (command (codes "GET" ∷ key ∷ [])) ≡ complete
judge-command_case = judge-command (codes "GET" ∷ key ∷ []) (omega arith) (omega arith)

judge-bulk_case : judge (framed b'$' 1 (key ++ 13 ∷ 10 ∷ [])) ≡ incomplete
unfolding print_ℕ digits
judge-bulk_case = judge-bulk key (omega arith) (omega arith)

-- An answer of three bytes, none of them sent.
abbrev client : Client
client = record { events = pollout; text = codes "abc"; curr_pos = 3 }

deliver-pending_case :
    (deliver (2 ∷ 1 ∷ []) client).0 ++ pending (deliver (2 ∷ 1 ∷ []) client).1 ≡ codes "abc"
unfolding Fits on_writable
deliver-pending_case =
    deliver-pending (2 ∷ 1 ∷ []) client
      (refl, omega arith, omega arith, (refl, omega arith, omega arith, tt))
