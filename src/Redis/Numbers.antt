-- ===== src/Redis/Numbers.antt =====
-- redis-server/src/CommandHandler.cpp: the commands on numbers and deadlines (INCR, DECR, TTL).
pub mod Incr
use cpp_experiments.Common.{
  ℕ, ◌/◌, Bool, true, false, ◌||◌, not, Option, none, some, List, [], ◌∷◌, if◌then◌else◌,
}
use cpp_experiments.Common.Int.{ℤ, pos, negsuc, ◌+ℤ◌}
use cpp_experiments.Common.Fault.{Run, ok, fault, undefined, ◌>>=◌}
use cpp_experiments.Common.Bytes.{Bytes, codes}
use cpp_experiments.Common.Decimal.{print_ℤ, stol}
use cpp_experiments.Redis.Node.{
  Node, plain, variant, aggregate, long, str, variant_of, text, serialize, remembered,
  all_digits_signed,
}
use cpp_experiments.Redis.Cache.{Cache, exists, expired, get_value, set_value, get_ttl, long_result}
use cpp_experiments.Redis.Handler.{Handler, reply, error}

-- cache.getValue(key)->serialize(), where a null pointer is not tested for.
unfoldable pub serialized_now : ℕ → Bytes → Handler
serialized_now now key c =
    let (found, c') = get_value now c key in
    elim found [
      | none ↦ fault undefined
      | some node ↦ ok (serialize node, set_value c' key (remembered node))
    ]

-- INCR or DECR of a node that is there.
unfoldable pub add_to_node : ℕ → Bytes → ℤ → Node → Handler
add_to_node now key by (variant v) c =
    if all_digits_signed (text v)
    then (do
      n ← stol (text v)
      sum ← long_result (n +ℤ by)
      serialized_now now key (set_value c key (variant (variant_of (str (print_ℤ sum))))))
    else ok (error (codes "value is not an integer or out of range"), c)
add_to_node now key by _ c = ok (error (codes "value is not an integer"), c)

unfoldable pub handle_ladd : ℕ → List Bytes → ℤ → Handler
handle_ladd now (_ ∷ key ∷ []) by c =
    if not (exists c key) || expired now c key
    then serialized_now now key (set_value c key (variant (variant_of (str (print_ℤ by)))))
    else (let (found, c') = get_value now c key in
        elim found [ none ↦ fault undefined | some node ↦ add_to_node now key by node c' ])
handle_ladd now _ by c = ok (error (codes "Wrong number of arguments for 'incr' command"), c)

abbrev seconds : ℤ → ℤ
seconds (pos n) = pos (n / 1000)
seconds (negsuc n) = negsuc n

unfoldable pub handle_ttl : ℕ → List Bytes → Handler
handle_ttl now (_ ∷ key ∷ []) c = do t ← get_ttl now c key; ok (reply (long (seconds t)), c)
handle_ttl now _ c = ok (error (codes "Wrong number of arguments for 'ttl' command"), c)
