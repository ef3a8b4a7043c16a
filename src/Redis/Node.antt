-- ===== src/Redis/Node.antt =====
-- redis-server/src/Node.cpp and include/Node.hpp: the values of the protocol, their serialisation
-- and the parser. `serialize() const` fills a mutable member, so the node after it is modelled too.
mod Bulk
pub mod RoundTrip
pub mod Whole
use cpp_experiments.Common.{
  ℕ, zero, suc, ◌+◌, ◌-◌, ◌%◌, ◌^◌, Bool, true, false, ◌&&◌, ◌||◌, not, Option, none, some, List,
  [], ◌∷◌, ◌++◌, map, ltb, ◌==◌, if◌then◌else◌, length, take, drop, get_or, get_elem?,
}
use cpp_experiments.Common.Int.{ℤ, pos, negsuc}
use cpp_experiments.Common.Fault.{Run, ok, fault, undefined, thrown, ◌>>=◌, or_fault}
use cpp_experiments.Common.Bytes.{Bytes, codes, find_crlf, crlf}
use cpp_experiments.Common.Decimal.{print_ℕ, print_ℤ, from_chars_size, all_digits, is_digit, stol}

-- std::variant<long, std::string, std::nullptr_t>
pub data Value : Type 0 where
  long : ℤ → Value
  str : Bytes → Value
  nullptr : Value

pub record Variant : Type 0 where
  pub value : Value
  pub serialized : Bytes

pub data Node : Type 0 where
  plain : Bytes → Bool → Node
  variant : Variant → Node
  aggregate : List Variant → Node

abbrev pub variant_of : Value → Variant
variant_of v = record { value = v; serialized = [] }

same_index : Value → Value → Bool
same_index (long _) (long _) = true
same_index (str _) (str _) = true
same_index nullptr nullptr = true
same_index _ _ = false

-- VariantRedisNode::setValue
pub set_value : Variant → Value → Run Variant
unfolding same_index
set_value n v = if same_index v n.value then ok (record n { value = v }) else fault thrown

-- VariantRedisNode::str
unfoldable pub text : Variant → Bytes
text n = elim n.value [ long z ↦ print_ℤ z | str s ↦ s | nullptr ↦ codes "nil" ]

unfoldable pub render : Value → Bytes
render (long z) = b':' ∷ (print_ℤ z ++ crlf)
render (str s) = b'$' ∷ (print_ℕ (length s) ++ (crlf ++ (s ++ crlf)))
render nullptr = codes "$-1" ++ crlf

-- VariantRedisNode::serialize: the node after the call, and the text that it returns.
unfoldable pub memoised : Variant → Variant
memoised n = elim n.serialized [ [] ↦ record n { serialized = render n.value } | _ ∷ _ ↦ n ]

unfoldable pub serialize_variant : Variant → Bytes
unfolding memoised
serialize_variant n = (memoised n).serialized

unfoldable pub serialize_all : List Variant → Bytes
serialize_all [] = []
serialize_all (v ∷ vs) = serialize_variant v ++ serialize_all vs

-- PlainRedisNode::serialize, AggregateRedisNode::serialize
unfoldable pub serialize : Node → Bytes
serialize (plain message not_error) = (if not_error then b'+' else b'-') ∷ (message ++ crlf)
serialize (variant v) = serialize_variant v
serialize (aggregate vs) = b'*' ∷ (print_ℕ (length vs) ++ (crlf ++ serialize_all vs))

-- The node after `serialize`.
unfoldable pub remembered : Node → Node
remembered (plain m e) = plain m e
remembered (variant v) = variant (memoised v)
remembered (aggregate vs) = aggregate (map memoised vs)

abbrev pub invalid_input : Node
invalid_input = plain (codes "Invalid input") false

-- s[i] for i up to the size, where the terminator stands.
abbrev pub char_at : Bytes → ℕ → ℕ
char_at s i = get_or s i 0

-- Utils.hpp: allDigitsSigned
unfoldable pub all_digits_signed : Bytes → Bool
unfolding all_digits
all_digits_signed [] = false
all_digits_signed (c ∷ s) = all_digits s && (c == b'-' || is_digit c)

-- The bulk string whose length field ends at offset `k` of `rest`, the text from `curr` on.
bulk_body : Bytes → ℕ → ℕ → ℕ → Run (Variant × ℕ)
bulk_body rest curr size k =
    if char_at rest 1 == b'-'
    then ok (variant_of nullptr, size)
    else elim (from_chars_size (take (k - 1) (drop 1 rest))) [
      | none ↦ fault thrown
      | some n ↦ ok (
        record {
          value = str (take n (drop (k + 2) rest));
          serialized = take ((n + k + 4) % 2 ^ 64) rest;
        },
        (curr + k + 2 + n + 2) % 2 ^ 64,
      )
    ]

unfoldable pub bulk_at : Bytes → ℕ → ℕ → Run (Variant × ℕ)
unfolding bulk_body
bulk_at rest curr size =
    if char_at rest 0 == b'$'
    then elim (find_crlf rest) [ none ↦ fault thrown | some k ↦ bulk_body rest curr size k ]
    else fault thrown

-- RedisNode::deserializeBulkStr: the node and the new position. A position past the end reads
-- outside the text.
unfoldable pub deserialize_bulk_str : Bytes → ℕ → Run (Variant × ℕ)
deserialize_bulk_str s curr =
    if ltb (length s) curr then fault undefined else bulk_at (drop curr s) curr (length s)

-- The loop over the elements of an aggregate.
unfoldable pub deserialize_elements : ℕ → Bytes → ℕ → Run (List Variant × ℕ)
deserialize_elements zero s curr = ok ([], curr)
deserialize_elements (suc n) s curr = do
  (v, p) ← deserialize_bulk_str s curr
  (vs, q) ← deserialize_elements n s p
  ok (v ∷ vs, q)

simple_token : ℕ → Bytes → Run Node
unfolding all_digits_signed
simple_token ch token =
    if ch == b'+'
    then ok (plain token true)
    else if ch == b'-'
    then ok (plain token false)
    else if all_digits_signed token
    then (do z ← stol token; ok (variant (variant_of (long z))))
    else ok invalid_input

abbrev pub at_end : Node → ℕ → Bytes → Node
at_end node curr s = if curr == length s then node else invalid_input

unfoldable pub aggregate_body : Bytes → ℕ → Run Node
aggregate_body s k =
    if char_at s 1 == b'-'
    then ok (variant (variant_of nullptr))
    else elim (from_chars_size (take (k - 1) (drop 1 s))) [
      | none ↦ ok invalid_input
      | some n ↦ do (vs, p) ← deserialize_elements n s (k + 2); ok (at_end (aggregate vs) p s)
    ]

-- RedisNode::deserialize
unfoldable pub deserialize : Bytes → Run Node
unfolding simple_token
deserialize s =
    let ch = char_at s 0 in
    if ch == b'+' || (ch == b'-' || ch == b':')
    then elim (find_crlf s) [
      | none ↦ ok invalid_input
      | some k ↦ simple_token ch (take (k - 1) (drop 1 s))
    ]
    else if ch == b'$'
    then (do (v, p) ← deserialize_bulk_str s 0; ok (at_end (variant v) p s))
    else if ch == b'*'
    then elim (find_crlf s) [ none ↦ ok invalid_input | some k ↦ aggregate_body s k ]
    else ok invalid_input

-- AggregateRedisNode::push_back, push_front, vector and operator[].
unfoldable pub push_back : List Variant → Variant → List Variant
push_back vs v = vs ++ v ∷ []

unfoldable pub push_front : List Variant → Variant → List Variant
push_front vs v = v ∷ vs

unfoldable pub texts : List Variant → List Bytes
texts vs = map text vs

unfoldable pub element : List Variant → ℤ → Run Variant
element vs (pos i) = or_fault (get_elem? vs i) thrown
element vs (negsuc i) =
    if ltb i (length vs) then or_fault (get_elem? vs (length vs - suc i)) thrown else fault thrown

-- AggregateRedisNode::pop_back, pop_front, back and front; std::deque leaves a pop of the empty
-- list undefined, the other two throw.
unfoldable pub pop_back : List Variant → Run (List Variant)
pop_back [] = fault undefined
pop_back (v ∷ vs) = ok (take (length vs) (v ∷ vs))

unfoldable pub pop_front : List Variant → Run (List Variant)
pop_front [] = fault undefined
pop_front (v ∷ vs) = ok vs

unfoldable pub front : List Variant → Run Variant
front [] = fault thrown
front (v ∷ vs) = ok v

unfoldable pub back : List Variant → Run Variant
back [] = fault thrown
back (v ∷ vs) = or_fault (get_elem? (v ∷ vs) (length vs)) thrown
