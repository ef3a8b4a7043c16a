-- ===== src/Redis/Lists.antt =====
-- redis-server/src/CommandHandler.cpp: the commands on lists (LRANGE, LPUSH, RPUSH, LLEN).
pub mod Range
pub mod Push
use cpp_experiments.Common.{
  ℕ, zero, suc, ◌+◌, ◌-◌, ◌^◌, Bool, true, false, ◌&&◌, ◌||◌, not, Option, none, some, List, [],
  ◌∷◌, ◌++◌, leb, if◌then◌else◌, length, get_elem?,
}
use cpp_experiments.Common.Int.{ℤ, pos, negsuc, ◌+ℤ◌, ltb_ℤ}
use cpp_experiments.Common.Fault.{Run, ok, fault, undefined, ◌>>=◌, or_fault}
use cpp_experiments.Common.Bytes.{Bytes, codes, crlf}
use cpp_experiments.Common.Decimal.{print_ℕ, long_of_text}
use cpp_experiments.Redis.Node.{
  Node, plain, variant, aggregate, Variant, long, str, variant_of, serialize, serialize_variant,
  memoised, push_back, push_front,
}
use cpp_experiments.Redis.Cache.{Cache, exists, expired, get_value, set_value}
use cpp_experiments.Redis.Handler.{Env, Handler, reply, error, wrong_arguments, wrong_type}

abbrev max_ℤ : ℤ → ℤ → ℤ
max_ℤ a b = if ltb_ℤ a b then b else a

abbrev min_ℤ : ℤ → ℤ → ℤ
min_ℤ a b = if ltb_ℤ b a then b else a

-- A negative index counts from the end.
abbrev from_end : ℕ → ℤ → ℤ
from_end n (pos i) = pos i
from_end n (negsuc i) = pos n +ℤ negsuc i

abbrev pub left_bound : ℕ → ℤ → ℤ
left_bound n left = max_ℤ (from_end n left) (pos 0)

abbrev pub right_bound : ℕ → ℤ → ℤ
right_bound n right = min_ℤ (from_end n right) (pos n +ℤ negsuc 0)

-- static_cast<std::size_t>
abbrev pub to_size : ℤ → ℕ
to_size (pos n) = n
to_size (negsuc n) = 2 ^ 64 - suc n

abbrev pub result_len : ℤ → ℤ → ℕ
result_len left right = if ltb_ℤ right left then 0 else to_size right + 1 - to_size left

-- for (curr = left_; curr <= right_; curr++): the texts of the elements. An index past the end
-- reads outside the deque.
unfoldable pub gather : ℕ → ℕ → List Variant → Run Bytes
gather zero curr vs = ok []
gather (suc rounds) curr vs = do
  v ← or_fault (get_elem? vs curr) undefined
  rest ← gather rounds (curr + 1) vs
  ok (serialize_variant v ++ rest)

-- The elements after the loop: those visited remember their texts.
unfoldable pub memoise_range : ℕ → ℕ → List Variant → List Variant
memoise_range skip rounds [] = []
memoise_range (suc skip) rounds (v ∷ vs) = v ∷ memoise_range skip rounds vs
memoise_range zero zero (v ∷ vs) = v ∷ vs
memoise_range zero (suc rounds) (v ∷ vs) = memoised v ∷ memoise_range zero rounds vs

unfoldable pub range_of_node : Bytes → ℤ → ℤ → Node → Handler
range_of_node key left right (aggregate vs) c =
    let n = length vs in
    let l = left_bound n left in
    let r = right_bound n right in
    let rounds = to_size r + 1 - to_size l in
    do
      body ← gather rounds (to_size l) vs
      ok (
        b'*' ∷ (print_ℕ (result_len l r) ++ (crlf ++ body)),
        set_value c key (aggregate (memoise_range (to_size l) rounds vs)),
      )
range_of_node key left right _ c = ok (error wrong_type, c)

unfoldable pub range_of_key : ℕ → Bytes → ℤ → ℤ → Handler
range_of_key now key left right c =
    if not (exists c key) || expired now c key
    then ok (serialize (aggregate []), c)
    else (let (found, c') = get_value now c key in
        elim found [ none ↦ fault undefined | some node ↦ range_of_node key left right node c' ])

-- What from_chars made of the two bounds.
unfoldable pub range_parsed : ℕ → Bytes → Option ℤ → Option ℤ → Handler
range_parsed now key (some left) (some right) = range_of_key now key left right
range_parsed now key _ _ = λ c. ok (error (codes "Value is not an integer or out of range"), c)

-- The second bound is parsed from a range that ends in the string of the first one.
unfoldable pub handle_lrange : Env → List Bytes → Handler
handle_lrange env (_ ∷ key ∷ left ∷ right ∷ []) c =
    range_parsed env.now key (long_of_text left) (env.stray_long right left) c
handle_lrange env _ c = ok (error wrong_arguments, c)

unfoldable pub push_all : Bool → List Bytes → List Variant → List Variant
push_all back [] vs = vs
push_all back (a ∷ args) vs =
    let v = variant_of (str a) in
    push_all back args (if back then push_back vs v else push_front vs v)

-- The insertions into the node that `getValue` finds.
unfoldable pub push_into : Bytes → List Bytes → Bool → Option Node → Handler
push_into key args back none c = fault undefined
push_into key args back (some (aggregate vs)) c =
    ok (reply (long (pos (length args))), set_value c key (aggregate (push_all back args vs)))
push_into key args back (some _) c = fault undefined

abbrev is_aggregate : Option Node → Bool
is_aggregate (some (aggregate _)) = true
is_aggregate _ = false

unfoldable pub handle_push : ℕ → List Bytes → Bool → Handler
handle_push now (_ ∷ key ∷ a ∷ args) back c =
    let there = exists c key && not (expired now c key) in
    if there && not (is_aggregate (get_value now c key).0)
    then ok (error wrong_type, c)
    else (let c0 = if there then c else set_value c key (aggregate []) in
        let (found, c') = get_value now c0 key in push_into key (a ∷ args) back found c')
handle_push now _ back c = ok (error wrong_arguments, c)

unfoldable pub length_of_node : Node → Handler
length_of_node (aggregate vs) c = ok (reply (long (pos (length vs))), c)
length_of_node _ c = ok (error wrong_type, c)

unfoldable pub handle_llen : ℕ → List Bytes → Handler
handle_llen now (_ ∷ key ∷ []) c =
    if not (exists c key) || expired now c key
    then ok (reply (long (pos 0)), c)
    else (let (found, c') = get_value now c key in
        elim found [ none ↦ fault undefined | some node ↦ length_of_node node c' ])
handle_llen now _ c = ok (error wrong_arguments, c)
