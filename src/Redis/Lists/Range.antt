-- ===== src/Redis/Lists/Range.antt =====
-- LRANGE: the slice that it returns, and the ranges that leave the list.
use Prim.Native.Nat.{min}
use native.Mathlib.Numerals.{add-one}
use cpp_experiments.Common.{
  ℕ, zero, suc, ◌+◌, ◌-◌, ◌^◌, ◌≤◌, ◌<◌, ◌≡◌, refl, none, some, List, [], ◌∷◌, ◌++◌, arith, length,
  take, drop, get_elem?, Option-cases, Bool-cases, leb, inl, inr,
}
use cpp_experiments.Common.Int.{ℤ, pos, negsuc, ◌+ℤ◌}
use cpp_experiments.Common.Fault.{ok, fault, undefined}
use cpp_experiments.Common.Bytes.{Bytes, crlf}
use cpp_experiments.Common.Decimal.{print_ℕ}
use cpp_experiments.Redis.Node.{Variant, aggregate, serialize_all}
use cpp_experiments.Redis.Cache.{Cache, set_value}
use cpp_experiments.Redis.Lists.{
  result_len, left_bound, right_bound, gather, memoise_range, range_of_node,
}

abbrev NextAt : ℕ → List Variant → Variant → Type 0
NextAt curr vs v = (get_elem? vs curr ≡ some v) × (drop curr vs ≡ v ∷ drop (suc curr) vs)

next_at : (curr : ℕ) (vs : List Variant) → curr < length vs → (v : Variant) × NextAt curr vs v
next_at curr [] h = absurd (omega arith)
next_at zero (v ∷ vs) h = (v, (refl, refl))
next_at (suc curr) (v ∷ vs) h = next_at curr vs (omega arith)

get_elem?_past : (curr : ℕ) (vs : List Variant) → length vs ≤ curr → get_elem? vs curr ≡ none
get_elem?_past curr [] h = refl
get_elem?_past zero (v ∷ vs) h = absurd (omega arith)
get_elem?_past (suc curr) (v ∷ vs) h = get_elem?_past curr vs (omega arith)

gather-slice :
    (rounds curr : ℕ) (vs : List Variant)
    → curr + rounds ≤ length vs
    → gather rounds curr vs ≡ ok (serialize_all (take rounds (drop curr vs)))
unfolding gather serialize_all
gather-slice zero curr vs h = refl
gather-slice (suc rounds) curr vs h =
    let (v, (e, f)) = next_at curr vs (omega arith) in
    rw (e, add-one curr, gather-slice rounds (suc curr) vs (omega arith), f)

gather_past :
    (rounds curr : ℕ) (vs : List Variant)
    → length vs < curr + rounds
    → 0 < rounds
    → gather rounds curr vs ≡ fault undefined
unfolding gather
gather_past zero curr vs h k = absurd (omega arith)
gather_past (suc zero) curr vs h k = rw (get_elem?_past curr vs (omega arith))
gather_past (suc (suc rounds)) curr vs h k = elim (Option-cases (get_elem? vs curr)) [
  | inl e ↦ rw e
  | inr (v, e) ↦ rw (e, gather_past (suc rounds) (curr + 1) vs (omega arith) (omega arith))
]

gather_range :
    (l r : ℕ) (vs : List Variant)
    → r < length vs
    → gather (r + 1 - l) l vs ≡ ok (serialize_all (take (r + 1 - l) (drop l vs)))
unfolding gather serialize_all
gather_range l r vs h = elim (Bool-cases (leb l r)) [
  | inl e ↦ gather-slice (r + 1 - l) l vs (ground arith)
  | inr e ↦ let none_left : r + 1 - l ≡ 0 = ground arith in rw none_left refl
]

-- Where a range begins and ends in a list of `n` elements: an index from the front is taken as it
-- is, one from the back is counted from the end; the end is at most the last element.
abbrev pub start : ℕ → ℤ → ℕ
start n (pos i) = i
start n (negsuc i) = n - suc i

abbrev pub stop : ℕ → ℤ → ℕ
stop n (pos i) = min i (n - 1)
stop n (negsuc i) = n - suc i

-- The end is not before the first element.
abbrev pub EndsInside : ℕ → ℤ → Type 0
EndsInside n (pos i) = Unit {0}
EndsInside n (negsuc i) = i < n

left_bound-start : (n : ℕ) (z : ℤ) → left_bound n z ≡ pos (start n z)
unfolding ◌+ℤ◌
left_bound-start n (pos i) = ground arith
left_bound-start n (negsuc i) = ground arith

right_bound-stop : (n : ℕ) (z : ℤ) → 0 < n → EndsInside n z → right_bound n z ≡ pos (stop n z)
unfolding ◌+ℤ◌
right_bound-stop n (pos i) h k = ground arith
right_bound-stop n (negsuc i) h k = ground arith

right_bound_before : (n i : ℕ) → n ≤ i → right_bound n (negsuc i) ≡ negsuc (i - n)
unfolding ◌+ℤ◌
right_bound_before n i h = ground arith

stop-lt : (n : ℕ) (z : ℤ) → 0 < n → stop n z < n
stop-lt n (pos i) h = omega arith
stop-lt n (negsuc i) h = omega arith

-- The reply to a range from `left` to `right`, both included.
abbrev pub slice_reply : ℕ → ℕ → List Variant → Bytes
slice_reply left right vs =
    b'*'
    ∷ (print_ℕ (right + 1 - left)
        ++ (crlf ++ serialize_all (take (right + 1 - left) (drop left vs))))

result_len-eq : (l r : ℕ) → result_len (pos l) (pos r) ≡ r + 1 - l
result_len-eq l r = ground arith

-- LRANGE on a list that is not empty, with an end that is not before its first element: the reply
-- is the number of elements from the start to the end and their texts in order, and no element if
-- the start is behind the end.
pub range-slice :
    (key : Bytes) (left right : ℤ) (vs : List Variant) (c : Cache)
    → 0 < length vs
    → EndsInside (length vs) right
    → let l = start (length vs) left in
      let r = stop (length vs) right in
      range_of_node key left right (aggregate vs) c
      ≡ ok (slice_reply l r vs, set_value c key (aggregate (memoise_range l (r + 1 - l) vs)))
unfolding range_of_node
range-slice key left right vs c some_element ends =
    let l = start (length vs) left in
    let r = stop (length vs) right in
    rw (
      left_bound-start (length vs) left,
      right_bound-stop (length vs) right some_element ends,
      gather_range l r vs (stop-lt (length vs) right some_element),
      result_len-eq l r,
    )

-- LRANGE whose end lies before the first element of the list reads past the last one: the
-- negative bound is cast to an unsigned number that no index reaches.
pub range_before :
    (key : Bytes) (left : ℤ) (i : ℕ) (vs : List Variant) (c : Cache)
    → length vs ≤ i
    → i < 2 ^ 63
    → start (length vs) left < 2 ^ 63
    → range_of_node key left (negsuc i) (aggregate vs) c ≡ fault undefined
unfolding range_of_node
range_before key left i vs c before fits fits' = rw (
  left_bound-start (length vs) left,
  right_bound_before (length vs) i before,
  gather_past (2 ^ 64 - suc (i - length vs) + 1 - start (length vs) left) (start (length vs) left)
      vs (omega arith) (omega arith),
)
