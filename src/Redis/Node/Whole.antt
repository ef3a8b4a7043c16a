-- ===== src/Redis/Node/Whole.antt =====
-- `deserialize` undoes `serialize`, for each kind of node.
use cpp_experiments.Common.{
  ℕ, suc, ◌+◌, ◌-◌, ◌^◌, ◌<◌, ◌≡◌, refl, sym, ap, ◌≢◌, Bool, true, false, some, List, [], ◌∷◌, ◌++◌,
  map, append_assoc, append-nil, length, take, length-append, arith, subst,
}
use cpp_experiments.Common.Int.{ℤ, pos, negsuc}
use cpp_experiments.Common.Fault.{ok}
use cpp_experiments.Common.Bytes.{Bytes, NoCr, find_crlf, find_crlf-append, crlf, take_at}
use cpp_experiments.Common.Decimal.{print_ℕ, print_ℤ, starts_digit}
use cpp_experiments.Common.Decimal.Laws.{
  from_chars-print, starts_digit-print, NoCr-print, NoCr-print_ℤ, IsLong, stol-print,
  all_digits-print,
}
use cpp_experiments.Redis.Node.{
  Value, long, str, nullptr, Variant, Node, plain, variant, aggregate, variant_of, render,
  deserialize_bulk_str, bulk_at, deserialize_elements, memoised, serialize_all, serialize,
  deserialize, aggregate_body, all_digits_signed, at_end,
}
use cpp_experiments.Redis.Node.Bulk.{deserialize_bulk-render, starts_digit-not_minus}
use cpp_experiments.Redis.Node.RoundTrip.{
  length-serialize_all, IsCoherent, filled, serialize-IsCoherent, AllStr,
  deserialize_elements-serialize,
}

-- The values of a node that can be sent on its own.
abbrev pub IsFine : Value → Type 0
IsFine (long z) = IsLong z
IsFine (str t) = Unit {0}
IsFine nullptr = Unit {0}

-- A message has no carriage return, memos are coherent, a list holds texts only.
abbrev pub IsSendable : Node → Type 0
IsSendable (plain m e) = NoCr m
IsSendable (variant v) = IsCoherent v × IsFine v.value
IsSendable (aggregate vs) = AllStr vs

abbrev restored_value : Value → Variant
restored_value (long z) = variant_of (long z)
restored_value (str t) = filled (str t)
restored_value nullptr = variant_of nullptr

-- The parser fills the memos of texts, and of nothing else.
abbrev pub restored : Node → Node
restored (plain m e) = plain m e
restored (variant v) = variant (restored_value v.value)
restored (aggregate vs) = aggregate (map memoised vs)

at_end_lem : (node : Node) (n : ℕ) (s : Bytes) → n ≡ length s → at_end node n s ≡ node
at_end_lem node n s h = ground arith

module _ (c : ℕ) (m tail : Bytes) where
  line_end : c ≢ 13 → NoCr m → find_crlf (c ∷ (m ++ (crlf ++ tail))) ≡ some (suc (length m))
  line_end h k = find_crlf-append (c ∷ m) tail (h, k)

  line_body : take (suc (length m) - 1) (m ++ (crlf ++ tail)) ≡ m
  line_body = take_at _ _ m (crlf ++ tail) (omega arith) refl

deserialize-plain :
    (m : Bytes) (e : Bool) → NoCr m → deserialize (serialize (plain m e)) ≡ ok (plain m e)
unfolding deserialize serialize
deserialize-plain m true h = rw (line_end b'+' m [] (λ e. omega arith) h, line_body b'+' m [])
deserialize-plain m false h = rw (line_end b'-' m [] (λ e. omega arith) h, line_body b'-' m [])

pub all_digits_signed-print : (z : ℤ) → all_digits_signed (print_ℤ z) ≡ true
unfolding print_ℤ all_digits_signed starts_digit
all_digits_signed-print (pos n) = ground (arith, starts_digit-print n, all_digits-print n)
all_digits_signed-print (negsuc n) = rw (all_digits-print (suc n))

deserialize-long :
    (z : ℤ) → IsLong z → deserialize (render (long z)) ≡ ok (variant (variant_of (long z)))
unfolding deserialize render
deserialize-long z h = rw (
  line_end b':' (print_ℤ z) [] (λ e. omega arith) (NoCr-print_ℤ z),
  line_body b':' (print_ℤ z) [],
  all_digits_signed-print z,
  stol-print z h,
)

deserialize-str :
    (t : Bytes)
    → length (render (str t)) < 2 ^ 64
    → deserialize (render (str t)) ≡ ok (variant (filled (str t)))
unfolding deserialize render
deserialize-str t h =
    rw (deserialize_bulk-render (render (str t)) [] t [] (sym (append-nil _)) (omega arith)) (
      ap ok (
        at_end_lem (variant (filled (str t))) (0 + length (render (str t))) (render (str t))
          (omega arith)))

deserialize-nullptr : deserialize (render nullptr) ≡ ok (variant (variant_of nullptr))
unfolding deserialize render deserialize_bulk_str bulk_at find_crlf
deserialize-nullptr = refl

aggregate_body-serialize :
    (vs : List Variant)
    → AllStr vs
    → length (serialize (aggregate vs)) < 2 ^ 64
    → aggregate_body (serialize (aggregate vs)) (suc (length (print_ℕ (length vs))))
      ≡ ok (aggregate (map memoised vs))
unfolding aggregate_body serialize
aggregate_body-serialize vs all h =
    rw
      (
        starts_digit-not_minus (print_ℕ (length vs)) (crlf ++ serialize_all vs)
            (starts_digit-print _),
        line_body b'*' (print_ℕ (length vs)) (serialize_all vs),
        from_chars-print (length vs) few,
        elements,
      )
      (ap ok (
        at_end_lem (aggregate (map memoised vs)) (length pre + length (serialize_all vs)) whole
          (omega (arith, length-append pre (serialize_all vs), sizes))))
  where
    p : Bytes
    p = print_ℕ (length vs)

    pre : Bytes
    pre = b'*' ∷ (p ++ crlf)

    whole : Bytes
    whole = b'*' ∷ (p ++ (crlf ++ serialize_all vs))

    split : whole ≡ pre ++ (serialize_all vs ++ [])
    split = rw (append-nil (serialize_all vs), append_assoc p crlf (serialize_all vs))

    sizes : length whole ≡ length pre + length (serialize_all vs)
    sizes = omega (arith, length-append p (crlf ++ serialize_all vs), length-append p crlf)

    few : length vs < 2 ^ 64
    few = omega (arith, sizes, length-serialize_all vs all)

    elements :
        deserialize_elements (length vs) whole (suc (length p) + 2)
        ≡ ok (map memoised vs, length pre + length (serialize_all vs))
    elements =
        deserialize_elements-serialize vs whole pre [] _ all split
          (omega (arith, length-append p crlf)) (omega (arith, sizes))

deserialize-aggregate :
    (vs : List Variant)
    → AllStr vs
    → length (serialize (aggregate vs)) < 2 ^ 64
    → deserialize (serialize (aggregate vs)) ≡ ok (aggregate (map memoised vs))
unfolding deserialize serialize
deserialize-aggregate vs all h = rw (
  line_end b'*' (print_ℕ (length vs)) (serialize_all vs) (λ e. omega arith)
      (NoCr-print (length vs)),
  aggregate_body-serialize vs all h,
)

deserialize-variant :
    (x : Value)
    → IsFine x
    → length (render x) < 2 ^ 64
    → deserialize (render x) ≡ ok (variant (restored_value x))
deserialize-variant (long z) f h = deserialize-long z f
deserialize-variant (str t) f h = deserialize-str t h
deserialize-variant nullptr f h = deserialize-nullptr

-- Every node that can be sent and whose text is shorter than 2^64 bytes is parsed back to the
-- same kind of node with the same content: a plain message, a number, a text, nil, or a list of
-- texts in their order.
pub deserialize-serialize :
    (n : Node)
    → IsSendable n
    → length (serialize n) < 2 ^ 64
    → deserialize (serialize n) ≡ ok (restored n)
unfolding serialize
deserialize-serialize (plain m e) f h = deserialize-plain m e f
deserialize-serialize (variant v) f h =
    let same = serialize-IsCoherent v f.0 in
    rw same (deserialize-variant v.value f.1 (subst (λ (x : Bytes). length x < 2 ^ 64) same h))
deserialize-serialize (aggregate vs) f h = deserialize-aggregate vs f h
