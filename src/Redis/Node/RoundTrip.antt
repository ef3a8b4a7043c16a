-- ===== src/Redis/Node/RoundTrip.antt =====
-- What a node is serialised to is parsed back to that node.
use cpp_experiments.Common.{
  ℕ, ◌+◌, ◌^◌, ◌<◌, ◌≤◌, ◌≡◌, sym, ap, ◌∙◌, ◌⊎◌, List, [], ◌∷◌, ◌++◌, map, append_assoc, length,
  length-append, arith,
}
use cpp_experiments.Common.Fault.{ok}
use cpp_experiments.Common.Bytes.{Bytes}
use cpp_experiments.Redis.Node.{
  Value, str, Variant, render, deserialize_bulk_str, deserialize_elements, memoised,
  serialize_variant, serialize_all,
}
use cpp_experiments.Redis.Node.Bulk.{deserialize_bulk-render}

-- The memo of a node is empty or what the value renders to.
abbrev pub IsCoherent : Variant → Type 0
IsCoherent v = (v.serialized ≡ []) ⊎ (v.serialized ≡ render v.value)

abbrev pub filled : Value → Variant
filled x = record { value = x; serialized = render x }

pub memoised-IsCoherent : (v : Variant) → IsCoherent v → memoised v ≡ filled v.value
unfolding memoised render
memoised-IsCoherent v h = ground arith

pub serialize-IsCoherent : (v : Variant) → IsCoherent v → serialize_variant v ≡ render v.value
unfolding serialize_variant
serialize-IsCoherent v h = ap (λ (n : Variant). n.serialized) (memoised-IsCoherent v h)

abbrev pub IsStr : Value → Type 0
IsStr x = (t : Bytes) × (x ≡ str t)

-- Coherent string nodes, the elements that commands store.
abbrev pub AllStr : List Variant → Type 0
AllStr [] = Unit {0}
AllStr (v ∷ vs) = IsCoherent v × IsStr v.value × AllStr vs

-- One round of the element loop, where the rounds after it read the rest.
module _ (v : Variant) (vs : List Variant) (s pre tail t : Bytes) (co : IsCoherent v)
    (ht : v.value ≡ str t) where
  abbrev Later : Type 0
  Later =
      s ≡ (pre ++ render (str t)) ++ (serialize_all vs ++ tail)
      → length pre + length (render (str t)) ≡ length (pre ++ render (str t))
      → length (pre ++ render (str t)) + length (serialize_all vs) < 2 ^ 64
      → deserialize_elements (length vs) s (length pre + length (render (str t)))
        ≡ ok (map memoised vs, length (pre ++ render (str t)) + length (serialize_all vs))

  element-serialize :
      (curr : ℕ)
      → Later
      → s ≡ pre ++ (serialize_all (v ∷ vs) ++ tail)
      → curr ≡ length pre
      → length pre + length (serialize_all (v ∷ vs)) < 2 ^ 64
      → deserialize_elements (length (v ∷ vs)) s curr
        ≡ ok (map memoised (v ∷ vs), length pre + length (serialize_all (v ∷ vs)))
  unfolding deserialize_elements serialize_all
  element-serialize curr later e hc h =
      rw (hc, here, there) (ap (λ (r : List Variant × ℕ). ok r) (λ i. (node i, end i)))
    where
      w : Bytes
      w = render (str t)

      same : serialize_variant v ≡ w
      same = serialize-IsCoherent v co ∙ ap render ht

      size : length (serialize_variant v) ≡ length w
      size = ap (λ (x : Bytes). length x) same

      room : length pre + (length w + length (serialize_all vs)) < 2 ^ 64
      room = omega (arith, length-append (serialize_variant v) (serialize_all vs), size)

      front : s ≡ pre ++ (w ++ (serialize_all vs ++ tail))
      front =
          e
          ∙ ap (λ (x : Bytes). pre ++ x)
              (append_assoc (serialize_variant v) (serialize_all vs) tail)
          ∙ ap (λ (x : Bytes). pre ++ (x ++ (serialize_all vs ++ tail))) same

      here : deserialize_bulk_str s (length pre) ≡ ok (filled (str t), length pre + length w)
      here = deserialize_bulk-render s pre t (serialize_all vs ++ tail) front (omega (arith, room))

      there :
          deserialize_elements (length vs) s (length pre + length w)
          ≡ ok (map memoised vs, length (pre ++ w) + length (serialize_all vs))
      there =
          later (front ∙ sym (append_assoc pre w (serialize_all vs ++ tail)))
            (omega (arith, length-append pre w)) (omega (arith, room, length-append pre w))

      node :
          ◌≡◌ {A = List Variant} (filled (str t) ∷ map memoised vs) (memoised v ∷ map memoised vs)
      node =
          ap (λ (x : Variant). x ∷ map memoised vs)
            (ap filled (sym ht) ∙ sym (memoised-IsCoherent v co))

      end :
          length (pre ++ w) + length (serialize_all vs)
          ≡ length pre + length (serialize_variant v ++ serialize_all vs)
      end =
          omega (
            arith,
            length-append pre w,
            length-append (serialize_variant v) (serialize_all vs),
            size,
          )

-- Consecutive texts are parsed back one after the other.
pub deserialize_elements-serialize :
    (vs : List Variant) (s pre tail : Bytes) (curr : ℕ)
    → AllStr vs
    → s ≡ pre ++ (serialize_all vs ++ tail)
    → curr ≡ length pre
    → length pre + length (serialize_all vs) < 2 ^ 64
    → deserialize_elements (length vs) s curr
      ≡ ok (map memoised vs, length pre + length (serialize_all vs))
unfolding deserialize_elements serialize_all
deserialize_elements-serialize [] s pre tail curr all e hc h =
    ap (λ (n : ℕ). ok ([], n)) (omega arith)
deserialize_elements-serialize (v ∷ vs) s pre tail curr (co, (t, ht), all) e hc h =
    element-serialize v vs s pre tail t co ht curr
      (deserialize_elements-serialize vs s (pre ++ render (str t)) tail _ all) e hc h

-- No text serialises to nothing, so a list is no longer than its serialisation.
pub length-serialize_all : (vs : List Variant) → AllStr vs → length vs ≤ length (serialize_all vs)
unfolding serialize_all render
length-serialize_all [] all = omega arith
length-serialize_all (v ∷ vs) (co, (t, ht), all) =
    let size = ap (λ (x : Bytes). length x) (serialize-IsCoherent v co ∙ ap render ht) in
    omega (
      arith,
      size,
      length-append (serialize_variant v) (serialize_all vs),
      length-serialize_all vs all,
    )
