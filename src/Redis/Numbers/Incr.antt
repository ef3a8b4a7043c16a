-- ===== src/Redis/Numbers/Incr.antt =====
-- INCR and DECR: on a live number, and on a key whose deadline is over.
use cpp_experiments.Common.{ℕ, ◌≡◌, refl, ◌∙◌, true, false, none, some, [], ◌∷◌, arith}
use cpp_experiments.Common.Int.{ℤ, ◌+ℤ◌}
use cpp_experiments.Common.Fault.{ok, fault, undefined}
use cpp_experiments.Common.Bytes.{Bytes, =ᵇ-refl}
use cpp_experiments.Common.Decimal.{print_ℤ}
use cpp_experiments.Common.Decimal.Laws.{IsLong, stol-print}
use cpp_experiments.Common.Dict.{lookup, lookup-erase, lookup-insert}
use cpp_experiments.Redis.Node.{
  Node, Variant, variant, variant_of, str, text, serialize, remembered,
}
use cpp_experiments.Redis.Node.Whole.{all_digits_signed-print}
use cpp_experiments.Redis.Cache.{
  Cache, exists, expired, erase, purged, get_value, set_value, in_long,
}
use cpp_experiments.Redis.Numbers.{serialized_now, add_to_node, handle_ladd}

-- A key that has expired has no node once it is looked for.
pub get_value-expired :
    (now : ℕ) (c : Cache) (key : Bytes) → expired now c key ≡ true → (get_value now c key).0 ≡ none
unfolding get_value purged erase
get_value-expired now c key h = rw h (ground (arith, lookup-erase key key c.nodes, =ᵇ-refl key))

pub get_value-live :
    (now : ℕ) (c : Cache) (key : Bytes)
    → expired now c key ≡ false
    → get_value now c key ≡ (lookup key c.nodes, c)
unfolding get_value purged
get_value-live now c key h = rw h

pub expired-set_value :
    (now : ℕ) (c : Cache) (key j : Bytes) (n : Node)
    → expired now (set_value c key n) j ≡ expired now c j
unfolding expired set_value
expired-set_value now c key j n = refl

pub lookup-set_value :
    (c : Cache) (key : Bytes) (n : Node) → lookup key (set_value c key n).nodes ≡ some n
unfolding set_value
lookup-set_value c key n = ground (arith, lookup-insert key key n c.nodes, =ᵇ-refl key)

serialized_now-expired :
    (now : ℕ) (key : Bytes) (c : Cache)
    → expired now c key ≡ true
    → serialized_now now key c ≡ fault undefined
unfolding serialized_now
serialized_now-expired now key c h = ground (arith, get_value-expired now c key)

-- INCR and DECR of a key whose deadline has passed dereference a null pointer: the new value is
-- stored under the old deadline, and the lookup for the reply deletes it again.
pub ladd-expired :
    (now : ℕ) (cmd key : Bytes) (by : ℤ) (c : Cache)
    → expired now c key ≡ true
    → handle_ladd now (cmd ∷ key ∷ []) by c ≡ fault undefined
unfolding handle_ladd
ladd-expired now cmd key by c h =
    let n = variant (variant_of (str (print_ℤ by))) in
    let fails =
      serialized_now-expired now key (set_value c key n) (expired-set_value now c key key n ∙ h) in
    ground (arith, fails)

serialized_now-stored :
    (now : ℕ) (key : Bytes) (c : Cache) (n : Node)
    → expired now c key ≡ false
    → serialized_now now key (set_value c key n)
      ≡ ok (serialize n, set_value (set_value c key n) key (remembered n))
unfolding serialized_now
serialized_now-stored now key c n h =
    let live = get_value-live now (set_value c key n) key (expired-set_value now c key key n ∙ h) in
    ground (arith, live, lookup-set_value c key n)

abbrev pub number : ℤ → Node
number z = variant (variant_of (str (print_ℤ z)))

-- INCR and DECR of a live key that holds the decimal text of a long add to it, where the sum is a
-- long: the reply and the stored node are the decimal text of the sum.
pub ladd-live :
    (now : ℕ) (cmd key : Bytes) (by z : ℤ) (v : Variant) (c : Cache)
    → expired now c key ≡ false
    → lookup key c.nodes ≡ some (variant v)
    → text v ≡ print_ℤ z
    → IsLong z
    → in_long (z +ℤ by) ≡ true
    → let new = number (z +ℤ by) in
      handle_ladd now (cmd ∷ key ∷ []) by c
      ≡ ok (serialize new, set_value (set_value c key new) key (remembered new))
unfolding handle_ladd exists add_to_node
ladd-live now cmd key by z v c live held shows fits sum = ground (
  arith,
  get_value-live now c key,
  all_digits_signed-print z,
  stol-print z fits,
  serialized_now-stored now key c (number (z +ℤ by)) live,
)
