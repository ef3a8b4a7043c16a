-- ===== src/Redis/Lists/Push.antt =====
-- LPUSH and RPUSH: the list that they leave, and what LLEN then says.
use mathlib.Core.List.{reverse, reverse-cons}
use cpp_experiments.Common.{
  ℕ, ◌+◌, ◌≡◌, ◌⊎◌, inl, inr, refl, sym, ap, ◌∙◌, Bool, true, false, none, some, List, [], ◌∷◌,
  ◌++◌, map, append_assoc, append-nil, arith, length, length-append, length-map, length-reverse,
}
use cpp_experiments.Common.Int.{pos}
use cpp_experiments.Common.Fault.{ok, fault, undefined}
use cpp_experiments.Common.Bytes.{Bytes}
use cpp_experiments.Common.Dict.{lookup}
use cpp_experiments.Redis.Node.{Variant, aggregate, variant_of, str, long, push_back, push_front}
use cpp_experiments.Redis.Cache.{Cache, set_value, exists, expired}
use cpp_experiments.Redis.Handler.{reply}
use cpp_experiments.Redis.Lists.{push_all, push_into, handle_push, handle_llen, length_of_node}
use cpp_experiments.Redis.Numbers.Incr.{
  get_value-live, get_value-expired, expired-set_value, lookup-set_value,
}

abbrev pub element_of : Bytes → Variant
element_of a = variant_of (str a)

-- The list after a push: the new texts behind the old ones in their order, or before them in
-- reverse.
abbrev pub pushed : Bool → List Bytes → List Variant → List Variant
pushed true args vs = vs ++ map element_of args
pushed false args vs = reverse (map element_of args) ++ vs

push_all-pushed :
    (back : Bool) (args : List Bytes) (vs : List Variant)
    → push_all back args vs ≡ pushed back args vs
unfolding push_all push_back push_front
push_all-pushed true [] vs = rw append-nil
push_all-pushed true (a ∷ args) vs =
    push_all-pushed true args (vs ++ element_of a ∷ []) ∙ append_assoc vs (element_of a ∷ []) _
push_all-pushed false [] vs = refl
push_all-pushed false (a ∷ args) vs =
    push_all-pushed false args (element_of a ∷ vs)
    ∙ (sym (append_assoc (reverse (map element_of args)) (element_of a ∷ []) vs)
        ∙ ap (λ (x : List Variant). x ++ vs)
            (sym (reverse-cons (element_of a) (map element_of args))))

length-pushed :
    (back : Bool) (args : List Bytes) (vs : List Variant)
    → length (pushed back args vs) ≡ length vs + length args
length-pushed true args vs =
    omega (arith, length-append vs (map element_of args), length-map args element_of)
length-pushed false args vs = omega (
  arith,
  length-append (reverse (map element_of args)) vs,
  length-reverse (map element_of args),
  length-map args element_of,
)

-- A key that is live and holds a list, or that is absent with no deadline that is over.
abbrev pub HoldsList : ℕ → Cache → Bytes → List Variant → Type 0
HoldsList now c key vs =
    (expired now c key ≡ false)
    × ((lookup key c.nodes ≡ some (aggregate vs)) ⊎ ((lookup key c.nodes ≡ none) × (vs ≡ [])))

abbrev after : Cache → Bytes → Bytes → List Bytes → Bool → List Variant → Cache
after c key a args back vs = set_value c key (aggregate (push_all back (a ∷ args) vs))

after-HoldsList :
    (now : ℕ) (c : Cache) (key a : Bytes) (args : List Bytes) (back : Bool) (vs : List Variant)
    → expired now c key ≡ false
    → HoldsList now (after c key a args back vs) key (pushed back (a ∷ args) vs)
after-HoldsList now c key a args back vs live = (
  expired-set_value now c key key (aggregate (push_all back (a ∷ args) vs)) ∙ live,
  inl (
      lookup-set_value c key (aggregate (push_all back (a ∷ args) vs))
      ∙ ap (λ (x : List Variant). some (aggregate x)) (push_all-pushed back (a ∷ args) vs)),
)

push_held :
    (now : ℕ) (cmd key a : Bytes) (args : List Bytes) (back : Bool) (c : Cache) (vs : List Variant)
    → expired now c key ≡ false
    → lookup key c.nodes ≡ some (aggregate vs)
    → handle_push now (cmd ∷ key ∷ a ∷ args) back c
      ≡ ok (reply (long (pos (length (a ∷ args)))), after c key a args back vs)
unfolding handle_push push_into exists
push_held now cmd key a args back c vs live held = ground (arith, get_value-live now c key)

push_absent :
    (now : ℕ) (cmd key a : Bytes) (args : List Bytes) (back : Bool) (c : Cache) (vs : List Variant)
    → expired now c key ≡ false
    → lookup key c.nodes ≡ none
    → vs ≡ []
    → handle_push now (cmd ∷ key ∷ a ∷ args) back c
      ≡ ok (
        reply (long (pos (length (a ∷ args)))),
        after (set_value c key (aggregate [])) key a args back vs,
      )
unfolding handle_push push_into exists
push_absent now cmd key a args back c vs live absent none_yet =
    let new = set_value c key (aggregate []) in
    let found =
      get_value-live now new key (expired-set_value now c key key (aggregate []) ∙ live) in
    ground (arith, found, lookup-set_value c key (aggregate []))

-- LPUSH and RPUSH of at least one text: the reply is the number of texts pushed, and the key then
-- holds the old list with the texts added.
pub push_live :
    (now : ℕ) (cmd key a : Bytes) (args : List Bytes) (back : Bool) (c : Cache) (vs : List Variant)
    → HoldsList now c key vs
    → (c' : Cache) × (handle_push now (cmd ∷ key ∷ a ∷ args) back c
        ≡ ok (reply (long (pos (length (a ∷ args)))), c'))
      × HoldsList now c' key (pushed back (a ∷ args) vs)
push_live now cmd key a args back c vs (live, inl held) = (
  after c key a args back vs,
  push_held now cmd key a args back c vs live held,
  after-HoldsList now c key a args back vs live,
)
push_live now cmd key a args back c vs (live, inr (absent, none_yet)) =
    let new = set_value c key (aggregate []) in
    (
      after new key a args back vs,
      push_absent now cmd key a args back c vs live absent none_yet,
      after-HoldsList now new key a args back vs
          (expired-set_value now c key key (aggregate []) ∙ live),
    )

-- LPUSH and RPUSH to a key whose deadline has passed use a null pointer.
pub push_expired :
    (now : ℕ) (cmd key a : Bytes) (args : List Bytes) (back : Bool) (c : Cache)
    → expired now c key ≡ true
    → handle_push now (cmd ∷ key ∷ a ∷ args) back c ≡ fault undefined
unfolding handle_push push_into
push_expired now cmd key a args back c h =
    let gone =
      get_value-expired now (set_value c key (aggregate [])) key
        (expired-set_value now c key key (aggregate []) ∙ h) in
    ground (arith, gone)

-- LLEN of a key that is live and holds a list, or that is absent, is the length of the list.
pub llen_live :
    (now : ℕ) (cmd key : Bytes) (c : Cache) (vs : List Variant)
    → HoldsList now c key vs
    → handle_llen now (cmd ∷ key ∷ []) c ≡ ok (reply (long (pos (length vs))), c)
unfolding handle_llen length_of_node exists
llen_live now cmd key c vs (live, inl held) = ground (arith, get_value-live now c key)
llen_live now cmd key c vs (live, inr (absent, none_yet)) = ground arith
