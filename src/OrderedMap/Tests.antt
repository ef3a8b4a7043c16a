-- ===== src/OrderedMap/Tests.antt =====
-- Runs of ordered_map on concrete maps.
use cpp_experiments.Common.{ℕ, ◌≡◌, refl, [], ◌∷◌, ◌++◌}
use cpp_experiments.Common.Table
use cpp_experiments.Common.Fault.{fault, undefined}
use cpp_experiments.OrderedMap.{
  OrderedMap, empty, find, insert, emplace, erase, touch, at, copy_assign, entries, erase_at,
}
use cpp_experiments.OrderedMap.Index.{IsValid}
use cpp_experiments.OrderedMap.Valid.{empty-IsValid, emplace-IsValid}
use cpp_experiments.OrderedMap.Order.{
  get, put, without, Touched, insert-put, emplace-without, erase-without, touch-without,
}
use cpp_experiments.OrderedMap.Copies.{at-copy_assign}

-- The keys 1 and 2.
abbrev one : OrderedMap ℕ
one = emplace 1 10 empty

abbrev two : OrderedMap ℕ
two = emplace 2 20 one

abbrev two-IsValid : IsValid two
two-IsValid = emplace-IsValid 2 20 one (emplace-IsValid 1 10 empty empty-IsValid)

insert-put_example :
    IsValid (insert 1 11 two) × (entries (insert 1 11 two) ≡ put 1 11 (entries two))
insert-put_example = insert-put 1 11 two two-IsValid

emplace-without_case :
    IsValid (emplace 1 11 two)
    × (entries (emplace 1 11 two) ≡ without 1 (entries two) ++ (1, 11) ∷ [])
emplace-without_case = emplace-without 1 11 two two-IsValid

erase-without_example :
    IsValid (erase 1 two).1 × (entries (erase 1 two).1 ≡ without 1 (entries two))
erase-without_example = erase-without 1 two two-IsValid

touch-without_example : Touched 1 (entries two) (get 1 (entries two)) (touch 1 two)
touch-without_example = touch-without 1 two two-IsValid

at-copy_assign_case : at 1 (copy_assign two one) ≡ fault undefined
unfolding find Table.find Table.emplace erase_at
at-copy_assign_case = at-copy_assign 1 0 two one two-IsValid refl
