-- ===== src/Lru/Tests.antt =====
-- Runs of the memo with a function that doubles its argument.
use cpp_experiments.Common.{ℕ, ◌*◌, ◌≡◌, refl, [], ◌∷◌, ◌++◌, arith}
use cpp_experiments.Common.Table
use cpp_experiments.Common.Fault.{Run, ok, fault, thrown}
use cpp_experiments.OrderedMap.{OrderedMap, empty, emplace, entries, erase_at, find}
use cpp_experiments.OrderedMap.Index.{IsValid}
use cpp_experiments.OrderedMap.Valid.{empty-IsValid, emplace-IsValid}
use cpp_experiments.OrderedMap.Order.{get, without}
use cpp_experiments.Lru.{Cache, count, call, resize}
use cpp_experiments.Lru.Eviction.{IsBounded}
use cpp_experiments.Lru.Calls.{newest, call_miss, call_hit}
use cpp_experiments.Lru.Bounds.{Bounded, call-Bounded, resize-IsBounded}

abbrev double : Cache ℕ → ℕ → Run (ℕ × Cache ℕ)
double c k = ok (2 * k, c)

-- A full cache of capacity one.
abbrev one : OrderedMap ℕ
one = emplace 5 10 empty

abbrev cache : Cache ℕ
cache = record { cache = one; hits = 0; miss = 1; capacity = 1 }

abbrev missed : Cache ℕ
missed = record { cache = one; hits = 0; miss = 2; capacity = 1 }

abbrev one-IsValid : IsValid one
one-IsValid = emplace-IsValid 5 10 empty empty-IsValid

call_miss_example :
    (d : Cache ℕ) × (call (λ k. k) double 6 cache ≡ ok (12, d))
    × (entries d.cache ≡ newest 1 (without 6 (entries one) ++ (6, 12) ∷ []))
unfolding get erase_at find Table.find
call_miss_example =
    call_miss (λ k. k) double 6 cache missed 12 one-IsValid refl refl (omega arith) one-IsValid

call_hit_example :
    (m : OrderedMap ℕ) × (call (λ k. k) double 5 cache
      ≡ ok (10, record cache { cache = m; hits = count 0 }))
    × IsValid m
    × (entries m ≡ without 5 (entries one) ++ (5, 10) ∷ [])
unfolding get erase_at find Table.find
call_hit_example = call_hit (λ k. k) double 5 cache 10 one-IsValid refl

call-Bounded_example : Bounded (call (λ k. k) double 6 cache)
unfolding erase_at find Table.find
call-Bounded_example =
    call-Bounded (λ k. k) double (λ c k b. b) 6 cache (one-IsValid, omega arith, omega arith)

resized_to_zero :
    (resize 0 cache ≡ fault thrown)
    × ((d : Cache ℕ) × (resize 1 cache ≡ ok d) × IsBounded d × (d.capacity ≡ 1))
resized_to_zero = resize-IsBounded 0 cache one-IsValid
