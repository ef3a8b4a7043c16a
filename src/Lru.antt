-- ===== src/Lru.antt =====
-- misc/cache.hpp: `Cache`, the memo of a function that evicts the least recently used result.
pub mod Eviction
pub mod Calls
pub mod Bounds
pub mod Tests
use cpp_experiments.Common.{
  ℕ, zero, suc, ◌+◌, ◌%◌, ◌^◌, Bool, true, false, Option, none, some, List, [], ◌∷◌, ltb, ◌==◌,
  if◌then◌else◌,
}
use cpp_experiments.Common.Fault.{Run, ok, fault, thrown, ◌>>=◌}
use cpp_experiments.OrderedMap.{Node, OrderedMap, empty, find, erase, emplace, touch, deref, size}

pub record Cache {ℓ} (V : Type ℓ) : Type ℓ where
  pub cache : OrderedMap V
  pub hits : ℕ
  pub miss : ℕ
  pub capacity : ℕ

abbrev pub initial {ℓ} : {V : Type ℓ} → Cache V
initial = record { cache = empty; hits = 0; miss = 0; capacity = 128 }

-- ++n on a std::size_t
abbrev pub count : ℕ → ℕ
count n = (n + 1) % 2 ^ 64

pub record Stat : Type 0 where
  pub hits : ℕ
  pub miss : ℕ
  pub size : ℕ
  pub capacity : ℕ

module _ {ℓ} {V : Type ℓ} where
  -- cache.erase(cache.begin()->first)
  unfoldable pub erase_front : List (Node V) → OrderedMap V → OrderedMap V
  erase_front [] m = m
  erase_front (n ∷ _) m = (erase n.key m).1

  -- The loop of ensureCapacity: each round takes an entry away, so that as many rounds as there
  -- are entries are enough.
  unfoldable pub trim : ℕ → ℕ → OrderedMap V → OrderedMap V
  trim zero capacity m = m
  trim (suc rounds) capacity m =
      let rest = trim rounds capacity (erase_front m.nodes m) in
      if ltb capacity (size m) then rest else m

  abbrev pub ensure_capacity : Cache V → Cache V
  ensure_capacity c = record c { cache = trim (size c.cache) c.capacity c.cache }

  -- The entry that emplace has appended at `place`, read after the eviction.
  unfoldable pub inserted : ℕ → Cache V → Run (V × Cache V)
  inserted place c = deref place c.cache.nodes >>= λ v. ok (v, c)

  abbrev pub remember : ℕ → V → Cache V → Run (V × Cache V)
  remember key v c =
      inserted (erase key c.cache).1.fresh
        (ensure_capacity (record c { cache = emplace key v c.cache }))

  module _ {κ} {K : Type κ} (hash : K → ℕ) (func : Cache V → K → Run (V × Cache V)) where
    -- `func` gets the cache itself and may call it.
    unfoldable pub call_at : Option ℕ → K → Cache V → Run (V × Cache V)
    call_at none k c = func (record c { miss = count c.miss }) k >>= λ r. remember (hash k) r.0 r.1
    call_at (some _) k c =
        touch (hash k) c.cache >>= λ r. ok (r.0, record c { cache = r.1; hits = count c.hits })

    -- operator()
    abbrev pub call : K → Cache V → Run (V × Cache V)
    call k c = call_at (find (hash k) c.cache) k c

  unfoldable pub stat : Cache V → Stat
  stat c = record { hits = c.hits; miss = c.miss; size = size c.cache; capacity = c.capacity }

  unfoldable pub resize : ℕ → Cache V → Run (Cache V)
  resize capacity c =
      if capacity == 0
      then fault thrown
      else ok (ensure_capacity (record c { capacity = capacity }))
