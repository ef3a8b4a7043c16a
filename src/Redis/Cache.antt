-- ===== src/Redis/Cache.antt =====
-- redis-server/src/Cache.cpp and include/Cache.hpp: the keys, their nodes and their deadlines in
-- milliseconds. `now` is what `timeSinceEpoch` returns. Saving and loading are in `Dump`.
use cpp_experiments.Common.{
  ℕ, ◌+◌, ◌-◌, ◌*◌, ◌%◌, ◌^◌, Bool, true, false, ◌||◌, not, Option, none, some, ltb, if◌then◌else◌,
  length,
}
use cpp_experiments.Common.Int.{ℤ, pos, negsuc, ◌-ℤ◌}
use cpp_experiments.Common.Fault.{Run, ok, fault, undefined}
use cpp_experiments.Common.Bytes.{Bytes}
use cpp_experiments.Common.Dict
use cpp_experiments.Common.Dict.{Dict, lookup}
use cpp_experiments.Redis.Node.{Node}

pub record Cache : Type 0 where
  pub nodes : Dict Node
  pub ttl : Dict ℕ

abbrev pub is_some {ℓ} : {A : Type ℓ} → Option A → Bool
is_some none = false
is_some (some _) = true

unfoldable pub exists : Cache → Bytes → Bool
exists c key = is_some (lookup key c.nodes)

abbrev passed : ℕ → Option ℕ → Bool
passed now none = false
passed now (some t) = ltb t now

unfoldable pub expired : ℕ → Cache → Bytes → Bool
expired now c key = passed now (lookup key c.ttl)

unfoldable pub erase : Cache → Bytes → Cache
erase c key = record { nodes = Dict.erase key c.nodes; ttl = Dict.erase key c.ttl }

-- The cache after the lazy deletion that `getValue` begins with.
unfoldable pub purged : ℕ → Cache → Bytes → Cache
purged now c key = if expired now c key then erase c key else c

-- Cache::getValue: a null pointer is `none`.
unfoldable pub get_value : ℕ → Cache → Bytes → Option Node × Cache
get_value now c key = (lookup key (purged now c key).nodes, purged now c key)

unfoldable pub set_value : Cache → Bytes → Node → Cache
set_value c key node = record c { nodes = Dict.insert key node c.nodes }

-- static_cast<long> of an unsigned long.
abbrev pub to_long : ℕ → ℤ
to_long n = if ltb n (2 ^ 63) then pos n else negsuc (2 ^ 64 - n - 1)

abbrev pub in_long : ℤ → Bool
in_long (pos n) = ltb n (2 ^ 63)
in_long (negsuc n) = ltb n (2 ^ 63)

-- A signed result out of range is undefined.
abbrev pub long_result : ℤ → Run ℤ
long_result z = if in_long z then ok z else fault undefined

unfoldable pub get_ttl : ℕ → Cache → Bytes → Run ℤ
get_ttl now c key =
    if not (exists c key) || expired now c key then ok (negsuc 1) else elim (lookup key c.ttl) [
      | none ↦ ok (negsuc 0)
      | some t ↦ long_result (to_long t -ℤ to_long now)
    ]

set_deadline : Cache → Bytes → ℕ → Cache
set_deadline c key t = record c { ttl = Dict.insert key t c.ttl }

unfoldable pub set_ttl_s : ℕ → Cache → Bytes → ℕ → Cache
unfolding set_deadline
set_ttl_s now c key seconds = set_deadline c key ((now + seconds * 1000) % 2 ^ 64)

unfoldable pub set_ttl_ms : ℕ → Cache → Bytes → ℕ → Cache
unfolding set_deadline
set_ttl_ms now c key millis = set_deadline c key ((now + millis) % 2 ^ 64)

unfoldable pub set_ttl_s_at : Cache → Bytes → ℕ → Cache
unfolding set_deadline
set_ttl_s_at c key seconds_at = set_deadline c key (seconds_at * 1000 % 2 ^ 64)

unfoldable pub set_ttl_ms_at : Cache → Bytes → ℕ → Cache
unfolding set_deadline
set_ttl_ms_at c key millis_at = set_deadline c key millis_at

abbrev pub size : Cache → ℕ
size c = length c.nodes
