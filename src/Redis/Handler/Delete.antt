-- ===== src/Redis/Handler/Delete.antt =====
-- What DEL removes.
use cpp_experiments.Common.{
  ℕ, ◌≤◌, ◌≡◌, refl, Bool, true, false, ◌&&◌, ◌||◌, not, List, [], ◌∷◌, if◌then◌else◌, arith,
  length,
}
use cpp_experiments.Common.Int.{pos}
use cpp_experiments.Common.Fault.{ok}
use cpp_experiments.Common.Bytes.{Bytes, ◌=ᵇ◌, =ᵇ→eq}
use cpp_experiments.Common.Dict.{lookup-erase}
use cpp_experiments.Redis.Node.{long}
use cpp_experiments.Redis.Cache.{Cache, exists, erase}
use cpp_experiments.Redis.Handler.{reply, handle_del, delete_all}

abbrev pub contains : Bytes → List Bytes → Bool
contains j [] = false
contains j (k ∷ ks) = (k =ᵇ j) || contains j ks

exists-erase : (c : Cache) (k j : Bytes) → exists (erase c k) j ≡ (exists c j && not (k =ᵇ j))
unfolding exists erase
exists-erase c k j = ground (arith, lookup-erase k j c.nodes)

exists_equal : (c : Cache) (k j : Bytes) → (k =ᵇ j) ≡ true → exists c k ≡ exists c j
exists_equal c k j h = ground (arith, =ᵇ→eq k j h)

exists-delete_all :
    (now : ℕ) (keys : List Bytes) (c : Cache) (j : Bytes)
    → exists (delete_all now keys c).1 j ≡ (exists c j && not (contains j keys))
unfolding delete_all
exists-delete_all now [] c j = ground arith
exists-delete_all now (k ∷ ks) c j = ground (
  arith,
  exists-delete_all now ks (if exists c k then erase c k else c) j,
  exists-erase c k j,
  exists_equal c k j,
)

delete_all-le : (now : ℕ) (keys : List Bytes) (c : Cache) → (delete_all now keys c).0 ≤ length keys
unfolding delete_all
delete_all-le now [] c = omega arith
delete_all-le now (k ∷ ks) c =
    ground (arith, delete_all-le now ks (if exists c k then erase c k else c))

-- DEL replies with a number that is at most the number of keys named, and afterwards a key is in
-- the cache exactly if it was before and is not named.
pub exists-del :
    (now : ℕ) (cmd : Bytes) (keys : List Bytes) (c : Cache)
    → (n : ℕ) × (c' : Cache) × (handle_del now (cmd ∷ keys) c ≡ ok (reply (long (pos n)), c'))
      × (n ≤ length keys)
      × ((j : Bytes) → exists c' j ≡ (exists c j && not (contains j keys)))
unfolding handle_del
exists-del now cmd keys c = (
  (delete_all now keys c).0,
  (delete_all now keys c).1,
  refl,
  delete_all-le now keys c,
  exists-delete_all now keys c,
)
