-- ===== src/Bitcask/Merge/Kept.antt =====
-- merge keeps the value of every key.
use cpp_experiments.Common.{
  ℕ, zero, suc, ◌+◌, ◌-◌, ◌^◌, ◌≤◌, ◌<◌, ◌≡◌, refl, ap, subst, ◌∙◌, Bool, true, false, Option, none,
  some, List, [], ◌∷◌, arith, leb, if◌then◌else◌, length, length-append, length-replicate, take,
  drop, replicate,
}
use cpp_experiments.Common.Bytes.{Bytes, ◌=ᵇ◌, =ᵇ→eq}
use cpp_experiments.Common.Dict.{Dict, lookup}
use cpp_experiments.Bitcask.{KeyDirValue, Bitcask, read_value, value_of, set, get}
use cpp_experiments.Bitcask.Lookup.{Placed, Fits, get-set_store, get-keeps}
use cpp_experiments.Bitcask.Placing.{set-Placed}
use cpp_experiments.Bitcask.Merge.{new_logs, merge_entries, merge}
use cpp_experiments.Bitcask.Merge.Rooms.{HasRoom, set-HasRoom, merge_entries-HasRoom}

-- Every key is there once.
abbrev pub IsDistinct : Dict KeyDirValue → Type 0
IsDistinct [] = Unit {0}
IsDistinct ((k, v) ∷ dir) = (lookup k dir ≡ none) × IsDistinct dir

-- No key with its value has 2 ^ 31 bytes or more.
abbrev pub IsModest : Dict KeyDirValue → Type 0
IsModest [] = Unit {0}
IsModest ((k, v) ∷ dir) = (length k + v.vsize < 2 ^ 31) × IsModest dir

length-take_le : {A : Type 0} (n : ℕ) (s : List A) → length (take n s) ≤ n
length-take_le zero s = omega arith
length-take_le (suc n) [] = omega arith
length-take_le (suc n) (x ∷ s) = omega (arith, length-take_le n s)

length-read_value : (w : KeyDirValue) (file : Bytes) → length (read_value w file) ≡ w.vsize
length-read_value w file =
    let found = take w.vsize (drop w.vpos file) in
    omega (
      arith,
      length-append found (replicate (w.vsize - length found) 0),
      length-replicate {A = ℕ} (w.vsize - length found) 0,
      length-take_le w.vsize (drop w.vpos file),
    )

-- What a key has that the table of the old store gives `r`, and which has `other` without it.
abbrev kept : (ℕ → Bytes) → Option KeyDirValue → Option Bytes → Option Bytes
kept old none other = other
kept old (some w) other = some (read_value w (old w.id))

fits_new :
    (now : ℕ) (k : Bytes) (w : KeyDirValue) (file : Bytes) (m : Bitcask)
    → HasRoom m
    → length k + w.vsize < 2 ^ 31
    → Fits now k (read_value w file) m
fits_new now k w file m h modest = omega (arith, h.room, length-read_value w file)

get-merge_entries :
    (clock : ℕ → ℕ) (old : ℕ → Bytes) (dir : Dict KeyDirValue) (m : Bitcask)
    → IsDistinct dir
    → IsModest dir
    → HasRoom m
    → Placed m
    → (j : Bytes) → get j (merge_entries clock old dir m) ≡ kept old (lookup j dir) (get j m)
unfolding merge_entries lookup
get-merge_entries clock old [] m distinct modest h placed j = refl
get-merge_entries clock old ((k, v) ∷ dir) m distinct modest h placed j =
    let now = clock (length dir) in
    let value = read_value v (old v.id) in
    let fits = fits_new now k v (old v.id) m h modest.0 in
    get-merge_entries clock old dir (set now k value m) distinct.1 modest.1
      (set-HasRoom now k value m h) (set-Placed now k value m placed fits) j
    ∙ ap (kept old (lookup j dir)) (get-set_store now k value m placed fits j)
    ∙ here (k =ᵇ j) refl
  where
    here :
        (t : Bool)
        → (k =ᵇ j) ≡ t
        → kept old (lookup j dir) (if t then some (read_value v (old v.id)) else get j m)
          ≡ kept old (if t then some v else lookup j dir) (get j m)
    here true e =
        ap (λ r. kept old r (some (read_value v (old v.id))))
          (subst (λ key. lookup key dir ≡ none) (=ᵇ→eq k j e) distinct.0)
    here false e = refl

-- The store that writes the new logs, when the table has been gone through.
abbrev written_anew : (ℕ → ℕ) → Bitcask → Bitcask
written_anew clock b = merge_entries clock b.logs b.key_dir new_logs

none_behind : (j : Bytes) (w : KeyDirValue) → lookup j (new_logs.key_dir) ≡ some w → ⊥
unfolding lookup
none_behind j w e = ground arith

HasRoom-new_logs : HasRoom new_logs
HasRoom-new_logs = record {
  room = omega arith;
  empty = λ i h. refl;
  behind = λ j w e. absurd (none_behind j w e);
}

Placed-new_logs : Placed new_logs
Placed-new_logs j w e = absurd (none_behind j w e)

-- The renaming of the logs does not touch those that the table names.
get-renamed :
    (clock : ℕ → ℕ) (b : Bitcask) (j : Bytes) → get j (merge clock b) ≡ get j (written_anew clock b)
unfolding merge
get-renamed clock b j =
    get-keeps j (written_anew clock b) (merge clock b) refl
      (λ w e. there w (within (written_anew clock b).curr_id w.id (all.behind j w e)))
  where
    all : HasRoom (written_anew clock b)
    all = merge_entries-HasRoom clock b.logs b.key_dir new_logs HasRoom-new_logs

    within : (n i : ℕ) → i ≤ n → leb i n ≡ true
    within n i h = ground arith

    there :
        (w : KeyDirValue)
        → leb w.id (written_anew clock b).curr_id ≡ true
        → read_value w ((merge clock b).logs w.id) ≡ read_value w ((written_anew clock b).logs w.id)
    there w h =
        ap (λ t. read_value w (if t then (written_anew clock b).logs w.id else b.logs w.id)) h

-- After merge every key has the value that it had. Every key is in the table once, and no key with
-- its value has 2 ^ 31 bytes or more.
pub get-merge :
    (clock : ℕ → ℕ) (b : Bitcask)
    → IsDistinct b.key_dir
    → IsModest b.key_dir
    → (j : Bytes) → get j (merge clock b) ≡ get j b
unfolding get lookup
get-merge clock b distinct modest j =
    get-renamed clock b j
    ∙ get-merge_entries clock b.logs b.key_dir new_logs distinct modest HasRoom-new_logs
        Placed-new_logs j
    ∙ same_as_before (lookup j b.key_dir)
  where
    same_as_before : (r : Option KeyDirValue) → kept b.logs r none ≡ value_of b.logs r
    same_as_before none = refl
    same_as_before (some w) = refl
