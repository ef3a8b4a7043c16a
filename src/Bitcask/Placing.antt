-- ===== src/Bitcask/Placing.antt =====
-- `set` and `erase` keep the table within the logs.
use cpp_experiments.Common.{
  ℕ, ◌+◌, ◌≤◌, ◌≡◌, ap, sym, subst, ◌∙◌, Bool, true, false, none, some, arith, if◌then◌else◌,
  length, length-append,
}
use cpp_experiments.Common.Bytes.{Bytes, ◌=ᵇ◌}
use cpp_experiments.Common.Dict.{lookup}
use cpp_experiments.Bitcask.{
  KeyDirValue, FileEntry, Bitcask, kd, tombstone, entry_bytes, append_to, set, delete,
}
use mathlib.Core.Option.{some-injective}
use cpp_experiments.Bitcask.Values.{
  length-append_to, entry_bytes-split, length-before_value, before_value, same,
}
use cpp_experiments.Bitcask.Lookup.{
  Placed, Fits, entry_of, logs-set, lookup-set, vpos-lem, vsize-lem, logs-delete, lookup-delete,
}

-- An operation that appends to one log and keeps an entry keeps it within its log.
stays :
    (b c : Bitcask) (id : ℕ) (bytes : Bytes) (w : KeyDirValue)
    → c.logs ≡ append_to id bytes b.logs
    → w.vpos + w.vsize ≤ length (b.logs w.id)
    → w.vpos + w.vsize ≤ length (c.logs w.id)
stays b c id bytes w e h = rw e (omega (arith, length-append_to b id bytes w.id))

pub length-entry_bytes : (e : FileEntry) → length (entry_bytes e) ≡ 16 + length e.key + length e.val
length-entry_bytes e = omega (
  arith,
  ap length (entry_bytes-split e),
  length-append (before_value e) e.val,
  length-before_value e,
)

-- A log after an entry has been written to it.
pub length-written :
    (b : Bitcask) (e : FileEntry)
    → length (append_to b.curr_id (entry_bytes e) b.logs b.curr_id)
      ≡ length (b.logs b.curr_id) + 16 + length e.key + length e.val
length-written b e =
    rw (same b.curr_id)
      (omega (arith, length-append (b.logs b.curr_id) (entry_bytes e), length-entry_bytes e))

module _ (now : ℕ) (k v : Bytes) (b : Bitcask) where
  new_placed :
      Fits now k v b
      → (kd (entry_of now k v b) b.curr_id).vpos + (kd (entry_of now k v b) b.curr_id).vsize
        ≤ length ((set now k v b).logs b.curr_id)
  new_placed fits =
      rw (vpos-lem now k v b fits, vsize-lem now k v b fits, logs-set now k v b)
        (omega (arith, length-written b (entry_of now k v b)))

  pub set-Placed : Placed b → Fits now k v b → Placed (set now k v b)
  set-Placed placed fits j w h = go (k =ᵇ j) (sym (lookup-set now k v b j) ∙ h)
    where
      go :
          (t : Bool)
          → (if t then some (kd (entry_of now k v b) b.curr_id) else lookup j b.key_dir) ≡ some w
          → w.vpos + w.vsize ≤ length ((set now k v b).logs w.id)
      go true e =
          subst (λ u. u.vpos + u.vsize ≤ length ((set now k v b).logs u.id)) (some-injective _ _ e)
            (new_placed fits)
      go false e =
          stays b (set now k v b) b.curr_id (entry_bytes (entry_of now k v b)) w
            (logs-set now k v b) (placed j w e)

pub delete-Placed : (k : Bytes) (b : Bitcask) → Placed b → Placed (delete k b).1
delete-Placed k b placed j w h = go (k =ᵇ j) (sym (lookup-delete k b j) ∙ h)
  where
    go :
        (t : Bool)
        → (if t then none else lookup j b.key_dir) ≡ some w
        → w.vpos + w.vsize ≤ length ((delete k b).1.logs w.id)
    go true e = ground arith
    go false e =
        stays b (delete k b).1 b.curr_id (entry_bytes (tombstone k)) w (logs-delete k b)
          (placed j w e)
