-- ===== src/Bitcask/Merge/Rooms.antt =====
-- The logs that merge writes: behind the current one they are empty, and it has room.
use cpp_experiments.Common.{
  ℕ, ◌+◌, ◌≤◌, ◌<◌, ◌≡◌, refl, sym, subst, ◌∙◌, Bool, true, false, some, [], ◌∷◌, arith, leb, ◌==◌,
  if◌then◌else◌, length,
}
use cpp_experiments.Common.Bytes.{Bytes, ◌=ᵇ◌}
use mathlib.Core.Option.{some-injective}
use cpp_experiments.Common.Dict.{Dict, lookup, lookup-insert}
use cpp_experiments.Bitcask.{KeyDirValue, Bitcask, kd, log_size, ensure_log_size, read_value, set}
use cpp_experiments.Bitcask.Merge.{merge_entries}
use cpp_experiments.Bitcask.Lookup.{entry_of, written}

-- The current log has room, those behind it are empty, and no entry is in one of those.
pub record HasRoom (m : Bitcask) : Type 0 where
  pub room : length (m.logs m.curr_id) < log_size
  pub empty : (i : ℕ) → m.curr_id < i → m.logs i ≡ []
  pub behind : (j : Bytes) (w : KeyDirValue) → lookup j m.key_dir ≡ some w → w.id ≤ m.curr_id

ensure-HasRoom :
    (m : Bitcask)
    → ((i : ℕ) → m.curr_id < i → m.logs i ≡ [])
    → ((j : Bytes) (w : KeyDirValue) → lookup j m.key_dir ≡ some w → w.id ≤ m.curr_id)
    → HasRoom (ensure_log_size m)
ensure-HasRoom m empty behind = go (leb log_size (length (m.logs m.curr_id))) refl
  where
    go :
        (t : Bool)
        → leb log_size (length (m.logs m.curr_id)) ≡ t
        → HasRoom (if t then record m { curr_id = m.curr_id + 1 } else m)
    go true h = record {
      room = rw (empty (m.curr_id + 1) (omega arith)) (omega arith);
      empty = λ i k. empty i (omega (arith, k));
      behind = λ j w e. omega (arith, behind j w e);
    }
    go false h = record {
      room = below (length (m.logs m.curr_id)) h;
      empty = empty;
      behind = behind;
    }
      where
        below : (n : ℕ) → leb log_size n ≡ false → n < log_size
        below n e = ground arith

other : (i n : ℕ) → n < i → (i == n) ≡ false
other i n h = ground arith

pub set-HasRoom : (now : ℕ) (k v : Bytes) (m : Bitcask) → HasRoom m → HasRoom (set now k v m)
unfolding set
set-HasRoom now k v m h = ensure-HasRoom (written now k v m) still_empty still_behind
  where
    still_empty : (i : ℕ) → m.curr_id < i → (written now k v m).logs i ≡ []
    still_empty i e = rw (other i m.curr_id e) (h.empty i e)

    still_behind :
        (j : Bytes) (w : KeyDirValue)
        → lookup j (written now k v m).key_dir ≡ some w
        → w.id ≤ m.curr_id
    still_behind j w e =
        from (k =ᵇ j) (sym (lookup-insert k j (kd (entry_of now k v m) m.curr_id) m.key_dir) ∙ e)
      where
        from :
            (t : Bool)
            → (if t then some (kd (entry_of now k v m) m.curr_id) else lookup j m.key_dir) ≡ some w
            → w.id ≤ m.curr_id
        from true q = subst (λ u. u.id ≤ m.curr_id) (some-injective _ _ q) (omega arith)
        from false q = h.behind j w q

-- Loops over the table keep the room, and the entries within the logs.
pub merge_entries-HasRoom :
    (clock : ℕ → ℕ) (old : ℕ → Bytes) (dir : Dict KeyDirValue) (m : Bitcask)
    → HasRoom m
    → HasRoom (merge_entries clock old dir m)
unfolding merge_entries
merge_entries-HasRoom clock old [] m h = h
merge_entries-HasRoom clock old ((k, v) ∷ dir) m h =
    merge_entries-HasRoom clock old dir (set (clock (length dir)) k (read_value v (old v.id)) m)
      (set-HasRoom (clock (length dir)) k (read_value v (old v.id)) m h)
