-- ===== src/Bitcask/Lookup.antt =====
-- `get` after `set` and `erase`: every value that the table names stays where it is.
use cpp_experiments.Common.{
  ℕ, ◌+◌, ◌^◌, ◌≤◌, ◌<◌, ◌≡◌, refl, ap, sym, ◌∙◌, Bool, true, false, Option, none, some, ◌++◌,
  arith, ◌==◌, if◌then◌else◌, length,
}
use cpp_experiments.Common.Bytes.{Bytes, ◌=ᵇ◌}
use cpp_experiments.Common.Dict.{lookup, insert, erase, lookup-insert, lookup-erase}
use cpp_experiments.Bitcask.{
  KeyDirValue, FileEntry, Bitcask, kd, new_entry, tombstone, entry_bytes, append_to,
  ensure_log_size, set, get, delete, read_value, value_of,
}
use cpp_experiments.Bitcask.Values.{same, read_value-append_to, read_value-entry}

-- The table names only bytes that the logs have.
abbrev pub Placed : Bitcask → Type 0
Placed b =
    (j : Bytes) (w : KeyDirValue)
    → lookup j b.key_dir ≡ some w
    → w.vpos + w.vsize ≤ length (b.logs w.id)

get-none : (j : Bytes) (b : Bitcask) → lookup j b.key_dir ≡ none → get j b ≡ none
unfolding get
get-none j b h = ap (value_of b.logs) h

get-some :
    (j : Bytes) (b : Bitcask) (w : KeyDirValue)
    → lookup j b.key_dir ≡ some w
    → get j b ≡ some (read_value w (b.logs w.id))
unfolding get
get-some j b w h = ap (value_of b.logs) h

-- A key whose entry and whose bytes stay has its value.
pub get-keeps :
    (j : Bytes) (b c : Bitcask)
    → lookup j c.key_dir ≡ lookup j b.key_dir
    → ((w : KeyDirValue)
        → lookup j b.key_dir ≡ some w
        → read_value w (c.logs w.id) ≡ read_value w (b.logs w.id))
    → get j c ≡ get j b
get-keeps j b c same_entry same_bytes = go (lookup j b.key_dir) refl
  where
    go : (r : Option KeyDirValue) → lookup j b.key_dir ≡ r → get j c ≡ get j b
    go none h = get-none j c (same_entry ∙ h) ∙ sym (get-none j b h)
    go (some w) h =
        get-some j c w (same_entry ∙ h) ∙ ap some (same_bytes w h) ∙ sym (get-some j b w h)

key_dir-ensure_log_size : (b : Bitcask) → (ensure_log_size b).key_dir ≡ b.key_dir
key_dir-ensure_log_size b = ground arith

pub logs-ensure_log_size : (b : Bitcask) → (ensure_log_size b).logs ≡ b.logs
logs-ensure_log_size b = ground arith

module _ (now : ℕ) (k v : Bytes) (b : Bitcask) where
  abbrev pub entry_of : FileEntry
  entry_of = new_entry now k v (length (b.logs b.curr_id))

  abbrev pub written : Bitcask
  written = record b {
    key_dir = insert k (kd entry_of b.curr_id) b.key_dir;
    logs = append_to b.curr_id (entry_bytes entry_of) b.logs;
  }

  pub key_dir-set : (set now k v b).key_dir ≡ insert k (kd entry_of b.curr_id) b.key_dir
  unfolding set
  key_dir-set = key_dir-ensure_log_size written

  pub logs-set : (set now k v b).logs ≡ append_to b.curr_id (entry_bytes entry_of) b.logs
  unfolding set
  logs-set = logs-ensure_log_size written

  -- The place of the new value and its size are not reduced modulo 2 ^ 32.
  abbrev pub Fits : Type 0
  Fits = length (b.logs b.curr_id) + 16 + length k + length v < 2 ^ 32

  pub vpos-lem : Fits → (kd entry_of b.curr_id).vpos ≡ length (b.logs b.curr_id) + 16 + length k
  vpos-lem fits = omega arith

  pub vsize-lem : Fits → (kd entry_of b.curr_id).vsize ≡ length v
  vsize-lem fits = omega arith

  pub lookup-set :
      (j : Bytes)
      → lookup j (set now k v b).key_dir
        ≡ (if k =ᵇ j then some (kd entry_of b.curr_id) else lookup j b.key_dir)
  lookup-set j = rw key_dir-set (lookup-insert k j (kd entry_of b.curr_id) b.key_dir)

  read_value-set : Fits → read_value (kd entry_of b.curr_id) ((set now k v b).logs b.curr_id) ≡ v
  read_value-set fits =
      ap (λ logs. read_value (kd entry_of b.curr_id) (logs b.curr_id)) logs-set
      ∙ here (b.curr_id == b.curr_id) (same b.curr_id)
    where
      here :
          (t : Bool)
          → t ≡ true
          → read_value
              (kd entry_of b.curr_id)
              (if t then b.logs b.curr_id ++ entry_bytes entry_of else b.logs b.curr_id)
            ≡ v
      here true h =
          read_value-entry (kd entry_of b.curr_id) (b.logs b.curr_id) entry_of (vpos-lem fits)
            (vsize-lem fits)
      here false h = ground arith

  -- Where every entry of the table names bytes that its log has, and the current log with the new
  -- entry has less than 2 ^ 32 bytes, the key has the value after a set, and every other key has what
  -- it had.
  pub get-set_store :
      Placed b → Fits → (j : Bytes) → get j (set now k v b) ≡ (if k =ᵇ j then some v else get j b)
  get-set_store placed fits j = go (k =ᵇ j) refl
    where
      go : (t : Bool) → (k =ᵇ j) ≡ t → get j (set now k v b) ≡ (if t then some v else get j b)
      go true h =
          get-some j (set now k v b) (kd entry_of b.curr_id) (
            lookup-set j
            ∙ ap (λ t. if t then some (kd entry_of b.curr_id) else lookup j b.key_dir) h)
          ∙ ap some (read_value-set fits)
      go false h =
          get-keeps j b (set now k v b)
            (lookup-set j
              ∙ ap (λ t. if t then some (kd entry_of b.curr_id) else lookup j b.key_dir) h)
            (λ w e.
              ap (λ logs. read_value w (logs w.id)) logs-set
              ∙ read_value-append_to b b.curr_id (entry_bytes entry_of) w (placed j w e))

module _ (k : Bytes) (b : Bitcask) where
  abbrev pub erased : Bitcask
  erased = record b { logs = append_to b.curr_id (entry_bytes (tombstone k)) b.logs }

  pub logs-delete : (delete k b).1.logs ≡ append_to b.curr_id (entry_bytes (tombstone k)) b.logs
  unfolding delete
  logs-delete = logs-ensure_log_size erased

  key_dir-delete : (delete k b).1.key_dir ≡ erase k b.key_dir
  unfolding delete
  key_dir-delete = ap (erase k) (key_dir-ensure_log_size erased)

  pub lookup-delete :
      (j : Bytes) → lookup j (delete k b).1.key_dir ≡ (if k =ᵇ j then none else lookup j b.key_dir)
  lookup-delete j = rw key_dir-delete (lookup-erase k j b.key_dir)

  others_stay : Placed b → (j : Bytes) → get j (delete k b).1 ≡ (if k =ᵇ j then none else get j b)
  others_stay placed j = go (k =ᵇ j) refl
    where
      go : (t : Bool) → (k =ᵇ j) ≡ t → get j (delete k b).1 ≡ (if t then none else get j b)
      go true h =
          get-none j (delete k b).1
            (lookup-delete j ∙ ap (λ t. if t then none else lookup j b.key_dir) h)
      go false h =
          get-keeps j b (delete k b).1
            (lookup-delete j ∙ ap (λ t. if t then none else lookup j b.key_dir) h)
            (λ w e.
              ap (λ logs. read_value w (logs w.id)) logs-delete
              ∙ read_value-append_to b b.curr_id (entry_bytes (tombstone k)) w (placed j w e))

  -- Where every entry of the table names bytes that its log has, deletion answers with the value that
  -- the key had; afterwards the key has none, and every other key has what it had.
  pub get-delete :
      Placed b
      → ((delete k b).0 ≡ get k b)
        × ((j : Bytes) → get j (delete k b).1 ≡ (if k =ᵇ j then none else get j b))
  unfolding delete
  get-delete placed = (refl, others_stay placed)
