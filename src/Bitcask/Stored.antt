-- ===== src/Bitcask/Stored.antt =====
-- The entries in the first log after `set` and `erase`, and what loading makes of them.
use cpp_experiments.Common.{
  ℕ, ◌+◌, ◌%◌, ◌^◌, ◌<◌, ◌≡◌, refl, ap, sym, subst, ◌∙◌, true, false, Option, none, some, List, [],
  ◌∷◌, ◌++◌, arith, ltb, leb, if◌then◌else◌, length, length-append,
}
use cpp_experiments.Common.Bytes.{Bytes, ◌=ᵇ◌}
use cpp_experiments.Common.Dict.{Dict, lookup, lookup-insert, lookup-erase}
use cpp_experiments.Bitcask.{
  KeyDirValue, FileEntry, Bitcask, max_u32, kd, tombstone, is_tombstone, entry_bytes, append_to,
  log_size, ensure_log_size, set, delete,
}
use cpp_experiments.Bitcask.Load.{apply_entry, apply_value}
use cpp_experiments.Bitcask.Records.{IsEntry, read_at}
use cpp_experiments.Bitcask.Lookup.{
  entry_of, written, erased, logs-ensure_log_size, logs-set, lookup-set, logs-delete, lookup-delete,
}
use cpp_experiments.Bitcask.Placing.{length-entry_bytes}
use cpp_experiments.Bitcask.Replay.{
  log_bytes, replay, Entries, log_bytes-append, Entries-append, replay-append,
}

-- The first log has room for more.
abbrev pub Small : Bitcask → Type 0
Small b = length (b.logs 0) < log_size

-- Every entry of the table is older.
abbrev pub Newer : ℕ → Bitcask → Type 0
Newer now b = (j : Bytes) (w : KeyDirValue) → lookup j b.key_dir ≡ some w → w.tstamp < now

-- The first log has these entries, and the table is what they make of an empty one.
pub record Stored (b : Bitcask) (es : List FileEntry) : Type 0 where
  pub current : b.curr_id ≡ 0
  pub written : b.logs 0 ≡ log_bytes es
  pub entries : Entries es
  pub agrees : (j : Bytes) → lookup j (replay 0 0 es []) ≡ lookup j b.key_dir

less : (m n : ℕ) → m < n → ltb m n ≡ true
less m n h = ground arith

not_full : (n : ℕ) → n < log_size → leb log_size n ≡ false
not_full n h = ground arith

-- What an entry does to the table when it is loaded.
lookup-apply_value :
    (id : ℕ) (e : FileEntry) (dir : Dict KeyDirValue) (j : Bytes)
    → e.tstamp < max_u32
    → ((w : KeyDirValue) → lookup e.key dir ≡ some w → w.tstamp < e.tstamp)
    → lookup j (apply_entry id e dir) ≡ (if e.key =ᵇ j then some (kd e id) else lookup j dir)
unfolding apply_entry
lookup-apply_value id e dir j h newer = rw no_tombstone (go (lookup e.key dir) refl)
  where
    no_tombstone : is_tombstone e ≡ false
    no_tombstone = ground arith

    go :
        (r : Option KeyDirValue)
        → lookup e.key dir ≡ r
        → lookup j (apply_value id e dir r) ≡ (if e.key =ᵇ j then some (kd e id) else lookup j dir)
    go none k = lookup-insert e.key j (kd e id) dir
    go (some w) k = rw (less w.tstamp e.tstamp (newer w k)) (lookup-insert e.key j (kd e id) dir)

lookup-apply_tombstone :
    (id : ℕ) (e : FileEntry) (dir : Dict KeyDirValue) (j : Bytes)
    → is_tombstone e ≡ true
    → lookup j (apply_entry id e dir) ≡ (if e.key =ᵇ j then none else lookup j dir)
unfolding apply_entry
lookup-apply_tombstone id e dir j h = rw h (lookup-erase e.key j dir)

curr_id-ensure :
    (c : Bitcask)
    → c.curr_id ≡ 0
    → length ((ensure_log_size c).logs 0) < log_size
    → (ensure_log_size c).curr_id ≡ 0
curr_id-ensure c h small = rw (h, not_full (length (c.logs 0)) room) refl
  where
    room : length (c.logs 0) < log_size
    room = subst (λ logs. length (logs 0) < log_size) (logs-ensure_log_size c) small

-- A write to the first log that leaves room.
module _ (b c : Bitcask) (es : List FileEntry) (e : FileEntry) (h : Stored b es)
    (logs : c.logs ≡ append_to b.curr_id (entry_bytes e) b.logs) (small : Small c) where
  grown : c.logs 0 ≡ b.logs 0 ++ entry_bytes e
  grown = rw (logs, h.current) refl

  sizes : length (b.logs 0) + 16 + length e.key + length e.val < log_size
  sizes = omega (
    arith,
    small,
    ap length grown,
    length-append (b.logs 0) (entry_bytes e),
    length-entry_bytes e,
  )

  place : 0 + length (log_bytes es) ≡ length (b.logs 0)
  place = omega (arith, ap length h.written)

  appended :
      c.curr_id ≡ 0
      → IsEntry e
      → ((j : Bytes)
          → lookup j (apply_entry 0 (read_at e (length (b.logs 0))) (replay 0 0 es []))
            ≡ lookup j c.key_dir)
      → Stored c (es ++ e ∷ [])
  appended current good agree = record {
    current = current;
    written = grown ∙ ap (λ s. s ++ entry_bytes e) h.written ∙ sym (log_bytes-append es e);
    entries = Entries-append es e h.entries good;
    agrees = λ j.
        ap (lookup j) (
          replay-append 0 es e 0 []
          ∙ ap (λ n. apply_entry 0 (read_at e n) (replay 0 0 es [])) place)
        ∙ agree j;
  }

-- A set adds its entry to the log.
module _ (now : ℕ) (k v : Bytes) (b : Bitcask) (es : List FileEntry) (h : Stored b es)
    (small : Small (set now k v b)) (newer : Newer now b) (stamp : now < max_u32) where
  set_sizes : length (b.logs 0) + 16 + length k + length v < log_size
  set_sizes = sizes b (set now k v b) es (entry_of now k v b) h (logs-set now k v b) small

  set_good : IsEntry (entry_of now k v b)
  set_good = record {
    stamp = omega (arith, stamp);
    key_size = omega (arith, set_sizes);
    val_size = omega (arith, set_sizes);
    key_fits = omega (arith, set_sizes);
    val_fits = omega (arith, set_sizes);
  }

  set_current : (set now k v b).curr_id ≡ 0
  unfolding set
  set_current = curr_id-ensure (written now k v b) h.current small

  same_value :
      kd (read_at (entry_of now k v b) (length (b.logs 0))) 0 ≡ kd (entry_of now k v b) b.curr_id
  same_value =
      let size : length v % 2 ^ 32 ≡ length v = set_good.val_size in
      let place : (length (b.logs 0) % 2 ^ 32 + 16 + length k % 2 ^ 32) % 2 ^ 32
          ≡ (length (b.logs 0) + 16 + length k) % 2 ^ 32 =
        omega (arith, set_sizes) in
      rw (h.current, size, place) refl

  pub set-Stored : Stored (set now k v b) (es ++ entry_of now k v b ∷ [])
  set-Stored =
      appended b (set now k v b) es (entry_of now k v b) h (logs-set now k v b) small set_current
        set_good
        (λ j.
          lookup-apply_value 0 (read_at (entry_of now k v b) (length (b.logs 0))) (replay 0 0 es [])
            j stamp (λ w e. newer k w (sym (h.agrees k) ∙ e))
          ∙ ap (λ r. if k =ᵇ j then some r else lookup j (replay 0 0 es [])) same_value
          ∙ ap (λ r. if k =ᵇ j then some (kd (entry_of now k v b) b.curr_id) else r) (h.agrees j)
          ∙ sym (lookup-set now k v b j))

-- A deletion adds a tombstone.
module _ (k : Bytes) (b : Bitcask) (es : List FileEntry) (h : Stored b es)
    (small : Small (delete k b).1) where
  delete_sizes : length (b.logs 0) + 16 + length k + 0 < log_size
  delete_sizes = sizes b (delete k b).1 es (tombstone k) h (logs-delete k b) small

  delete_good : IsEntry (tombstone k)
  delete_good = record {
    stamp = omega arith;
    key_size = omega (arith, delete_sizes);
    val_size = refl;
    key_fits = omega (arith, delete_sizes);
    val_fits = omega arith;
  }

  delete_current : (delete k b).1.curr_id ≡ 0
  unfolding delete
  delete_current = curr_id-ensure (erased k b) h.current small

  pub delete-Stored : Stored (delete k b).1 (es ++ tombstone k ∷ [])
  delete-Stored =
      appended b (delete k b).1 es (tombstone k) h (logs-delete k b) small delete_current
        delete_good
        (λ j.
          lookup-apply_tombstone 0 (read_at (tombstone k) (length (b.logs 0))) (replay 0 0 es []) j
            refl
          ∙ ap (λ r. if k =ᵇ j then none else r) (h.agrees j)
          ∙ sym (lookup-delete k b j))
