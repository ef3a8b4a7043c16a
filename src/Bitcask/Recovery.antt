-- ===== src/Bitcask/Recovery.antt =====
-- loadFromFile after `set` and `erase`: the store that is loaded from the log answers as the store
-- that wrote it.
use cpp_experiments.Common.{
  ℕ, suc, ◌<◌, ◌≡◌, refl, ap, sym, ◌∙◌, true, List, [], ◌∷◌, ◌++◌, arith, length,
}
use cpp_experiments.Common.Bytes.{Bytes, codes}
use cpp_experiments.Common.Decimal.{all_digits, scan_digits}
use cpp_experiments.Common.Dict.{lookup}
use cpp_experiments.Bitcask.{FileEntry, Bitcask, max_u32, tombstone, set, get, delete, value_of}
use cpp_experiments.Bitcask.Load.{load_entries, load_log, id_of_text, load_from_file}
use cpp_experiments.Bitcask.Lookup.{entry_of}
use cpp_experiments.Bitcask.Replay.{log_bytes, replay, load_entries-log_bytes, length-entries}
use cpp_experiments.Bitcask.Stored.{Small, Newer, Stored, set-Stored, delete-Stored}

-- The stores that an empty one becomes, while its first log has room and the clock moves on from
-- one `set` to the next.
pub data Reached : Bitcask → Type 0 where
  started : (b : Bitcask) → b.key_dir ≡ [] → b.curr_id ≡ 0 → b.logs 0 ≡ [] → Reached b
  has_set :
      (now : ℕ) (k v : Bytes) (b : Bitcask)
      → Reached b
      → Newer now b
      → now < max_u32
      → Small (set now k v b)
      → Reached (set now k v b)
  has_deleted :
      (k : Bytes) (b : Bitcask) → Reached b → Small (delete k b).1 → Reached (delete k b).1

data History (b : Bitcask) : Type 0 where
  history : (es : List FileEntry) → Stored b es → History b

Reached-History : (b : Bitcask) → Reached b → History b
unfolding replay log_bytes
Reached-History _ (started b empty current no_log) = history [] (record {
  current = current;
  written = no_log;
  entries = tt;
  agrees = λ j. ap (lookup j) (sym empty);
})
Reached-History _ (has_set now k v b r newer stamp small) = next (Reached-History b r)
  where
    next : History b → History (set now k v b)
    next (history es h) =
        history (es ++ entry_of now k v b ∷ []) (set-Stored now k v b es h small newer stamp)
Reached-History _ (has_deleted k b r small) = next (Reached-History b r)
  where
    next : History b → History (delete k b).1
    next (history es h) = history (es ++ tombstone k ∷ []) (delete-Stored k b es h small)

-- The store before it loads its log.
abbrev pub reopened : Bitcask → Bitcask
reopened b = record b { key_dir = []; curr_id = 0 }

load_log-Stored :
    (b : Bitcask) (es : List FileEntry)
    → Stored b es
    → load_entries (suc (length (b.logs 0))) 0 (length (b.logs 0)) (b.logs 0) []
      ≡ (true, replay 0 0 es [])
load_log-Stored b es h = rw h.written (
    ap (λ n. load_entries (suc (length (log_bytes es))) 0 n (log_bytes es) []) (omega arith)
    ∙ load_entries-log_bytes 0 es 0 (suc (length (log_bytes es))) [] h.entries
        (omega (arith, length-entries es)))

-- A store that has had any number of sets and deletions, loaded from its log again, loads well and
-- answers every key as before. The log has room for more throughout, and the clock moves on from
-- each set to the next one that meets an entry.
pub recovered :
    (b : Bitcask)
    → Reached b
    → ((load_from_file (codes "0") (b.logs 0) (reopened b)).0 ≡ true)
      × ((j : Bytes) → get j (load_from_file (codes "0") (b.logs 0) (reopened b)).1 ≡ get j b)
unfolding load_from_file id_of_text load_log get all_digits scan_digits
recovered b r = from_history (Reached-History b r)
  where
    from_history :
        History b
        → ((load_log 0 (b.logs 0) (reopened b)).0 ≡ true)
          × ((j : Bytes) → get j (load_log 0 (b.logs 0) (reopened b)).1 ≡ get j b)
    from_history (history es h) =
        rw (load_log-Stored b es h) (refl, λ j. ap (value_of b.logs) (h.agrees j))
