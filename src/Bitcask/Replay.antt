-- ===== src/Bitcask/Replay.antt =====
-- loadFromFile on a log that `set` and `erase` have written.
use cpp_experiments.Common.{
  ℕ, zero, suc, ◌+◌, ◌-◌, ◌≤◌, ◌<◌, ◌≡◌, refl, ap, sym, ◌∙◌, true, List, [], ◌∷◌, ◌++◌,
  append_assoc, append-nil, arith, length, length-append,
}
use cpp_experiments.Common.Bytes.{Bytes}
use cpp_experiments.Common.Dict.{Dict}
use cpp_experiments.Bitcask.{KeyDirValue, FileEntry, entry_bytes}
use cpp_experiments.Bitcask.Load.{entry, end_of_file, read_entry, apply_entry, load_entries, round}
use cpp_experiments.Bitcask.Placing.{length-entry_bytes}
use cpp_experiments.Bitcask.Records.{IsEntry, read_at, read_entry-entry_bytes}

-- The bytes of a log with these entries.
unfoldable pub log_bytes : List FileEntry → Bytes
log_bytes [] = []
log_bytes (e ∷ es) = entry_bytes e ++ log_bytes es

-- The table after the entries, from the place `pos` of the log `id` on.
unfoldable pub replay : ℕ → ℕ → List FileEntry → Dict KeyDirValue → Dict KeyDirValue
replay id pos [] dir = dir
replay id pos (e ∷ es) dir =
    replay id (pos + length (entry_bytes e)) es (apply_entry id (read_at e pos) dir)

abbrev pub Entries : List FileEntry → Type 0
Entries [] = Unit {0}
Entries (e ∷ es) = IsEntry e × Entries es

read_entry-nil : (pos : ℕ) → read_entry pos [] ≡ end_of_file
unfolding read_entry
read_entry-nil pos = refl

pub log_bytes-append :
    (es : List FileEntry) (e : FileEntry) → log_bytes (es ++ e ∷ []) ≡ log_bytes es ++ entry_bytes e
unfolding log_bytes
log_bytes-append [] e = append-nil (entry_bytes e)
log_bytes-append (d ∷ es) e =
    rw (log_bytes-append es e) (sym (append_assoc (entry_bytes d) (log_bytes es) (entry_bytes e)))

pub Entries-append :
    (es : List FileEntry) (e : FileEntry) → Entries es → IsEntry e → Entries (es ++ e ∷ [])
Entries-append [] e h k = (k, h)
Entries-append (d ∷ es) e h k = (h.0, Entries-append es e h.1 k)

pub replay-append :
    (id : ℕ) (es : List FileEntry) (e : FileEntry) (pos : ℕ) (dir : Dict KeyDirValue)
    → replay id pos (es ++ e ∷ []) dir
      ≡ apply_entry id (read_at e (pos + length (log_bytes es))) (replay id pos es dir)
unfolding replay log_bytes
replay-append id [] e pos dir = ap (λ p. apply_entry id (read_at e p) dir) (omega arith)
replay-append id (d ∷ es) e pos dir =
    replay-append id es e (pos + length (entry_bytes d)) (apply_entry id (read_at d pos) dir)
    ∙ ap
        (λ p.
          apply_entry id (read_at e p)
            (replay id (pos + length (entry_bytes d)) es (apply_entry id (read_at d pos) dir)))
        (omega (arith, length-append (entry_bytes d) (log_bytes es)))

-- One round of the loop, for each answer of `read`.
load_entries-end :
    (fuel id total : ℕ) (s : Bytes) (dir : Dict KeyDirValue)
    → read_entry (total - length s) s ≡ end_of_file
    → load_entries (suc fuel) id total s dir ≡ (true, dir)
unfolding load_entries
load_entries-end fuel id total s dir h = ap (round (load_entries fuel id total) id dir) h

load_entries-entry :
    (fuel id total : ℕ) (s rest : Bytes) (e : FileEntry) (dir : Dict KeyDirValue)
    → read_entry (total - length s) s ≡ entry e rest
    → load_entries (suc fuel) id total s dir
      ≡ load_entries fuel id total rest (apply_entry id e dir)
unfolding load_entries
load_entries-entry fuel id total s rest e dir h = ap (round (load_entries fuel id total) id dir) h

-- Loading a log from its place `pos` on goes through its entries, and ends well.
pub load_entries-log_bytes :
    (id : ℕ) (es : List FileEntry) (pos fuel : ℕ) (dir : Dict KeyDirValue)
    → Entries es
    → length es < fuel
    → load_entries fuel id (pos + length (log_bytes es)) (log_bytes es) dir
      ≡ (true, replay id pos es dir)
unfolding replay log_bytes
load_entries-log_bytes id es pos zero dir h k = ground arith
load_entries-log_bytes id [] pos (suc fuel) dir h k =
    load_entries-end fuel id (pos + 0) [] dir (read_entry-nil _)
load_entries-log_bytes id (e ∷ es) pos (suc fuel) dir h k =
    let rest = log_bytes es in
    let size : length (entry_bytes e ++ rest) ≡ length (entry_bytes e) + length rest =
      length-append (entry_bytes e) rest in
    let there : (pos + length (entry_bytes e ++ rest)) - length (entry_bytes e ++ rest) ≡ pos =
      omega arith in
    load_entries-entry fuel id (pos + length (entry_bytes e ++ rest)) (entry_bytes e ++ rest) rest
      (read_at e pos) dir (rw there (read_entry-entry_bytes e h.0 pos rest))
    ∙ ap (λ total. load_entries fuel id total rest (apply_entry id (read_at e pos) dir))
        (omega (arith, size))
    ∙ load_entries-log_bytes id es (pos + length (entry_bytes e)) fuel
        (apply_entry id (read_at e pos) dir) h.1 (omega arith)

pub length-entries : (es : List FileEntry) → length es ≤ length (log_bytes es)
unfolding log_bytes
length-entries [] = omega arith
length-entries (e ∷ es) =
    omega
      (arith, length-append (entry_bytes e) (log_bytes es), length-entry_bytes e, length-entries es)
