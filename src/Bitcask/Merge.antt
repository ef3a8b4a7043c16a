-- ===== src/Bitcask/Merge.antt =====
-- merge: the logs written anew from the table. The hint file that it writes at the end is left out.
pub mod Rooms
pub mod Kept
use cpp_experiments.Common.{ℕ, zero, suc, ◌+◌, List, [], ◌∷◌, leb, if◌then◌else◌, length}
use cpp_experiments.Common.Bytes.{Bytes}
use cpp_experiments.Common.Dict.{Dict}
use cpp_experiments.Bitcask.{KeyDirValue, Bitcask, read_value, set}

-- The store that writes the new logs, which are not there before.
abbrev pub new_logs : Bitcask
new_logs = record { key_dir = []; curr_id = 0; logs = λ _. [] }

-- The loop over the table: each value is read from its old log and written as `set` writes. The
-- clock is read for each entry, by the number of entries behind it.
unfoldable pub merge_entries : (ℕ → ℕ) → (ℕ → Bytes) → Dict KeyDirValue → Bitcask → Bitcask
merge_entries clock old [] m = m
merge_entries clock old ((key, v) ∷ dir) m =
    merge_entries clock old dir (set (clock (length dir)) key (read_value v (old v.id)) m)

-- The new logs take the places of the old ones, up to the last of them.
unfoldable pub merge : (ℕ → ℕ) → Bitcask → Bitcask
merge clock b =
    let m = merge_entries clock b.logs b.key_dir new_logs in
    record m { logs = λ j. if leb j m.curr_id then m.logs j else b.logs j }
