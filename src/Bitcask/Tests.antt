-- ===== src/Bitcask/Tests.antt =====
-- Runs of the store, and the theorems at concrete inputs.
use cpp_experiments.Common.{ℕ, ◌≡◌, refl, true, none, some, [], arith, if◌then◌else◌}
use cpp_experiments.Common.Bytes.{Bytes, ◌=ᵇ◌, codes}
use cpp_experiments.Common.Dict.{lookup, insert, erase}
use cpp_experiments.Common.Decimal.{all_digits, scan_digits}
use cpp_experiments.Common.Words.{le_bytes, le_value}
use cpp_experiments.Hashlib.{crc_update, crc_value}
use cpp_experiments.Bitcask.{Bitcask, compute_crc, int_bytes, entry_bytes, set, get, delete}
use cpp_experiments.Bitcask.Load.{
  read_entry, read_val, apply_entry, load_entries, load_log, id_of_text, load_from_file,
}
use cpp_experiments.Bitcask.Lookup.{Placed, get-set_store, get-delete}
use cpp_experiments.Bitcask.Stored.{Newer}
use cpp_experiments.Bitcask.Merge.{merge, merge_entries}
use cpp_experiments.Bitcask.Merge.Kept.{IsDistinct, IsModest, get-merge}
use cpp_experiments.Bitcask.Recovery.{Reached, started, has_set, has_deleted, reopened, recovered}

abbrev empty_store : Bitcask
empty_store = record { key_dir = []; curr_id = 0; logs = λ _. [] }

abbrev one_key : Bitcask
one_key = set 5 (codes "k") (codes "one") empty_store

empty-Placed : Placed empty_store
unfolding lookup
empty-Placed j w h = ground arith

get-set_store_example :
    get (codes "k") (set 5 (codes "k") (codes "one") empty_store) ≡ some (codes "one")
unfolding ◌=ᵇ◌
get-set_store_example =
    get-set_store 5 (codes "k") (codes "one") empty_store empty-Placed (omega arith) (codes "k")

get-delete_example :
    ((delete (codes "k") empty_store).0 ≡ get (codes "k") empty_store)
    × ((j : Bytes)
        → get j (delete (codes "k") empty_store).1
          ≡ (if codes "k" =ᵇ j then none else get j empty_store))
get-delete_example = get-delete (codes "k") empty_store empty-Placed

abbrev after_delete : Bitcask
after_delete = (delete (codes "k") one_key).1

abbrev two_keys : Bitcask
two_keys = set 6 (codes "m") (codes "two") after_delete

nothing-Newer : (now : ℕ) → Newer now empty_store
unfolding lookup
nothing-Newer now j w h = ground arith

still_nothing : Newer 6 after_delete
unfolding set delete insert erase lookup ◌=ᵇ◌
still_nothing j w h = ground arith

Reached-two_keys : Reached two_keys
unfolding set delete insert erase lookup ◌=ᵇ◌ entry_bytes int_bytes le_bytes
Reached-two_keys =
    has_set 6 (codes "m") (codes "two") after_delete
      (has_deleted (codes "k") one_key
        (has_set 5 (codes "k") (codes "one") empty_store (started empty_store refl refl refl)
          (nothing-Newer 5) (omega arith) (omega arith))
        (omega arith))
      still_nothing (omega arith) (omega arith)

recovered_example :
    ((load_from_file (codes "0") (two_keys.logs 0) (reopened two_keys)).0 ≡ true)
    × ((j : Bytes)
        → get j (load_from_file (codes "0") (two_keys.logs 0) (reopened two_keys)).1
          ≡ get j two_keys)
recovered_example = recovered two_keys Reached-two_keys

-- A second set of a key within one millisecond is lost when the log is loaded.
abbrev twice : Bitcask
twice = set 5 (codes "k") (codes "two") one_key

lost_update :
    (get (codes "k") twice ≡ some (codes "two"))
    × (get (codes "k") (load_from_file (codes "0") (twice.logs 0) (reopened twice)).1
        ≡ some (codes "one"))
unfolding get set insert lookup ◌=ᵇ◌ entry_bytes int_bytes le_bytes compute_crc crc_update crc_value
    load_from_file load_log id_of_text load_entries read_entry read_val apply_entry le_value
    all_digits scan_digits
lost_update = (refl, refl)

abbrev with_both : Bitcask
with_both = set 6 (codes "m") (codes "two") one_key

both-IsDistinct : IsDistinct with_both.key_dir
unfolding set insert lookup ◌=ᵇ◌ entry_bytes le_bytes int_bytes
both-IsDistinct = (refl, (refl, tt))

both-IsModest : IsModest with_both.key_dir
unfolding set insert ◌=ᵇ◌ entry_bytes le_bytes int_bytes
both-IsModest = (omega arith, (omega arith, tt))

get-merge_example : get (codes "k") (merge (λ n. n) with_both) ≡ get (codes "k") with_both
get-merge_example = get-merge (λ n. n) with_both both-IsDistinct both-IsModest (codes "k")

merged_value : get (codes "m") (merge (λ n. n) with_both) ≡ some (codes "two")
unfolding merge merge_entries set get insert lookup ◌=ᵇ◌ entry_bytes int_bytes le_bytes compute_crc
merged_value = refl
