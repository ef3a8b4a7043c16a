-- ===== src/Bitcask/Load.antt =====
-- Loading the store: entries from a log, and the hint file.
use cpp_experiments.Common.{
  ℕ, zero, suc, ◌+◌, ◌-◌, ◌%◌, ◌^◌, Bool, true, false, ◌&&◌, not, Option, none, some, List, [], ◌∷◌,
  ltb, ◌==◌, if◌then◌else◌, length, take, drop,
}
use cpp_experiments.Common.Bytes.{Bytes, codes, ◌=ᵇ◌}
use cpp_experiments.Common.Decimal.{all_digits, scan_digits}
use cpp_experiments.Common.Words.{le_value}
use cpp_experiments.Common.Dict.{Dict, lookup, insert, erase}
use cpp_experiments.Bitcask.{
  KeyDirValue, FileEntry, Bitcask, compute_crc, is_tombstone, is_empty, kd, log_size,
}

-- What FileEntry::read and the state of the stream say: the file has ended, the entry is no good,
-- or it is there, with what is left of the file.
pub data Reading : Type 0 where
  end_of_file damaged : Reading
  entry : FileEntry → Bytes → Reading

-- A number of four bytes at a place.
abbrev pub int_at : ℕ → Bytes → ℕ
int_at place s = le_value (take 4 (drop place s))

-- The value behind a key, and the check. `pos` is the place in the file where the entry began.
unfoldable pub read_val : Bytes → ℕ → Bytes → Bytes → Reading
read_val head pos key rest =
    let vsz = int_at 12 head in
    if ltb (length rest) vsz
    then end_of_file
    else if compute_crc (drop 4 head) key (take vsz rest) == int_at 0 head
    then entry
        (record {
          tstamp = int_at 4 head;
          ksz = int_at 8 head;
          vsz = vsz;
          vstart = (pos + 16 + int_at 8 head) % 2 ^ 32;
          key = key;
          val = take vsz rest;
        })
        (drop vsz rest)
    else damaged

-- FileEntry::read
unfoldable pub read_entry : ℕ → Bytes → Reading
read_entry pos s =
    let ksz = int_at 8 (take 16 s) in
    let body = drop 16 s in
    if ltb (length s) 16
    then end_of_file
    else if ltb (length body) ksz
    then end_of_file
    else read_val (take 16 s) pos (take ksz body) (drop ksz body)

-- An entry that is no tombstone, with what the table has for its key.
abbrev pub apply_value : ℕ → FileEntry → Dict KeyDirValue → Option KeyDirValue → Dict KeyDirValue
apply_value id e dir none = insert e.key (kd e id) dir
apply_value id e dir (some v) = if ltb v.tstamp e.tstamp then insert e.key (kd e id) dir else dir

-- What the loop of loadFromFile does with an entry.
unfoldable pub apply_entry : ℕ → FileEntry → Dict KeyDirValue → Dict KeyDirValue
apply_entry id e dir =
    if is_tombstone e then erase e.key dir else apply_value id e dir (lookup e.key dir)

-- A round of the loop of loadFromFile; `others` are the rounds behind it.
abbrev pub round :
    (Bytes → Dict KeyDirValue → Bool × Dict KeyDirValue)
    → ℕ
    → Dict KeyDirValue
    → Reading
    → Bool × Dict KeyDirValue
round others id dir end_of_file = (true, dir)
round others id dir damaged = (false, dir)
round others id dir (entry e rest) = others rest (apply_entry id e dir)

-- The loop of loadFromFile over a file of `total` bytes, of which `s` are left. Every entry takes
-- sixteen bytes at least, so that one round more than there are bytes is enough.
unfoldable pub load_entries : ℕ → ℕ → ℕ → Bytes → Dict KeyDirValue → Bool × Dict KeyDirValue
load_entries zero id total s dir = (false, dir)
load_entries (suc fuel) id total s dir =
    round (load_entries fuel id total) id dir (read_entry (total - length s) s)

-- The number behind the dot of the name.
unfoldable pub id_of_text : Bytes → Option ℕ
id_of_text s =
    if all_digits s && (not (is_empty s) && ltb (scan_digits 0 s) (2 ^ 32))
    then some (scan_digits 0 s)
    else none

abbrev pub max_id : ℕ → ℕ → ℕ
max_id a b = if ltb a b then b else a

-- loadFromFile, for the log with a number and the bytes `file`.
unfoldable pub load_log : ℕ → Bytes → Bitcask → Bool × Bitcask
load_log id file b =
    let (good, dir) = load_entries (suc (length file)) id (length file) file b.key_dir in
    (
      good,
      record b {
        key_dir = dir;
        curr_id =
            if good
            then max_id b.curr_id (if ltb (length file) log_size then id else (id + 1) % 2 ^ 32)
            else b.curr_id;
      },
    )

-- A name whose number does not read is refused.
abbrev load_numbered : Option ℕ → Bytes → Bitcask → Bool × Bitcask
load_numbered none file b = (false, b)
load_numbered (some id) file b = load_log id file b

-- loadFromFile, for a file whose name has `text` behind the dot.
unfoldable pub load_from_file : Bytes → Bytes → Bitcask → Bool × Bitcask
load_from_file text file b = load_numbered (id_of_text text) file b

-- One entry of the hint file.
unfoldable pub hint_entry : Bytes → Option (Bytes × KeyDirValue × Bytes)
hint_entry s =
    let ksz = int_at 8 s in
    let body = drop 20 s in
    if ltb (length s) 20
    then none
    else if ltb (length body) ksz
    then none
    else some (
      take ksz body,
      record { id = int_at 4 s; vsize = int_at 12 s; vpos = int_at 16 s; tstamp = int_at 0 s },
      drop ksz body,
    )

-- `emplace`, which keeps an entry that is there.
abbrev emplace : Bytes → KeyDirValue → Dict KeyDirValue → Dict KeyDirValue
emplace key v dir = elim (lookup key dir) [ none ↦ insert key v dir | some w ↦ dir ]

-- The loop of loadFromHintFile; each round takes twenty bytes at least.
unfoldable pub load_hints : ℕ → ℕ → Bytes → Bitcask → Bool × Bitcask
load_hints zero count s b = (false, b)
load_hints (suc fuel) count s b =
    let next : Bool × Bitcask = elim (hint_entry s) [
      | none ↦ (false, b)
      | some (key, v, rest) ↦
          load_hints fuel count rest
            (record b { key_dir = emplace key v b.key_dir; curr_id = max_id b.curr_id v.id })
    ] in
    if ltb (length b.key_dir) count then next else (length b.key_dir == count, b)

-- loadFromHintFile, on a file that is long enough for its count.
unfoldable pub load_from_hint_file : Bytes → Bitcask → Bool × Bitcask
load_from_hint_file file b =
    if take 7 file =ᵇ codes "BITCASK"
    then load_hints (suc (length file)) (le_value (take 8 (drop 7 file))) (drop 15 file) b
    else (false, b)

-- The second branch of `load`: the files in the order in which the directory gives them.
unfoldable pub load_files : List (Bytes × Bytes) → Bitcask → Bitcask
load_files [] b = b
load_files ((text, file) ∷ files) b = load_files files (load_from_file text file b).1
