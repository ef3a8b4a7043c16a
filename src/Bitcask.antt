-- ===== src/Bitcask.antt =====
-- cli/bitcask.cpp: the log-structured store. The clock is an argument. A file is its bytes; those
-- that a stream still buffers count as written, since `get` flushes the file that it reads, and the
-- position of a file opened for appending is its end.
pub mod Load
pub mod Records
pub mod Values
pub mod Lookup
pub mod Placing
pub mod Replay
pub mod Stored
pub mod Recovery
pub mod Merge
pub mod Tests
use cpp_experiments.Common.{
  ℕ, zero, suc, ◌+◌, ◌-◌, ◌*◌, ◌%◌, ◌^◌, Bool, true, false, ◌&&◌, ◌||◌, Option, none, some, List,
  [], ◌∷◌, ◌++◌, ltb, leb, ◌==◌, if◌then◌else◌, length, take, drop, replicate,
}
use cpp_experiments.Common.Bytes.{Bytes}
use cpp_experiments.Common.Words.{le_bytes, le_value}
use cpp_experiments.Common.Dict.{Dict, lookup, insert, erase}
use cpp_experiments.Hashlib.{crc_update, crc_value}

-- computeCRC, on the twelve bytes of the three numbers as they are in the file.
unfoldable pub compute_crc : Bytes → Bytes → Bytes → ℕ
compute_crc ints key val =
    crc_value (crc_update (crc_update (crc_update 0xFFFFFFFF ints) key) val) % 2 ^ 32

pub record KeyDirValue : Type 0 where
  pub id : ℕ
  pub vsize : ℕ
  pub vpos : ℕ
  pub tstamp : ℕ

pub record FileEntry : Type 0 where
  pub tstamp : ℕ
  pub ksz : ℕ
  pub vsz : ℕ
  pub vstart : ℕ
  pub key : Bytes
  pub val : Bytes

abbrev pub max_u32 : ℕ
max_u32 = 2 ^ 32 - 1

-- The constructor; `now` is the timestamp and `fsz` the position in the file.
abbrev pub new_entry : ℕ → Bytes → Bytes → ℕ → FileEntry
new_entry now key val fsz = record {
  tstamp = now;
  ksz = length key % 2 ^ 32;
  vsz = length val % 2 ^ 32;
  vstart = (fsz % 2 ^ 32 + 16 + length key % 2 ^ 32) % 2 ^ 32;
  key = key;
  val = val;
}

abbrev pub tombstone : Bytes → FileEntry
tombstone key = record {
  tstamp = max_u32;
  ksz = length key % 2 ^ 32;
  vsz = 0;
  vstart = 0;
  key = key;
  val = [];
}

abbrev pub is_empty : Bytes → Bool
is_empty [] = true
is_empty (c ∷ s) = false

abbrev pub is_tombstone : FileEntry → Bool
is_tombstone e = e.tstamp == max_u32 && (e.vsz == 0 && is_empty e.val)

abbrev pub kd : FileEntry → ℕ → KeyDirValue
kd e id = record { id = id; vsize = e.vsz; vpos = e.vstart; tstamp = e.tstamp }

-- The three numbers of an entry in the file.
unfoldable pub int_bytes : FileEntry → Bytes
int_bytes e = le_bytes 4 e.tstamp ++ (le_bytes 4 e.ksz ++ le_bytes 4 e.vsz)

-- FileEntry::write
unfoldable pub entry_bytes : FileEntry → Bytes
entry_bytes e =
    le_bytes 4 (compute_crc (int_bytes e) e.key e.val) ++ (int_bytes e ++ (e.key ++ e.val))

pub record Bitcask : Type 0 where
  pub key_dir : Dict KeyDirValue
  pub curr_id : ℕ
  pub logs : ℕ → Bytes

abbrev pub log_size : ℕ
log_size = 2000000000

-- Bytes at the end of a log.
abbrev pub append_to : ℕ → Bytes → (ℕ → Bytes) → ℕ → Bytes
append_to id bytes logs j = if j == id then logs j ++ bytes else logs j

-- ensureLogSizeLimits: the next file is opened for appending.
abbrev pub ensure_log_size : Bitcask → Bitcask
ensure_log_size b =
    if leb log_size (length (b.logs b.curr_id)) then record b { curr_id = b.curr_id + 1 } else b

unfoldable pub set : ℕ → Bytes → Bytes → Bitcask → Bitcask
set now key val b =
    let entry = new_entry now key val (length (b.logs b.curr_id)) in
    ensure_log_size (record b {
      key_dir = insert key (kd entry b.curr_id) b.key_dir;
      logs = append_to b.curr_id (entry_bytes entry) b.logs;
    })

-- `val(vsize, 0)` after the read of as many bytes as there are.
abbrev pub read_value : KeyDirValue → Bytes → Bytes
read_value v file =
    let found = take v.vsize (drop v.vpos file) in found ++ replicate (v.vsize - length found) 0

-- What `get` does with what it finds in the table.
abbrev pub value_of : (ℕ → Bytes) → Option KeyDirValue → Option Bytes
value_of logs none = none
value_of logs (some v) = some (read_value v (logs v.id))

unfoldable pub get : Bytes → Bitcask → Option Bytes
get key b = value_of b.logs (lookup key b.key_dir)

-- erase
unfoldable pub delete : Bytes → Bitcask → Option Bytes × Bitcask
delete key b =
    let t =
      ensure_log_size
        (record b { logs = append_to b.curr_id (entry_bytes (tombstone key)) b.logs }) in
    (get key b, record t { key_dir = erase key t.key_dir })

unfoldable pub size : Bitcask → ℕ
size b = length b.key_dir
