-- ===== src/Redis/Dump.antt =====
-- redis-server/src/Cache.cpp: `save` and `load`, the dump file as bytes. A std::size_t and an
-- unsigned long are eight bytes, the low one first.
mod Streams
pub mod Reload
use cpp_experiments.Common.{
  ℕ, zero, suc, ◌+◌, ◌-◌, ◌*◌, ◌/◌, ◌%◌, ◌^◌, Bool, true, false, ◌&&◌, ◌||◌, not, Option, none,
  some, List, [], ◌∷◌, ◌++◌, map, ltb, leb, ◌==◌, if◌then◌else◌, length, take, drop, replicate,
}
use cpp_experiments.Common.Fault.{Run, ok, fault, undefined, thrown, ◌>>=◌}
use cpp_experiments.Common.Bytes.{Bytes, codes, ◌=ᵇ◌}
use cpp_experiments.Common.Decimal.{print_ℕ}
use cpp_experiments.Common.Words.{le_bytes, le_value}
use cpp_experiments.Common.Dict.{Dict, lookup, insert, erase}
use cpp_experiments.Redis.Node.{Node, plain, variant, aggregate, serialize, remembered, deserialize}
use cpp_experiments.Redis.Cache.{Cache}

abbrev pub word : ℕ → Bytes
word n = le_bytes 8 n

-- Cache::writeEncodedString
unfoldable pub encoded : Bytes → Bytes
encoded s = word (length s) ++ s

-- The loop that drops the expired entries before a save.
abbrev pub overdue : ℕ → Option ℕ → Bool
overdue now none = false
overdue now (some t) = ltb t now

unfoldable pub drop_expired : ℕ → Dict Node → Dict ℕ → Dict Node × Dict ℕ
drop_expired now [] ttl = ([], ttl)
drop_expired now ((key, node) ∷ nodes) ttl =
    let late = overdue now (lookup key ttl) in
    let (rest, ttl') = drop_expired now nodes (if late then erase key ttl else ttl) in
    (if late then rest else (key, node) ∷ rest, ttl')

abbrev pub node_type : Node → ℕ
node_type (plain _ _) = b'P'
node_type (variant _) = b'V'
node_type (aggregate _) = b'A'

abbrev pub deadline_bytes : Option ℕ → Bytes
deadline_bytes none = []
deadline_bytes (some t) = 0xFC ∷ word t

unfoldable pub entry_bytes : Dict ℕ → Bytes × Node → Bytes
entry_bytes ttl (key, node) =
    deadline_bytes (lookup key ttl) ++ (node_type node ∷ (encoded key ++ encoded (serialize node)))

unfoldable pub entries_bytes : Dict ℕ → Dict Node → Bytes
entries_bytes ttl [] = []
entries_bytes ttl (e ∷ es) = entry_bytes ttl e ++ entries_bytes ttl es

abbrev pub header : Bytes
header = codes "REDIS0003"

unfoldable pub dump_bytes : ℕ → Cache → Bytes
dump_bytes now c =
    header
    ++ (0xFA
        ∷ (encoded (codes "Timestamp(ms)")
            ++ (encoded (print_ℕ now)
                ++ (0xFE
                    ∷ 0
                    ∷ 0xFB
                    ∷ (word (length c.nodes)
                        ++ (word (length c.ttl) ++ (entries_bytes c.ttl c.nodes ++ 0xFF ∷ [])))))))

unfoldable pub remember_all : Dict Node → Dict Node
remember_all [] = []
remember_all ((key, node) ∷ es) = (key, remembered node) ∷ remember_all es

-- How the file system answers: whether the file opens, whether the stream stays good, and what
-- reaches the file if it does not.
pub record Disk : Type 0 where
  pub opens : Bool
  pub stays_good : Bool
  pub partial : Bytes → Bytes

-- Cache::save: the result, the cache, and the file if it was opened.
unfoldable pub save : Disk → ℕ → Cache → Bool × Cache × Option Bytes
save disk now c =
    let (nodes, ttl) = drop_expired now c.nodes c.ttl in
    let kept : Cache = record { nodes = nodes; ttl = ttl } in
    if not disk.opens then (false, kept, none) else (
      disk.stays_good,
      record kept { nodes = remember_all nodes },
      some (if disk.stays_good then dump_bytes now kept else disk.partial (dump_bytes now kept)),
    )

-- An input stream: what is left, and whether a read has failed.
pub record Input : Type 0 where
  pub rest : Bytes
  pub failed : Bool

-- ifs.get(c): on a failure the character keeps its old value.
unfoldable pub get_byte : ℕ → Input → ℕ × Input
get_byte old s = elim s.rest [
  | [] ↦ (old, record s { failed = true })
  | b ∷ r ↦ if s.failed then (old, s) else (b, record s { rest = r })
]

-- ifs.read(p, n): the bytes that arrived, and whether all did.
unfoldable pub read_bytes : ℕ → Input → Bytes × Bool × Input
read_bytes n s = if s.failed then ([], false, s) else (
  take n s.rest,
  leb n (length s.rest),
  record { rest = drop n s.rest; failed = ltb (length s.rest) n },
)

-- A read into a word that begins as zero.
unfoldable pub read_word : Input → ℕ × Input
read_word s = let (bs, all, s') = read_bytes 8 s in (le_value bs, s')

-- Cache::readEncodedString: the length is not initialised before the read.
unfoldable pub read_encoded : Input → Run (Bytes × Input)
read_encoded s =
    let (bs, all, s') = read_bytes 8 s in
    let n = le_value bs in
    let (text, _, s'') = read_bytes n s' in
    if not all
    then fault undefined
    else if leb (2 ^ 63 - 1) n
    then fault thrown
    else ok (text ++ replicate (n - length text) 0, s'')

-- The metadata loop; each round that goes on has consumed input.
unfoldable pub read_metadata : ℕ → ℕ → Input → Run (ℕ × Input)
read_metadata zero next s = ok (next, s)
read_metadata (suc fuel) next s =
    let go = (do
      (_, s₁) ← read_encoded s
      (_, s₂) ← read_encoded s₁
      let (next', s₃) = get_byte next s₂
      read_metadata fuel next' s₃) in
    if next == 0xFA then go else ok (next, s)

-- One entry: the last byte read, the input and the cache.
unfoldable pub load_entry : ℕ → Input → Cache → Run (ℕ × Input × Cache)
load_entry next s c =
    let (next₁, s₁) = get_byte next s in
    let timed = next₁ == 0xFC in
    let (t, s₂) = read_word s₁ in
    let (next₂, s₃) = get_byte next₁ s₂ in
    do
      (key, s₄) ← read_encoded (if timed then s₃ else s₁)
      (value, s₅) ← read_encoded s₄
      node ← deserialize value
      ok (
        if timed then next₂ else next₁,
        s₅,
        record {
          nodes = insert key node c.nodes;
          ttl = if timed then insert key t c.ttl else c.ttl;
        },
      )

unfoldable pub load_entries : ℕ → ℕ → Input → Cache → Run (ℕ × Input × Cache)
load_entries zero next s c = ok (next, s, c)
load_entries (suc n) next s c = do (next', s', c') ← load_entry next s c; load_entries n next' s' c'

-- Behind the database selector.
unfoldable pub load_body : ℕ → Input → Cache → Run (Bool × Cache)
load_body next s c =
    let (_, s₁) = get_byte next s in
    let (next₂, s₂) = get_byte next s₁ in
    let (count, s₃) = read_word s₂ in
    let (_, s₄) = read_word s₃ in
    let entries = load_entries count next₂ s₄ c in
    if not (next₂ == 0xFB)
    then ok (false, c)
    else (do (next₃, s₅, c') ← entries; let (next₄, _) = get_byte next₃ s₅; ok (next₄ == 0xFF, c'))

-- Cache::load of a file that opens. `garbage` is what stands in header[9], which is not
-- initialised and ends the text that strcmp reads only if it is zero; `first` is what stands in
-- nextByte.
unfoldable pub load : ℕ → ℕ → Bytes → Cache → Run (Bool × Cache)
load garbage first file c =
    let (bs, all, s) = read_bytes 9 (record { rest = file; failed = false }) in
    let (next, s₁) = get_byte first s in
    let body = (do
      (next₂, s₂) ← read_metadata (suc (length file)) next s₁
      if next₂ == 0xFE then load_body next₂ s₂ c else ok (false, c)) in
    if not all
    then fault undefined
    else if not ((bs =ᵇ header) && garbage == 0)
    then ok (false, c)
    else body
