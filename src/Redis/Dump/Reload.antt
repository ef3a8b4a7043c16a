-- ===== src/Redis/Dump/Reload.antt =====
-- A dump that was written is loaded back.
use cpp_experiments.Common.{
  ℕ, zero, suc, ◌-◌, ◌^◌, ◌≤◌, ◌<◌, ◌≡◌, ◌≢◌, refl, true, false, [], ◌∷◌, ◌++◌, ◌==◌, arith, length,
  append_assoc, Option, none, some,
}
use cpp_experiments.Common.Fault.{Run, ok}
use cpp_experiments.Common.Bytes.{Bytes, codes, =ᵇ-refl}
use cpp_experiments.Common.Decimal.{print_ℕ}
use cpp_experiments.Common.Dict.{Dict, lookup, insert}
use cpp_experiments.Redis.Node.{Node, plain, variant, aggregate, serialize}
use cpp_experiments.Redis.Node.Whole.{IsSendable, restored, deserialize-serialize}
use cpp_experiments.Redis.Cache.{Cache}
use cpp_experiments.Redis.Dump.{
  word, encoded, Input, get_byte, read_bytes, read_metadata, entry_bytes, entries_bytes, dump_bytes,
  load_entry, load_entries, load_body, load, node_type, header,
}
use cpp_experiments.Redis.Dump.Streams.{
  good, read_word-word, read_encoded-encoded, read_bytes-append,
}

-- Texts and deadlines are of a size that the file can hold, and nodes can be sent.
abbrev pub IsShort : Bytes → Type 0
IsShort s = length s < 2 ^ 63 - 1

abbrev FitsDeadline : Option ℕ → Type 0
FitsDeadline none = Unit {0}
FitsDeadline (some t) = t < 2 ^ 64

abbrev pub EntriesFit : Dict ℕ → Dict Node → Type 0
EntriesFit ttl [] = Unit {0}
EntriesFit ttl ((key, node) ∷ es) =
    IsShort key
    × IsSendable node
    × IsShort (serialize node)
    × FitsDeadline (lookup key ttl)
    × EntriesFit ttl es

abbrev with_ttl : Bytes → Option ℕ → Dict ℕ → Dict ℕ
with_ttl key none ttl = ttl
with_ttl key (some t) ttl = insert key t ttl

-- The cache after the entries: each node as the parser restores it, with its deadline if it has one.
abbrev pub loaded : Dict ℕ → Dict Node → Cache → Cache
loaded ttl [] c = c
loaded ttl ((key, node) ∷ es) c = loaded ttl es (record {
  nodes = insert key (restored node) c.nodes;
  ttl = with_ttl key (lookup key ttl) c.ttl;
})

get_byte-good : (old b : ℕ) (t : Bytes) → get_byte old (good (b ∷ t)) ≡ (b, good t)
unfolding get_byte
get_byte-good old b t = refl

type_ne_timed : (n : Node) → (node_type n == 0xFC) ≡ false
type_ne_timed (plain m e) = refl
type_ne_timed (variant v) = refl
type_ne_timed (aggregate vs) = refl

load_entry-bytes :
    (next : ℕ) (ttl : Dict ℕ) (key : Bytes) (node : Node) (t : Bytes) (c : Cache) (d : Option ℕ)
    → lookup key ttl ≡ d
    → FitsDeadline d
    → IsShort key
    → IsSendable node
    → IsShort (serialize node)
    → load_entry next (good (entry_bytes ttl (key, node) ++ t)) c
      ≡ ok (
        node_type node,
        good t,
        record { nodes = insert key (restored node) c.nodes; ttl = with_ttl key d c.ttl },
      )
unfolding load_entry entry_bytes
load_entry-bytes next ttl key node t c none e fits short sendable short' = rw (
  e,
  append_assoc (encoded key) (encoded (serialize node)) t,
  get_byte-good next (node_type node) (encoded key ++ (encoded (serialize node) ++ t)),
  type_ne_timed node,
  read_encoded-encoded key (encoded (serialize node) ++ t) short,
  read_encoded-encoded (serialize node) t short',
  deserialize-serialize node sendable (omega arith),
)
load_entry-bytes next ttl key node t c (some d) e fits short sendable short' =
    rw
      (
        e,
        append_assoc (word d) (node_type node ∷ (encoded key ++ encoded (serialize node))) t,
        append_assoc (encoded key) (encoded (serialize node)) t,
        get_byte-good next 0xFC
            (word d ++ (node_type node ∷ (encoded key ++ (encoded (serialize node) ++ t)))),
        read_word-word d (node_type node ∷ (encoded key ++ (encoded (serialize node) ++ t))) fits,
        get_byte-good 0xFC (node_type node) (encoded key ++ (encoded (serialize node) ++ t)),
        read_encoded-encoded key (encoded (serialize node) ++ t) short,
        read_encoded-encoded (serialize node) t short',
        deserialize-serialize node sendable (omega arith),
      )
      refl

-- Some last byte, the stream behind the entries, and the cache that they make.
abbrev EntriesRead : Run (ℕ × Input × Cache) → Bytes → Cache → Type 0
EntriesRead r t c = (b : ℕ) × (r ≡ ok (b, good t, c))

load_entries-bytes :
    (ttl : Dict ℕ) (es : Dict Node) (next : ℕ) (t : Bytes) (c : Cache)
    → EntriesFit ttl es
    → EntriesRead
        (load_entries (length es) next (good (entries_bytes ttl es ++ t)) c)
        t
        (loaded ttl es c)
unfolding load_entries entries_bytes
load_entries-bytes ttl [] next t c h = (next, refl)
load_entries-bytes ttl ((key, node) ∷ es) next t c (short, sendable, short', fits, h) =
    let one =
      load_entry-bytes next ttl key node (entries_bytes ttl es ++ t) c (lookup key ttl) refl fits
        short sendable short' in
    let (b, rest) =
      load_entries-bytes ttl es (node_type node) t
        (record {
          nodes = insert key (restored node) c.nodes;
          ttl = with_ttl key (lookup key ttl) c.ttl;
        })
        h in
    (b, rw (append_assoc (entry_bytes ttl (key, node)) (entries_bytes ttl es) t, one) rest)

load_body-bytes :
    (c c₀ : Cache)
    → EntriesFit c.ttl c.nodes
    → length c.nodes < 2 ^ 64
    → length c.ttl < 2 ^ 64
    → load_body 0xFE
        (good (
          0
          ∷ 0xFB
          ∷ (word (length c.nodes)
              ++ (word (length c.ttl) ++ (entries_bytes c.ttl c.nodes ++ 0xFF ∷ [])))))
        c₀
      ≡ ok (true, loaded c.ttl c.nodes c₀)
unfolding load_body get_byte
load_body-bytes c c₀ h few few' =
    let (b, e) = load_entries-bytes c.ttl c.nodes 0xFB (0xFF ∷ []) c₀ h in
    rw (
      read_word-word (length c.nodes)
          (word (length c.ttl) ++ (entries_bytes c.ttl c.nodes ++ 0xFF ∷ [])) few,
      read_word-word (length c.ttl) (entries_bytes c.ttl c.nodes ++ 0xFF ∷ []) few',
      e,
    )

read_metadata_done :
    (fuel next : ℕ) (s : Input) → (next == 0xFA) ≡ false → read_metadata fuel next s ≡ ok (next, s)
unfolding read_metadata
read_metadata_done zero next s h = refl
read_metadata_done (suc fuel) next s h = rw h

read_metadata-bytes :
    (fuel : ℕ) (stamp t : Bytes)
    → IsShort stamp
    → read_metadata
        (suc fuel)
        0xFA
        (good (encoded (codes "Timestamp(ms)") ++ (encoded stamp ++ 0xFE ∷ t)))
      ≡ ok (0xFE, good t)
unfolding read_metadata get_byte
read_metadata-bytes fuel stamp t h =
    rw
      (
        read_encoded-encoded (codes "Timestamp(ms)") (encoded stamp ++ 0xFE ∷ t) (omega arith),
        read_encoded-encoded stamp (0xFE ∷ t) h,
      )
      (read_metadata_done fuel 0xFE (good t) refl)

-- A dump whose sizes fit is loaded, over any cache, to its nodes as the parser restores them and
-- to the deadlines of the keys in it, provided that the byte behind the header in the buffer of
-- `load`, which `load` does not set, happens to be zero.
pub load-dump :
    (now first : ℕ) (c c₀ : Cache)
    → EntriesFit c.ttl c.nodes
    → length c.nodes < 2 ^ 64
    → length c.ttl < 2 ^ 64
    → IsShort (print_ℕ now)
    → load 0 first (dump_bytes now c) c₀ ≡ ok (true, loaded c.ttl c.nodes c₀)
unfolding load dump_bytes get_byte
load-dump now first c c₀ h few few' stamp = rw (
  read_bytes-append 9 header _ refl,
  =ᵇ-refl header,
  read_metadata-bytes _ (print_ℕ now)
      (0
        ∷ 0xFB
        ∷ (word (length c.nodes)
            ++ (word (length c.ttl) ++ (entries_bytes c.ttl c.nodes ++ 0xFF ∷ []))))
      stamp,
  load_body-bytes c c₀ h few few',
)

-- Where that byte is anything else, no dump is loaded, and the cache stays as it is.
pub load_garbage :
    (garbage first : ℕ) (file : Bytes) (c₀ : Cache)
    → garbage ≢ 0
    → 9 ≤ length file
    → load garbage first file c₀ ≡ ok (false, c₀)
unfolding load read_bytes
load_garbage garbage first file c₀ h long = ground arith
