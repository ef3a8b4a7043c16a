-- ===== src/Bitcask/Records.antt =====
-- An entry that is written is read back, whatever follows it in the file.
use cpp_experiments.Common.{
  ℕ, ◌+◌, ◌%◌, ◌^◌, ◌≤◌, ◌<◌, ◌≡◌, refl, ap, sym, ◌∙◌, true, false, [], ◌++◌, append_assoc,
  append-nil, arith, ltb, ◌==◌, length, length-append, take, drop,
}
use cpp_experiments.Common.Bytes.{Bytes, take-append, drop-append, take_at, drop_at}
use cpp_experiments.Common.Words.{le_bytes, le_value, length-le_bytes, value-bytes}
use cpp_experiments.Bitcask.{FileEntry, entry_bytes, int_bytes, compute_crc}
use cpp_experiments.Bitcask.Load.{entry, int_at, read_val, read_entry}

-- The sizes are those of the texts, and every number fits in 32 bits.
pub record IsEntry (e : FileEntry) : Type 0 where
  pub stamp : e.tstamp < 2 ^ 32
  pub key_size : e.ksz ≡ length e.key
  pub val_size : e.vsz ≡ length e.val
  pub key_fits : length e.key < 2 ^ 32
  pub val_fits : length e.val < 2 ^ 32

le_value-four : (n : ℕ) → n < 2 ^ 32 → le_value (le_bytes 4 n) ≡ n
le_value-four n h = value-bytes 4 n (omega arith)

not_less : (m n : ℕ) → n ≤ m → ltb m n ≡ false
not_less m n h = ground arith

same : (n : ℕ) → (n == n) ≡ true
same n = ground arith

-- Four groups of four bytes.
module _ (c t k v : Bytes) (hc : length c ≡ 4) (ht : length t ≡ 4) (hk : length k ≡ 4)
    (hv : length v ≡ 4) where
  abbrev header : Bytes
  header = c ++ (t ++ (k ++ v))

  behind_first : drop 4 header ≡ t ++ (k ++ v)
  behind_first = drop_at 4 header c (t ++ (k ++ v)) (sym hc) refl

  first : take 4 header ≡ c
  first = take_at 4 header c (t ++ (k ++ v)) (sym hc) refl

  second : take 4 (drop 4 header) ≡ t
  second = rw behind_first (take_at 4 (t ++ (k ++ v)) t (k ++ v) (sym ht) refl)

  third : take 4 (drop 8 header) ≡ k
  third =
      rw
        (drop_at 8 header (c ++ t) (k ++ v) (omega (arith, length-append c t))
          (sym (append_assoc c t (k ++ v))))
        (take_at 4 (k ++ v) k v (sym hk) refl)

  fourth : take 4 (drop 12 header) ≡ v
  fourth =
      rw
        (drop_at 12 header (c ++ (t ++ k)) v
          (omega (arith, length-append c (t ++ k), length-append t k))
          (sym (append_assoc c (t ++ k) v ∙ ap (λ x. c ++ x) (append_assoc t k v))))
        (take_at 4 v v [] (sym hv) (sym (append-nil v)))

  length-header : length header ≡ 16
  length-header =
      omega (arith, length-append c (t ++ (k ++ v)), length-append t (k ++ v), length-append k v)

-- The entry that is read from the place `pos`.
abbrev pub read_at : FileEntry → ℕ → FileEntry
read_at e pos = record {
  tstamp = e.tstamp;
  ksz = length e.key;
  vsz = length e.val;
  vstart = (pos + 16 + length e.key) % 2 ^ 32;
  key = e.key;
  val = e.val;
}

module _ (e : FileEntry) (h : IsEntry e) where
  abbrev crc_of : ℕ
  crc_of = compute_crc (int_bytes e) e.key e.val

  abbrev head_of : Bytes
  head_of = le_bytes 4 crc_of ++ (le_bytes 4 e.tstamp ++ (le_bytes 4 e.ksz ++ le_bytes 4 e.vsz))

  crc-lt : crc_of < 2 ^ 32
  unfolding compute_crc
  crc-lt = omega arith

  four : (n : ℕ) → length (le_bytes 4 n) ≡ 4
  four n = length-le_bytes 4 n

  int_bytes_lem : drop 4 head_of ≡ int_bytes e
  unfolding int_bytes
  int_bytes_lem =
      behind_first (le_bytes 4 crc_of) (le_bytes 4 e.tstamp) (le_bytes 4 e.ksz) (le_bytes 4 e.vsz)
        (four crc_of) (four e.tstamp) (four e.ksz) (four e.vsz)

  int_at_crc : int_at 0 head_of ≡ crc_of
  int_at_crc =
      ap le_value (
        first (le_bytes 4 crc_of) (le_bytes 4 e.tstamp) (le_bytes 4 e.ksz) (le_bytes 4 e.vsz)
          (four crc_of) (four e.tstamp) (four e.ksz) (four e.vsz))
      ∙ le_value-four crc_of crc-lt

  int_at_stamp : int_at 4 head_of ≡ e.tstamp
  int_at_stamp =
      ap le_value (
        second (le_bytes 4 crc_of) (le_bytes 4 e.tstamp) (le_bytes 4 e.ksz) (le_bytes 4 e.vsz)
          (four crc_of) (four e.tstamp) (four e.ksz) (four e.vsz))
      ∙ le_value-four e.tstamp h.stamp

  int_at_key : int_at 8 head_of ≡ length e.key
  int_at_key =
      ap le_value (
        third (le_bytes 4 crc_of) (le_bytes 4 e.tstamp) (le_bytes 4 e.ksz) (le_bytes 4 e.vsz)
          (four crc_of) (four e.tstamp) (four e.ksz) (four e.vsz))
      ∙ rw h.key_size (le_value-four (length e.key) h.key_fits)

  int_at_val : int_at 12 head_of ≡ length e.val
  int_at_val =
      ap le_value (
        fourth (le_bytes 4 crc_of) (le_bytes 4 e.tstamp) (le_bytes 4 e.ksz) (le_bytes 4 e.vsz)
          (four crc_of) (four e.tstamp) (four e.ksz) (four e.vsz))
      ∙ rw h.val_size (le_value-four (length e.val) h.val_fits)

  length-head_of : length head_of ≡ 16
  length-head_of =
      length-header (le_bytes 4 crc_of) (le_bytes 4 e.tstamp) (le_bytes 4 e.ksz) (le_bytes 4 e.vsz)
        (four crc_of) (four e.tstamp) (four e.ksz) (four e.vsz)

  -- The parts of a file that begins with an entry.
  pub file_shape : (rest : Bytes) → entry_bytes e ++ rest ≡ head_of ++ (e.key ++ (e.val ++ rest))
  unfolding entry_bytes int_bytes
  file_shape rest = simp (append_assoc)

  read_val-entry :
      (pos : ℕ) (rest : Bytes)
      → read_val head_of pos e.key (e.val ++ rest) ≡ entry (read_at e pos) rest
  unfolding read_val
  read_val-entry pos rest =
      let enough : ltb (length (e.val ++ rest)) (length e.val) ≡ false =
        not_less (length (e.val ++ rest)) (length e.val)
          (omega (arith, length-append e.val rest)) in
      rw
        (
          int_at_val,
          int_at_stamp,
          int_at_key,
          int_at_crc,
          int_bytes_lem,
          enough,
          take-append e.val rest,
          drop-append e.val rest,
          same crc_of,
        )
        refl

  read_entry-parts :
      (pos : ℕ) (rest : Bytes)
      → read_entry pos (head_of ++ (e.key ++ (e.val ++ rest))) ≡ entry (read_at e pos) rest
  unfolding read_entry
  read_entry-parts pos rest =
      let tail = e.key ++ (e.val ++ rest) in
      let whole : ltb (length (head_of ++ tail)) 16 ≡ false =
        not_less (length (head_of ++ tail)) 16
          (omega (arith, length-append head_of tail, length-head_of)) in
      let enough : ltb (length tail) (length e.key) ≡ false =
        not_less (length tail) (length e.key)
          (omega (arith, length-append e.key (e.val ++ rest))) in
      rw
        (
          whole,
          take_at 16 (head_of ++ tail) head_of tail (sym length-head_of) refl,
          drop_at 16 (head_of ++ tail) head_of tail (sym length-head_of) refl,
          int_at_key,
          enough,
          take-append e.key (e.val ++ rest),
          drop-append e.key (e.val ++ rest),
        )
        (read_val-entry pos rest)

  -- An entry that is written is read back from any place in a file, with the place of its value.
  pub read_entry-entry_bytes :
      (pos : ℕ) (rest : Bytes) → read_entry pos (entry_bytes e ++ rest) ≡ entry (read_at e pos) rest
  read_entry-entry_bytes pos rest = rw (file_shape rest) (read_entry-parts pos rest)
