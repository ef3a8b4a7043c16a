-- ===== src/Redis/Dump/Streams.antt =====
-- Reading back what was written: words, texts and single bytes.
use cpp_experiments.Common.{
  ℕ, ◌-◌, ◌^◌, ◌<◌, ◌≡◌, refl, sym, true, false, ◌++◌, leb, arith, length, length-append,
  append_assoc, append-nil,
}
use cpp_experiments.Common.Fault.{ok}
use cpp_experiments.Common.Bytes.{Bytes, take_at, drop_at}
use cpp_experiments.Common.Words.{le_value, length-le_bytes, value-bytes}
use cpp_experiments.Redis.Dump.{word, encoded, Input, read_bytes, read_word, read_encoded}

-- A good stream with `t` left.
abbrev pub good : Bytes → Input
good t = record { rest = t; failed = false }

le_value-word : (n : ℕ) → n < 2 ^ 64 → le_value (word n) ≡ n
le_value-word n h = value-bytes 8 n (omega arith)

pub read_bytes-append :
    (n : ℕ) (a t : Bytes) → n ≡ length a → read_bytes n (good (a ++ t)) ≡ (a, true, good t)
unfolding read_bytes
read_bytes-append n a t h =
    ground (arith, take_at n (a ++ t) a t h refl, drop_at n (a ++ t) a t h refl, length-append a t)

pub read_word-word : (n : ℕ) (t : Bytes) → n < 2 ^ 64 → read_word (good (word n ++ t)) ≡ (n, good t)
unfolding read_word
read_word-word n t h =
    rw (read_bytes-append 8 (word n) t (sym (length-le_bytes 8 n)), le_value-word n h)

pub read_encoded-encoded :
    (s t : Bytes) → length s < 2 ^ 63 - 1 → read_encoded (good (encoded s ++ t)) ≡ ok (s, good t)
unfolding read_encoded encoded
read_encoded-encoded s t h =
    rw
      (
        append_assoc (word (length s)) s t,
        read_bytes-append 8 (word (length s)) (s ++ t) (sym (length-le_bytes 8 (length s))),
        le_value-word (length s) (omega arith),
        read_bytes-append (length s) s t refl,
      )
      (rw (no_rest, append-nil s, short))
  where
    no_rest : length s - length s ≡ 0
    no_rest = omega arith

    short : leb (2 ^ 63 - 1) (length s) ≡ false
    short = ground arith
