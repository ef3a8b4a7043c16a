-- ===== src/Hashlib/Sha1.antt =====
-- sha1 on the blocks of the feeder.
use Prim.Native.Nat.{bit_and, bit_or, bit_xor}
use mathlib.Core.List.{foldl, reverse}
use cpp_experiments.Common.{
  ℕ, zero, suc, ◌+◌, ◌-◌, ◌*◌, ◌%◌, ◌^◌, Bool, true, false, List, [], ◌∷◌, ◌++◌, ltb, if◌then◌else◌,
  get_or, drop,
}
use cpp_experiments.Common.Bytes.{Bytes}
use cpp_experiments.Hashlib.{rotate_left, x2s}
use cpp_experiments.Hashlib.Feeder.{all_blocks, big_endian}

-- h0 to h4, and the variables a to e of a chunk.
pub record Words : Type 0 where
  pub a : ℕ
  pub b : ℕ
  pub c : ℕ
  pub d : ℕ
  pub e : ℕ

abbrev pub initial_words : Words
initial_words = record {
  a = 0x67452301;
  b = 0xefcdab89;
  c = 0x98badcfe;
  d = 0x10325476;
  e = 0xc3d2e1f0;
}

-- Four bytes as one word.
abbrev word_of : Bytes → ℕ
word_of chunk =
    get_or chunk 0 0 * 2 ^ 24
    + get_or chunk 1 0 * 2 ^ 16
    + get_or chunk 2 0 * 2 ^ 8
    + get_or chunk 3 0

-- The words of a chunk, with the last one first.
unfoldable pub chunk_words : ℕ → Bytes → List ℕ → List ℕ
chunk_words zero chunk words = words
chunk_words (suc k) chunk words = chunk_words k (drop 4 chunk) (word_of chunk ∷ words)

-- word[j] for j from 16: the words j - 3, j - 8, j - 14 and j - 16 stand at 2, 7, 13 and 15.
unfoldable pub extend_words : ℕ → List ℕ → List ℕ
unfolding rotate_left
extend_words zero words = words
extend_words (suc k) words = extend_words k (
    rotate_left
      (bit_xor (bit_xor (bit_xor (get_or words 2 0) (get_or words 7 0)) (get_or words 13 0))
        (get_or words 15 0))
      1
    ∷ words)

abbrev not32 : ℕ → ℕ
not32 n = 2 ^ 32 - 1 - n

-- f and k of the round j.
unfoldable pub round_f : ℕ → Words → ℕ
round_f j w =
    if ltb j 20
    then bit_or (bit_and w.b w.c) (bit_and (not32 w.b) w.d)
    else if ltb j 40
    then bit_xor (bit_xor w.b w.c) w.d
    else if ltb j 60
    then bit_or (bit_or (bit_and w.b w.c) (bit_and w.b w.d)) (bit_and w.c w.d)
    else bit_xor (bit_xor w.b w.c) w.d

unfoldable pub round_k : ℕ → ℕ
round_k j =
    if ltb j 20
    then 0x5A827999
    else if ltb j 40
    then 0x6ED9EBA1
    else if ltb j 60
    then 0x8F1BBCDC
    else 0xCA62C1D6

unfoldable pub round : ℕ → ℕ → Words → Words
unfolding rotate_left round_f round_k
round j word w = record {
  a = (rotate_left w.a 5 + round_f j w + w.e + round_k j + word) % 2 ^ 32;
  b = w.a;
  c = rotate_left w.b 30;
  d = w.c;
  e = w.d;
}

unfoldable pub rounds : ℕ → List ℕ → Words → Words
unfolding round
rounds j [] w = w
rounds j (word ∷ words) w = rounds (suc j) words (round j word w)

abbrev add_words : Words → Words → Words
add_words h w = record {
  a = (h.a + w.a) % 2 ^ 32;
  b = (h.b + w.b) % 2 ^ 32;
  c = (h.c + w.c) % 2 ^ 32;
  d = (h.d + w.d) % 2 ^ 32;
  e = (h.e + w.e) % 2 ^ 32;
}

unfoldable pub hash_chunk : Words → Bytes → Words
unfolding chunk_words extend_words rounds
hash_chunk h chunk = add_words h (rounds 0 (reverse (extend_words 64 (chunk_words 16 chunk []))) h)

unfoldable pub hash_words : Bytes → Words
unfolding hash_chunk all_blocks
hash_words raw = foldl hash_chunk initial_words (all_blocks raw)

-- `asBytes`
unfoldable pub digest_bytes : Words → Bytes
unfolding big_endian
digest_bytes h =
    big_endian 4 h.a
    ++ (big_endian 4 h.b ++ (big_endian 4 h.c ++ (big_endian 4 h.d ++ big_endian 4 h.e)))

unfoldable pub digest_text : Words → Bytes
unfolding x2s
digest_text h = x2s 4 h.a 8 ++ (x2s 4 h.b 8 ++ (x2s 4 h.c 8 ++ (x2s 4 h.d 8 ++ x2s 4 h.e 8)))

unfoldable pub sha1 : Bytes → Bool → Bytes
unfolding hash_words digest_bytes digest_text
sha1 raw true = digest_bytes (hash_words raw)
sha1 raw false = digest_text (hash_words raw)
