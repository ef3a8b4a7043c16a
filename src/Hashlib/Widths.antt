-- ===== src/Hashlib/Widths.antt =====
-- The lengths of hexadecimal texts and of digests.
use native.Mathlib.Nat.{le_trans}
use cpp_experiments.Common.{
  ℕ, zero, suc, ◌+◌, ◌-◌, ◌*◌, ◌/◌, ◌≤◌, ◌<◌, ◌≡◌, refl, ap, ◌∙◌, Bool, true, false, [], ◌∷◌, ◌++◌,
  arith, ltb, if◌then◌else◌, length, length-append, length-replicate, replicate, Bool-cases, inl,
  inr,
}
use cpp_experiments.Common.Bytes.{Bytes}
use cpp_experiments.Hashlib.{x2s, hex_digits, drop_zeros, trimmed}
use cpp_experiments.Hashlib.Feeder.{big_endian}
use cpp_experiments.Hashlib.Sha1.{Words, digest_bytes, digest_text, sha1, hash_words}

length-hex_digits : (k val : ℕ) → length (hex_digits k val) ≡ k
unfolding hex_digits
length-hex_digits zero val = refl
length-hex_digits (suc k) val = ap suc (length-hex_digits k val)

length-drop_zeros : (s : Bytes) → length (drop_zeros s) ≤ length s
length-drop_zeros [] = omega arith
length-drop_zeros (c ∷ s) = ground (arith, length-drop_zeros s)

length-trimmed : (s : Bytes) → (n : ℕ) → length s ≤ n → 0 < n → length (trimmed s) ≤ n
length-trimmed [] n h k = k
length-trimmed (c ∷ s) n h k = h

length_padded :
    (out : Bytes) (w : ℕ)
    → length out ≤ w
    → length (if ltb (length out) w then replicate (w - length out) b'0' ++ out else out) ≡ w
length_padded out w h = elim (Bool-cases (ltb (length out) w)) [
  | inl e ↦ rw e (
      length-append (replicate (w - length out) b'0') out
      ∙ ap (λ n. n + length out) (length-replicate (w - length out) b'0')
      ∙ omega arith)
  | inr e ↦ rw e (ground arith)
]

-- A text of x2s is as wide as is asked, where that is the width of the type at least.
pub length-x2s :
    (bytes val width : ℕ) → 0 < bytes → bytes * 2 ≤ width → length (x2s bytes val width) ≡ width
unfolding x2s
length-x2s bytes val width h k =
    let places : bytes * 8 / 4 ≡ bytes * 2 = omega arith in
    let w : (if ltb width (bytes * 2) then bytes * 2 else width) ≡ width = ground arith in
    let out = trimmed (drop_zeros (hex_digits (bytes * 2) val)) in
    rw (places, w)
      (length_padded out width (
        le_trans
          (length-trimmed (drop_zeros (hex_digits (bytes * 2) val)) (bytes * 2)
            (omega (
              arith,
              length-drop_zeros (hex_digits (bytes * 2) val),
              length-hex_digits (bytes * 2) val,
            ))
            (omega arith))
          k))

length-big_endian : (k n : ℕ) → length (big_endian k n) ≡ k
unfolding big_endian
length-big_endian zero n = refl
length-big_endian (suc k) n = ap suc (length-big_endian k n)

five :
    (s t u v w : Bytes) (n : ℕ)
    → length s ≡ n
    → length t ≡ n
    → length u ≡ n
    → length v ≡ n
    → length w ≡ n
    → length (s ++ (t ++ (u ++ (v ++ w)))) ≡ 5 * n
five s t u v w n a b c d e = omega (
  arith,
  length-append s (t ++ (u ++ (v ++ w))),
  length-append t (u ++ (v ++ w)),
  length-append u (v ++ w),
  length-append v w,
)

length-digest_bytes : (h : Words) → length (digest_bytes h) ≡ 20
unfolding digest_bytes
length-digest_bytes h =
    five (big_endian 4 h.a) (big_endian 4 h.b) (big_endian 4 h.c) (big_endian 4 h.d)
      (big_endian 4 h.e) 4 (length-big_endian 4 h.a) (length-big_endian 4 h.b)
      (length-big_endian 4 h.c) (length-big_endian 4 h.d) (length-big_endian 4 h.e)

word-length : (n : ℕ) → length (x2s 4 n 8) ≡ 8
word-length n = length-x2s 4 n 8 (omega arith) (omega arith)

length-digest_text : (h : Words) → length (digest_text h) ≡ 40
unfolding digest_text
length-digest_text h =
    five (x2s 4 h.a 8) (x2s 4 h.b 8) (x2s 4 h.c 8) (x2s 4 h.d 8) (x2s 4 h.e 8) 8 (word-length h.a)
      (word-length h.b) (word-length h.c) (word-length h.d) (word-length h.e)

-- A digest has forty hexadecimal characters, also where its words begin with zeros, or twenty bytes.
pub length-sha1 :
    (raw : Bytes) (as_bytes : Bool) → length (sha1 raw as_bytes) ≡ (if as_bytes then 20 else 40)
unfolding sha1
length-sha1 raw true = length-digest_bytes (hash_words raw)
length-sha1 raw false = length-digest_text (hash_words raw)
