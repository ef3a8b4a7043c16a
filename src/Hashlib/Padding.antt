-- ===== src/Hashlib/Padding.antt =====
-- The blocks of a text are the text and the padding of SHA-1, for all lengths but seven in
-- sixty-four.
use cpp_experiments.Common.{
  ℕ, suc, ◌+◌, ◌-◌, ◌/◌, ◌%◌, ◌≤◌, ◌<◌, ◌≡◌, refl, ap, sym, ◌∙◌, [], ◌∷◌, ◌++◌, append_assoc, arith,
  ltb, ltb→lt, length, length-append, length-drop, replicate, drop, Bool-cases, inl, inr, ◌⊎◌,
}
use cpp_experiments.Common.Bytes.{Bytes}
use cpp_experiments.Hashlib.Feeder.{copy_bytes, zero_filled, blocks, all_blocks}
use cpp_experiments.Hashlib.Chunks.{
  padded_to, snoc, closing, at, len_bytes, length-len_bytes, concat,
}
use cpp_experiments.Hashlib.LastBlocks.{
  Ends, from_place, one_block, marked_block, full_block, split_block,
}

-- The padding of SHA-1: the byte 0x80, zeros up to eight bytes before a multiple of 64, and the
-- length in bits.
abbrev pub padding : ℕ → Bytes
padding n = 0x80 ∷ (replicate ((119 - n % 64) % 64) 0 ++ len_bytes n)

-- What the code writes where 57 to 63 bytes of the last block are taken by then.
abbrev pub misplaced : ℕ → Bytes
misplaced n = 0x80 ∷ (replicate (63 - n % 64) 0 ++ (len_bytes n ++ replicate 56 0))

shape : (c rep z e : Bytes) → ((c ++ 0x80 ∷ []) ++ rep) ++ z ≡ c ++ 0x80 ∷ (rep ++ z)
shape [] rep z e = refl
shape (x ∷ c) rep z e = ap (λ t. x ∷ t) (shape c rep z e)

closing-snoc :
    (n : ℕ) (c : Bytes)
    → closing n (snoc c) ≡ c ++ 0x80 ∷ (replicate (55 - length c) 0 ++ len_bytes n)
unfolding snoc
closing-snoc n c =
    let m : 56 - length (c ++ 0x80 ∷ []) ≡ 55 - length c =
      omega (arith, length-append c (0x80 ∷ [])) in
    rw m (shape c (replicate (55 - length c) 0) (len_bytes n) [])

-- The two blocks of a text whose length comes too early.
spread :
    (n k : ℕ) (c : Bytes)
    → 63 - length c ≡ k
    → padded_to 64 (snoc c) ++ zero_filled (len_bytes n)
      ≡ c ++ 0x80 ∷ (replicate k 0 ++ (len_bytes n ++ replicate 56 0))
unfolding snoc
spread n k c e =
    let m : 64 - length (c ++ 0x80 ∷ []) ≡ k = omega (arith, length-append c (0x80 ∷ [])) in
    rw (m, length-len_bytes n) (shape c (replicate k 0) (len_bytes n ++ replicate 56 0) [])

padding_of : (n k : ℕ) → (119 - n % 64) % 64 ≡ k → padding n ≡ 0x80 ∷ (replicate k 0 ++ len_bytes n)
padding_of n k e = rw e refl

module _ (bytes : Bytes) where
  abbrev size : ℕ
  size = length bytes

  module _ (p : ℕ) (h : p ≤ size) (k : size ≤ p + 64) (m : p % 64 ≡ 0) where
    ends_short :
        (fuel : ℕ)
        → size % 64 < 56
        → size < p + 64
        → concat (blocks (suc (suc fuel)) (at bytes p copy_bytes)) ≡ drop p bytes ++ padding size
    ends_short fuel u v =
        let l = length-drop p bytes in
        one_block bytes p h k fuel (omega arith)
        ∙ closing-snoc size (drop p bytes)
        ∙ ap (λ t. drop p bytes ++ t)
            (sym (padding_of size (55 - length (drop p bytes)) (omega arith)))

    ends_full :
        (fuel : ℕ)
        → size ≡ p + 64
        → concat (blocks (suc (suc fuel)) (at bytes p copy_bytes)) ≡ drop p bytes ++ padding size
    ends_full fuel e =
        full_block bytes p h k fuel e
        ∙ ap (λ t. drop p bytes ++ t)
            (closing-snoc size [] ∙ sym (padding_of size 55 (omega arith)))

    ends_marked :
        (fuel : ℕ)
        → size ≡ p + 63
        → concat (blocks (suc (suc fuel)) (at bytes p copy_bytes)) ≡ drop p bytes ++ padding size
    ends_marked fuel e =
        marked_block bytes p h k fuel e
        ∙ unfold snoc in
          append_assoc (drop p bytes) (0x80 ∷ []) (closing size [])
          ∙ ap (λ t. drop p bytes ++ t) (sym (padding_of size 56 (omega arith)))

    ends_split :
        (fuel : ℕ)
        → 55 < size % 64
        → size % 64 < 63
        → concat (blocks (suc (suc fuel)) (at bytes p copy_bytes)) ≡ drop p bytes ++ misplaced size
    ends_split fuel u v =
        let l = length-drop p bytes in
        split_block bytes p h k fuel (omega arith) (omega arith)
        ∙ spread size (63 - size % 64) (drop p bytes) (omega arith)

  placed : (size % 64 < 56) ⊎ (size % 64 ≡ 63) → Ends bytes (padding size)
  placed (inr e) p fuel h k m = ends_marked p h k m fuel (omega arith)
  placed (inl u) p fuel h k m = elim (Bool-cases (ltb size (p + 64))) [
    | inl v ↦ ends_short p h k m fuel u (ltb→lt size (p + 64) v)
    | inr v ↦ ends_full p h k m fuel (ground arith)
  ]

  -- What `sha1` hashes is the text and its padding, where the text has, up to multiples of 64, at
  -- most 55 bytes, or 63.
  pub all_blocks-padding :
      (size % 64 < 56) ⊎ (size % 64 ≡ 63) → concat (all_blocks bytes) ≡ bytes ++ padding size
  unfolding all_blocks
  all_blocks-padding good =
      let e : size / 64 + 3 ≡ suc (suc (suc (size / 64))) = omega arith in
      rw e (
        from_place bytes (padding size) (placed good) (suc (size / 64)) 0 (omega arith)
          (omega arith) refl)

  -- With 56 to 62 bytes over a multiple of 64, what `sha1` hashes has the length at the beginning of
  -- the last block, before 56 zeros, and not at its end.
  pub all_blocks-misplaced :
      55 < size % 64 → size % 64 < 63 → concat (all_blocks bytes) ≡ bytes ++ misplaced size
  unfolding all_blocks
  all_blocks-misplaced u v =
      let e : size / 64 + 3 ≡ suc (suc (suc (size / 64))) = omega arith in
      rw e (
        from_place bytes (misplaced size) (λ p fuel h k m. ends_split p h k m fuel u v)
          (suc (size / 64)) 0 (omega arith) (omega arith) refl)
