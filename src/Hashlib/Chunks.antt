-- ===== src/Hashlib/Chunks.antt =====
-- The steps of nextBlock on a chunk, by its length.
use cpp_experiments.Common.{
  ℕ, zero, suc, ◌+◌, ◌-◌, ◌*◌, ◌%◌, ◌^◌, ◌≤◌, ◌<◌, ◌≡◌, refl, ap, ◌∙◌, true, false, some, List, [],
  ◌∷◌, ◌++◌, append-nil, arith, leb, lt→ltb, length, length-append, length-replicate, length-drop,
  replicate, take, drop,
}
use cpp_experiments.Common.Bytes.{Bytes}
use cpp_experiments.Hashlib.Feeder.{
  FeederState, copy_bytes, add_80, zero_pad, write_len, finished, Feeder, copy_step, add_step,
  pad_step, len_step, big_endian, zero_filled, is_finished, block_of, next_block, blocks,
}

le→leb : (a b : ℕ) → a ≤ b → leb a b ≡ true
le→leb a b h = ground arith

gt→leb : (a b : ℕ) → b < a → leb a b ≡ false
gt→leb a b h = ground arith

pub take_all : (n : ℕ) (s : Bytes) → length s ≤ n → take n s ≡ s
take_all zero [] h = refl
take_all zero (c ∷ s) h = absurd (omega arith)
take_all (suc n) [] h = refl
take_all (suc n) (c ∷ s) h = ap (λ t. c ∷ t) (take_all n s (omega arith))

module _ (bytes : Bytes) (p : ℕ) where
  pub copy_more :
      p + 64 < length bytes → copy_step bytes p copy_bytes ≡ (take 64 (drop p bytes), copy_bytes)
  copy_more h = ground arith

  pub copy_last :
      p ≤ length bytes
      → length bytes ≤ p + 64
      → copy_step bytes p copy_bytes ≡ (drop p bytes, add_80)
  copy_last h k = ground (
    arith,
    take_all 64 (drop p bytes),
    take_all (length bytes - p) (drop p bytes),
    length-drop p bytes,
  )

-- The eight bytes of the length in bits.
abbrev pub len_bytes : ℕ → Bytes
len_bytes n = big_endian 8 (n * 8 % 2 ^ 64)

abbrev pub padded_to : ℕ → Bytes → Bytes
padded_to m c = c ++ replicate (m - length c) 0

pub length-padded_to : (m : ℕ) (c : Bytes) → length c ≤ m → length (padded_to m c) ≡ m
length-padded_to m c h =
    length-append c (replicate (m - length c) 0)
    ∙ ap (λ n. length c + n) (length-replicate (m - length c) 0)
    ∙ omega arith

padded_full : (c : Bytes) → length c ≡ 64 → zero_filled c ≡ c
padded_full c h = rw h (append-nil c)

module _ (c : Bytes) where
  add_room : length c < 64 → add_step (c, add_80) ≡ (c ++ 0x80 ∷ [], zero_pad)
  add_room h = rw (lt→ltb (length c) 64 h) refl

  add_full : length c ≡ 64 → add_step (c, add_80) ≡ (c, add_80)
  add_full h = rw h refl

  pad_room : length c ≤ 56 → pad_step (c, zero_pad) ≡ (padded_to 56 c, write_len)
  pad_room h = rw (lt→ltb (length c) 64 (omega arith), le→leb (length c) 56 h) refl

  pad_rest : 56 < length c → length c < 64 → pad_step (c, zero_pad) ≡ (padded_to 64 c, write_len)
  pad_rest h k = rw (lt→ltb (length c) 64 k, gt→leb (length c) 56 h) refl

  pad_full : length c ≡ 64 → pad_step (c, zero_pad) ≡ (c, zero_pad)
  pad_full h = rw h refl

  len_room : (n : ℕ) → length c < 64 → len_step n (c, write_len) ≡ (c ++ len_bytes n, finished)
  len_room n h = rw (lt→ltb (length c) 64 h) refl

  len_full : (n : ℕ) → length c ≡ 64 → len_step n (c, write_len) ≡ (c, write_len)
  len_full n h = rw h refl

pub length-len_bytes : (n : ℕ) → length (len_bytes n) ≡ 8
unfolding big_endian
length-len_bytes n = refl

unfoldable pub snoc : Bytes → Bytes
snoc c = c ++ 0x80 ∷ []

pub length-snoc : (c : Bytes) → length (snoc c) ≡ length c + 1
unfolding snoc
length-snoc c = length-append c (0x80 ∷ [])

add_snoc : (c : Bytes) → length c < 64 → add_step (c, add_80) ≡ (snoc c, zero_pad)
unfolding snoc
add_snoc = add_room

module _ (n : ℕ) where
  -- The last block, when the length has its place in it.
  abbrev pub closing : Bytes → Bytes
  closing c = padded_to 56 c ++ len_bytes n

  pub length-closing : (c : Bytes) → length c ≤ 56 → length (closing c) ≡ 64
  length-closing c h =
      length-append (padded_to 56 c) (len_bytes n)
      ∙ omega (arith, length-padded_to 56 c h, length-len_bytes n)

  pub close :
      (c : Bytes) → length c ≤ 56 → len_step n (pad_step (c, zero_pad)) ≡ (closing c, finished)
  close c h =
      rw (pad_room c h) (len_room (padded_to 56 c) n (omega (arith, length-padded_to 56 c h)))

  pub close_with_mark :
      (c : Bytes)
      → length c ≤ 55
      → len_step n (pad_step (add_step (c, add_80))) ≡ (closing (snoc c), finished)
  close_with_mark c h =
      rw (add_snoc c (omega arith)) (close (snoc c) (omega (arith, length-snoc c)))

  pub pad_out :
      (c : Bytes)
      → 55 < length c
      → length c < 63
      → len_step n (pad_step (add_step (c, add_80))) ≡ (padded_to 64 (snoc c), write_len)
  pad_out c h k =
      let l = length-snoc c in
      rw (add_snoc c (omega arith), pad_rest (snoc c) (omega arith) (omega arith))
        (len_full (padded_to 64 (snoc c)) n (length-padded_to 64 (snoc c) (omega arith)))

  pub mark_last :
      (c : Bytes)
      → length c ≡ 63
      → len_step n (pad_step (add_step (c, add_80))) ≡ (snoc c, zero_pad)
  mark_last c h =
      let l = length-snoc c in rw (add_snoc c (omega arith), pad_full (snoc c) (omega arith)) refl

  pub keep_full :
      (c : Bytes) → length c ≡ 64 → len_step n (pad_step (add_step (c, add_80))) ≡ (c, add_80)
  keep_full c h = rw (add_full c h) refl

  pub write_alone : len_step n (pad_step (add_step ([], write_len))) ≡ (len_bytes n, finished)
  write_alone = refl

abbrev pub concat : List Bytes → Bytes
concat [] = []
concat (b ∷ bs) = b ++ concat bs

module _ (bytes : Bytes) where
  abbrev pub at : ℕ → FeederState → Feeder
  at p st = record { bytes = bytes; pos = p; state = st }

  pub next_full :
      (p : ℕ) (st st₁ st₂ : FeederState) (c d : Bytes)
      → is_finished st ≡ false
      → copy_step bytes p st ≡ (c, st₁)
      → len_step (length bytes) (pad_step (add_step (c, st₁))) ≡ (d, st₂)
      → length d ≡ 64
      → next_block (at p st) ≡ some (d, at (p + 64) st₂)
  unfolding next_block
  next_full p st st₁ st₂ c d u e f l = rw u (
      ap (λ x. some (block_of (at p st) x))
        (ap (λ y. len_step (length bytes) (pad_step (add_step y))) e ∙ f)
      ∙ rw (l, append-nil d) refl)

  pub next_short :
      (p : ℕ) (d : Bytes)
      → len_step (length bytes) (pad_step (add_step ([], write_len))) ≡ (d, finished)
      → (g : Feeder) × (next_block (at p write_len) ≡ some (zero_filled d, g))
        × (g.state ≡ finished)
  unfolding next_block
  next_short p d e =
      (at (p + length d) finished, ap (λ x. some (block_of (at p write_len) x)) e, refl)

  pub blocks_next :
      (fuel : ℕ) (f g : Feeder) (d : Bytes)
      → next_block f ≡ some (d, g)
      → concat (blocks (suc fuel) f) ≡ d ++ concat (blocks fuel g)
  unfolding blocks
  blocks_next fuel f g d e = rw (e, concat) refl

  pub blocks_finished : (fuel : ℕ) (f : Feeder) → f.state ≡ finished → concat (blocks fuel f) ≡ []
  unfolding blocks next_block
  blocks_finished zero f e = refl
  blocks_finished (suc fuel) f e = rw e refl
