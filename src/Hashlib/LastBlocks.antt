-- ===== src/Hashlib/LastBlocks.antt =====
-- The blocks that the feeder ends with, by the number of bytes that are left for the last one.
use cpp_experiments.Common.{
  ℕ, zero, suc, ◌+◌, ◌-◌, ◌*◌, ◌%◌, ◌≤◌, ◌<◌, ◌≡◌, refl, ap, sym, ◌∙◌, [], ◌∷◌, ◌++◌, append-nil,
  append_assoc, arith, leb, leb→le, length, length-take, length-drop, take-append-drop, take, drop,
  Bool-cases, inl, inr,
}
use cpp_experiments.Common.Bytes.{Bytes}
use cpp_experiments.Hashlib.Feeder.{
  copy_bytes, add_80, zero_pad, write_len, finished, zero_filled, blocks,
}
use cpp_experiments.Hashlib.Chunks.{
  padded_to, length-padded_to, snoc, length-snoc, closing, length-closing, close, close_with_mark,
  pad_out, mark_last, keep_full, write_alone, at, next_full, next_short, blocks_next,
  blocks_finished, copy_more, copy_last, len_bytes, concat,
}

drop-nil : (n : ℕ) → drop {A = ℕ} n [] ≡ []
drop-nil zero = refl
drop-nil (suc n) = refl

drop-drop : (p q : ℕ) (s : Bytes) → drop q (drop p s) ≡ drop (p + q) s
drop-drop zero q s = let e : q ≡ 0 + q = omega arith in ap (λ n. drop n s) e
drop-drop (suc p) q [] = drop-nil q ∙ sym (drop-nil (suc p + q))
drop-drop (suc p) q (c ∷ s) =
    let e : suc (p + q) ≡ suc p + q = omega arith in drop-drop p q s ∙ ap (λ n. drop n (c ∷ s)) e

module _ (bytes : Bytes) where
  -- The last round of copying, and what is fed behind it.
  abbrev pub Ends : Bytes → Type 0
  Ends t =
      (p fuel : ℕ)
      → p ≤ length bytes
      → length bytes ≤ p + 64
      → p % 64 ≡ 0
      → concat (blocks (suc (suc fuel)) (at bytes p copy_bytes)) ≡ drop p bytes ++ t

  pub from_place :
      (t : Bytes)
      → Ends t
      → (fuel p : ℕ) → p ≤ length bytes
      → length bytes ≤ p + 64 * suc fuel
      → p % 64 ≡ 0
      → concat (blocks (suc (suc fuel)) (at bytes p copy_bytes)) ≡ drop p bytes ++ t
  from_place t last zero p h k m = last p 0 h (omega arith) m
  from_place t last (suc fuel) p h k m = elim (Bool-cases (leb (length bytes) (p + 64))) [
    | inl e ↦ last p (suc fuel) h (leb→le _ _ e) m
    | inr e ↦
        let more : p + 64 < length bytes = ground arith in
        let c = drop p bytes in
        let l : length (take 64 c) ≡ 64 = omega (arith, length-take 64 c, length-drop p bytes) in
        blocks_next bytes (suc (suc fuel)) (at bytes p copy_bytes) (at bytes (p + 64) copy_bytes)
          (take 64 c)
          (next_full bytes p copy_bytes copy_bytes copy_bytes (take 64 c) (take 64 c) refl
            (copy_more bytes p more) refl l)
        ∙ ap (λ s. take 64 c ++ s)
            (from_place t last fuel (p + 64) (omega arith) (omega arith) (omega arith))
        ∙ rw (← drop-drop p 64 bytes) (
            sym (append_assoc (take 64 c) (drop 64 c) t) ∙ ap (λ s. s ++ t) (take-append-drop 64 c))
  ]

  abbrev pub size : ℕ
  size = length bytes

  module _ (p : ℕ) (h : p ≤ size) (k : size ≤ p + 64) where
    left : length (drop p bytes) ≡ size - p
    left = length-drop p bytes

    -- One block, for at most 55 bytes.
    pub one_block :
        (fuel : ℕ)
        → size ≤ p + 55
        → concat (blocks (suc (suc fuel)) (at bytes p copy_bytes))
          ≡ closing size (snoc (drop p bytes))
    one_block fuel short =
        let room : length (drop p bytes) ≤ 55 = omega (arith, left) in
        let d = closing size (snoc (drop p bytes)) in
        let l : length d ≡ 64 =
          length-closing size (snoc (drop p bytes)) (omega (arith, length-snoc (drop p bytes))) in
        blocks_next bytes (suc fuel) (at bytes p copy_bytes) (at bytes (p + 64) finished) d (
          next_full bytes p copy_bytes add_80 finished (drop p bytes) d refl (copy_last bytes p h k)
            (close_with_mark size (drop p bytes) room) l)
        ∙ rw (blocks_finished bytes (suc fuel) (at bytes (p + 64) finished) refl) (append-nil d)

    -- A block that ends in the mark, and one for the length.
    pub marked_block :
        (fuel : ℕ)
        → size ≡ p + 63
        → concat (blocks (suc (suc fuel)) (at bytes p copy_bytes))
          ≡ snoc (drop p bytes) ++ closing size []
    marked_block fuel e =
        let full : length (drop p bytes) ≡ 63 = omega (arith, left) in
        let c = drop p bytes in
        let l : length (snoc c) ≡ 64 = omega (arith, length-snoc c) in
        let l' : length (closing size []) ≡ 64 = length-closing size [] (omega arith) in
        blocks_next bytes (suc fuel) (at bytes p copy_bytes) (at bytes (p + 64) zero_pad) (snoc c) (
          next_full bytes p copy_bytes add_80 zero_pad c (snoc c) refl (copy_last bytes p h k)
            (mark_last size c full) l)
        ∙ ap (λ s. snoc c ++ s)
            (blocks_next bytes fuel (at bytes (p + 64) zero_pad) (at bytes (p + 64 + 64) finished)
                (closing size [])
                (next_full bytes (p + 64) zero_pad zero_pad finished [] (closing size []) refl refl
                  (close size [] (omega arith)) l')
              ∙ rw (blocks_finished bytes fuel (at bytes (p + 64 + 64) finished) refl)
                  (append-nil (closing size [])))

    -- A full block, and one for the mark and the length.
    pub full_block :
        (fuel : ℕ)
        → size ≡ p + 64
        → concat (blocks (suc (suc fuel)) (at bytes p copy_bytes))
          ≡ drop p bytes ++ closing size (snoc [])
    full_block fuel e =
        let full : length (drop p bytes) ≡ 64 = omega (arith, left) in
        let c = drop p bytes in
        let d = closing size (snoc []) in
        let l : length d ≡ 64 = length-closing size (snoc []) (omega (arith, length-snoc [])) in
        blocks_next bytes (suc fuel) (at bytes p copy_bytes) (at bytes (p + 64) add_80) c (
          next_full bytes p copy_bytes add_80 add_80 c c refl (copy_last bytes p h k)
            (keep_full size c full) full)
        ∙ ap (λ s. c ++ s)
            (blocks_next bytes fuel (at bytes (p + 64) add_80) (at bytes (p + 64 + 64) finished) d (
                next_full bytes (p + 64) add_80 add_80 finished [] d refl refl
                  (close_with_mark size [] (omega arith)) l)
              ∙ rw (blocks_finished bytes fuel (at bytes (p + 64 + 64) finished) refl)
                  (append-nil d))

    -- The block is filled up with zeros, and the length begins the next one.
    pub split_block :
        (fuel : ℕ)
        → p + 55 < size
        → size < p + 63
        → concat (blocks (suc (suc fuel)) (at bytes p copy_bytes))
          ≡ padded_to 64 (snoc (drop p bytes)) ++ zero_filled (len_bytes size)
    split_block fuel a b =
        let c = drop p bytes in
        let n : length c ≡ size - p = left in
        let d = padded_to 64 (snoc c) in
        let l : length d ≡ 64 = length-padded_to 64 (snoc c) (omega (arith, length-snoc c)) in
        let (g, e, f) = next_short bytes (p + 64) (len_bytes size) (write_alone size) in
        blocks_next bytes (suc fuel) (at bytes p copy_bytes) (at bytes (p + 64) write_len) d (
          next_full bytes p copy_bytes add_80 write_len c d refl (copy_last bytes p h k)
            (pad_out size c (omega arith) (omega arith)) l)
        ∙ ap (λ s. d ++ s)
            (blocks_next bytes fuel (at bytes (p + 64) write_len) g (zero_filled (len_bytes size)) e
              ∙ rw (blocks_finished bytes fuel g f) (append-nil (zero_filled (len_bytes size))))
