-- ===== src/Redis/Node/Bulk.antt =====
-- The parser of bulk strings, on a text that a string node was serialised to.
use cpp_experiments.Common.{
  ℕ, suc, ◌+◌, ◌-◌, ◌%◌, ◌^◌, ◌<◌, ◌≡◌, refl, sym, ap, ◌∙◌, true, false, some, [], ◌∷◌, ◌++◌,
  append_assoc, subst, ltb, ◌==◌, length, take, drop, length-append, arith,
}
use cpp_experiments.Common.Fault.{ok}
use cpp_experiments.Common.Bytes.{
  Bytes, find_crlf, find_crlf-append, crlf, take_at, drop_at, drop-append, NoCr,
}
use cpp_experiments.Common.Decimal.{print_ℕ, from_chars_size, starts_digit}
use cpp_experiments.Common.Decimal.Laws.{from_chars-print, starts_digit-print, NoCr-print}
use cpp_experiments.Redis.Node.{str, render, char_at, bulk_body, bulk_at, deserialize_bulk_str}

pub starts_digit-not_minus :
    (p s : Bytes) → starts_digit p ≡ true → (char_at (p ++ s) 0 == b'-') ≡ false
unfolding starts_digit
starts_digit-not_minus [] s h = ground arith
starts_digit-not_minus (c ∷ p) s h = ground arith

-- The text of a bulk string with length field `p`.
abbrev frame : Bytes → Bytes → Bytes
frame p t = b'$' ∷ (p ++ (crlf ++ (t ++ crlf)))

length-frame : (p t : Bytes) → length (frame p t) ≡ length p + length t + 5
length-frame p t = omega (arith, length-append p (crlf ++ (t ++ crlf)), length-append t crlf)

module _ (p t tail : Bytes) (k n : ℕ) (hk : k ≡ suc (length p)) (hn : n ≡ length t) where
  length_field : take (k - 1) (drop 1 (frame p t ++ tail)) ≡ p
  length_field = take_at _ _ p _ (omega arith) (append_assoc p _ tail)

  behind_field : drop (k + 2) (frame p t ++ tail) ≡ t ++ (crlf ++ tail)
  behind_field = drop_at _ _ (b'$' ∷ (p ++ crlf)) _ (omega (arith, length-append p crlf)) (
      ap (◌∷◌ b'$') (
        append_assoc p _ tail
        ∙ (ap (λ (x : Bytes). p ++ (crlf ++ x)) (append_assoc t crlf tail)
            ∙ sym (append_assoc p crlf _))))

  not_negative : starts_digit p ≡ true → (char_at (frame p t ++ tail) 1 == b'-') ≡ false
  not_negative d = rw (append_assoc p _ tail) (starts_digit-not_minus p _ d)

  whole_frame :
      length (frame p t) < 2 ^ 64 → take ((n + k + 4) % 2 ^ 64) (frame p t ++ tail) ≡ frame p t
  whole_frame h = take_at _ _ _ tail (omega (arith, length-frame p t)) refl

  next_position :
      (curr : ℕ)
      → curr + length (frame p t) < 2 ^ 64
      → (curr + k + 2 + n + 2) % 2 ^ 64 ≡ curr + length (frame p t)
  next_position curr h = omega (arith, length-frame p t)

  bulk_body-frame :
      (curr size : ℕ)
      → starts_digit p ≡ true
      → from_chars_size p ≡ some n
      → curr + length (frame p t) < 2 ^ 64
      → bulk_body (frame p t ++ tail) curr size k
        ≡ ok (record { value = str t; serialized = frame p t }, curr + length (frame p t))
  unfolding bulk_body
  bulk_body-frame curr size d f h =
      rw (not_negative d, length_field, f, behind_field, take_at n _ t (crlf ++ tail) hn refl)
        (λ i. ok (
          record { value = str t; serialized = whole_frame (omega arith) i },
          next_position curr h i,
        ))

  field_end : NoCr p → find_crlf (frame p t ++ tail) ≡ some k
  field_end c =
      rw (append_assoc p _ tail, hk) (find_crlf-append (b'$' ∷ p) _ ((λ e. omega arith), c))

  bulk_at-frame :
      (curr size : ℕ)
      → starts_digit p ≡ true
      → NoCr p
      → from_chars_size p ≡ some n
      → curr + length (frame p t) < 2 ^ 64
      → bulk_at (frame p t ++ tail) curr size
        ≡ ok (record { value = str t; serialized = frame p t }, curr + length (frame p t))
  unfolding bulk_at
  bulk_at-frame curr size d c f h = rw (field_end c) (bulk_body-frame curr size d f h)

-- A serialised text, wherever it stands, is parsed back, and the position moves behind it.
pub deserialize_bulk-render :
    (s pre t tail : Bytes)
    → s ≡ pre ++ (render (str t) ++ tail)
    → length pre + length (render (str t)) < 2 ^ 64
    → deserialize_bulk_str s (length pre)
      ≡ ok (
        record { value = str t; serialized = render (str t) },
        length pre + length (render (str t)),
      )
unfolding deserialize_bulk_str render
deserialize_bulk-render s pre t tail e h =
    subst
      (λ x.
        deserialize_bulk_str x (length pre)
        ≡ ok (record { value = str t; serialized = w }, length pre + length w))
      (sym e) (rw (inside, drop-append pre (w ++ tail)) parsed)
  where
    p : Bytes
    p = print_ℕ (length t)

    w : Bytes
    w = frame p t

    inside : ltb (length (pre ++ (w ++ tail))) (length pre) ≡ false
    inside = ground (arith, length-append pre (w ++ tail))

    parsed :
        bulk_at (w ++ tail) (length pre) (length (pre ++ (w ++ tail)))
        ≡ ok (record { value = str t; serialized = w }, length pre + length w)
    parsed =
        bulk_at-frame p t tail _ (length t) refl refl _ _ (starts_digit-print _) (NoCr-print _)
          (from_chars-print _ (omega (arith, length-frame p t))) h
