-- ===== src/BigInt/Product.antt =====
-- `multiply` of misc/bigint.hpp multiplies, and every place that it writes is in the vector.
use cpp_experiments.Common.{
  ℕ, zero, suc, ◌+◌, ◌*◌, ◌/◌, ◌%◌, ◌≤◌, ◌<◌, ◌≡◌, refl, ◌∙◌, [], ◌∷◌, arith, ◌==◌, length,
  replicate, length-replicate, Bool-cases, inl, inr,
}
use cpp_experiments.Common.Fault.{Run, ok, ◌>>=◌}
use cpp_experiments.BigInt.{Digits, base, mul_row, mul_loop, mul_digits, clean, head, tail}
use cpp_experiments.BigInt.Value.{
  value, weight, InRange, IsClean, value-clean, clean-InRange, clean-IsClean, value-lt-weight,
}

-- What a round leaves.
abbrev Row : ℕ → ℕ → Run Digits → Type 0
Row n v r = (row : Digits) × (r ≡ ok row) × (length row ≡ n) × (value row ≡ v) × InRange row

Row-cons :
    (n v x w : ℕ) (r : Run Digits)
    → Row n v r
    → x < base
    → w ≡ x + base * v
    → Row (suc n) w (r >>= λ row. ok (x ∷ row))
Row-cons n v x w r (row, e, l, m, k) h q = (x ∷ row, rw e, omega arith, omega arith, (h, k))

mul_spread : (d e v : ℕ) → d * (e + base * v) ≡ d * e + base * (d * v)
mul_spread d e v = grind arith

mul_row-Row :
    (d : ℕ) (es : Digits) (c : ℕ) (ts : Digits)
    → InRange ts
    → length es ≤ length ts
    → value ts + d * value es + c < weight ts
    → Row (length ts) (value ts + d * value es + c) (mul_row d es c ts)
unfolding mul_row
mul_row-Row d [] c [] h k l = ([], ground arith, refl, ground arith, tt)
mul_row-Row d (e ∷ es) c [] h k l = absurd (omega arith)
mul_row-Row d [] c (t ∷ ts) h k l = elim (Bool-cases (c == 0)) [
  | inl done ↦ rw done (t ∷ ts, refl, refl, ground arith, h)
  | inr more ↦
      let ih = mul_row-Row d [] ((t + c) / base) ts h.1 (omega arith) (omega arith) in
      rw more (Row-cons (length ts) _ ((t + c) % base) _ _ ih (omega arith) (omega arith))
]
mul_row-Row d (e ∷ es) c (t ∷ ts) h k l =
    let s = mul_spread d e (value es) in
    let ih = mul_row-Row d es ((t + d * e + c) / base) ts h.1 (omega arith) (omega arith) in
    Row-cons (length ts) _ ((t + d * e + c) % base) _ _ ih (omega arith) (omega arith)

weight-le_of_length : (ds es : Digits) → length ds ≤ length es → weight ds ≤ weight es
weight-le_of_length [] [] h = omega arith
weight-le_of_length [] (e ∷ es) h = omega (arith, weight-le_of_length [] es (omega arith))
weight-le_of_length (d ∷ ds) [] h = absurd (omega arith)
weight-le_of_length (d ∷ ds) (e ∷ es) h = omega (arith, weight-le_of_length ds es (omega arith))

add_spread : (d a v : ℕ) → (d + base * a) * v ≡ d * v + base * (a * v)
add_spread d a v = grind arith

digit_mul-le : (d v : ℕ) → d < base → d * v ≤ 9999 * v
digit_mul-le d v h = grind arith

-- A round, and what the rounds behind it leave.
abbrev Rest : Digits → Digits → Digits → Type 0
Rest ds es ts =
    (value ts < weight es) → Row (length ts) (value ts + value ds * value es) (mul_loop ds es ts)

after_round :
    (d : ℕ) (ds es row : Digits) (r : Run Digits) (v w n : ℕ)
    → r ≡ ok row
    → length row ≡ suc n
    → value row ≡ v
    → InRange row
    → v < base * weight es
    → w ≡ v + base * (value ds * value es)
    → ((rs : Digits) → InRange rs → length rs ≡ n → Rest ds es rs)
    → Row (suc n) w (r >>= λ row. mul_loop ds es (tail row) >>= λ rest. ok (head row ∷ rest))
after_round d ds es [] r v w n e l q i b k later = absurd (omega arith)
after_round d ds es (x ∷ rs) r v w n e l q i b k later =
    let ih = later rs i.1 (omega arith) (omega arith) in
    let m : length rs ≡ n = omega arith in
    rw (e, ← m) (Row-cons (length rs) (value rs + value ds * value es) x w _ ih i.0 (omega arith))

-- Before a round only as many low places as the second number has digits may hold something.
mul_loop-Row :
    (ds es ts : Digits)
    → InRange ds
    → InRange es
    → InRange ts
    → length ts ≡ length ds + length es
    → Rest ds es ts
unfolding mul_loop
mul_loop-Row [] es ts h k l m v = (ts, refl, refl, omega arith, l)
mul_loop-Row (d ∷ ds) es [] h k l m v = absurd (omega arith)
mul_loop-Row (d ∷ ds) es (t ∷ ts) h k l m v =
    let small = value-lt-weight es k in
    let fits = digit_mul-le d (value es) h.0 in
    let room = weight-le_of_length es ts (omega arith) in
    let (row, e, n, q, i) = mul_row-Row d es 0 (t ∷ ts) l (omega arith) (omega arith) in
    let s = add_spread d (value ds) (value es) in
    after_round d ds es row (mul_row d es 0 (t ∷ ts)) (value (t ∷ ts) + d * value es + 0) _
      (length ts) e n q i (omega arith) (omega arith)
      (λ rs j len. mul_loop-Row ds es rs h.1 k j (omega arith))

zeros-InRange : (n : ℕ) → InRange (replicate n 0)
zeros-InRange zero = tt
zeros-InRange (suc n) = (omega arith, zeros-InRange n)

value-zeros : (n : ℕ) → value (replicate n 0) ≡ 0
value-zeros zero = refl
value-zeros (suc n) = omega (arith, value-zeros n)

-- A product of digits: it is there, its value is `v`, and it is in range and clean.
abbrev pub Makes : ℕ → Run Digits → Type 0
Makes v r = (ds : Digits) × (r ≡ ok ds) × (value ds ≡ v) × InRange ds × IsClean ds

cleaned :
    (n v w : ℕ) (r : Run Digits) → Row n v r → v ≡ w → Makes w (r >>= λ places. ok (clean places))
cleaned n v w r (row, e, l, q, i) m =
    (clean row, rw e, value-clean row ∙ q ∙ m, clean-InRange row i, clean-IsClean row)

pub mul_digits-Makes :
    (ds es : Digits) → InRange ds → InRange es → Makes (value ds * value es) (mul_digits ds es)
unfolding mul_digits
mul_digits-Makes ds es h k =
    let n = length ds + length es in
    let places : Digits = replicate n 0 in
    let none_yet : value places ≡ 0 = value-zeros n in
    let sized : length places ≡ n = length-replicate n _ in
    let small = value-lt-weight es k in
    cleaned (length places) (value places + value ds * value es) (value ds * value es)
      (mul_loop ds es places) (mul_loop-Row ds es places h k (zeros-InRange n) sized (omega arith))
      (omega arith)
