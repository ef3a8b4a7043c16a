-- ===== src/Redis/Server/Framing.antt =====
-- The requests that readRequest takes for complete.
use cpp_experiments.Common.{
  ℕ, suc, ◌+◌, ◌-◌, ◌*◌, ◌%◌, ◌^◌, ◌≤◌, ◌<◌, ◌≡◌, ◌≢◌, refl, ap, ◌∙◌, true, false, some, List, [],
  ◌∷◌, ◌++◌, arith, ltb, ◌==◌, if◌then◌else◌, length, get_or, length-append,
}
use cpp_experiments.Common.Bytes.{Bytes, NoCr, find_crlf, find_crlf-append, take_at}
use cpp_experiments.Common.Decimal.{print_ℕ, all_digits, starts_digit, from_chars_size}
use cpp_experiments.Common.Decimal.Laws.{
  from_chars-print, NoCr-print, starts_digit-print, all_digits-print,
}
use cpp_experiments.Redis.Server.{
  when, complete, incomplete, count_crlf, count_dollar, judge, bulk_request, bulk_of_length,
  array_request, array_of_length, length_text,
}

-- `mark` and a length, then CRLF, as both kinds of request start.
abbrev pub framed : ℕ → ℕ → Bytes → Bytes
framed mark n rest = mark ∷ (print_ℕ n ++ 13 ∷ 10 ∷ rest)

abbrev pub bulks : List Bytes → Bytes
bulks [] = []
bulks (t ∷ ts) = framed b'$' (length t) (t ++ 13 ∷ 10 ∷ bulks ts)

-- A command as a client sends it: an array of bulk strings.
abbrev pub command : List Bytes → Bytes
command ts = framed b'*' (length ts) (bulks ts)

abbrev pub NoDollar : Bytes → Type 0
NoDollar [] = Unit {0}
NoDollar (c ∷ s) = (c ≢ b'$') × NoDollar s

abbrev pub Plain : List Bytes → Type 0
Plain [] = Unit {0}
Plain (t ∷ ts) = NoCr t × NoDollar t × Plain ts

not_cr : (c : ℕ) → c ≢ 13 → (c == 13) ≡ false
not_cr c h = ground arith

ltb-false : (a b : ℕ) → b ≤ a → ltb a b ≡ false
ltb-false a b h = ground arith

count_crlf_skip : (c : ℕ) (s : Bytes) → c ≢ 13 → count_crlf (c ∷ s) ≡ count_crlf s
unfolding count_crlf
count_crlf_skip c [] h = refl
count_crlf_skip c (d ∷ s) h = rw (not_cr c h) refl

count_crlf-append : (a s : Bytes) → NoCr a → count_crlf (a ++ 13 ∷ 10 ∷ s) ≡ suc (count_crlf s)
unfolding count_crlf
count_crlf-append [] s h = refl
count_crlf-append (c ∷ a) s h = count_crlf_skip c (a ++ 13 ∷ 10 ∷ s) h.0 ∙ count_crlf-append a s h.1

count_dollar-append : (a s : Bytes) → NoDollar a → count_dollar (a ++ s) ≡ count_dollar s
unfolding count_dollar
count_dollar-append [] s h = refl
count_dollar-append (c ∷ a) s h = ground (arith, count_dollar-append a s h.1)

NoDollar-digits : (s : Bytes) → all_digits s ≡ true → NoDollar s
unfolding all_digits
NoDollar-digits [] h = tt
NoDollar-digits (c ∷ s) h = ground (arith, NoDollar-digits s)

count_crlf-framed :
    (mark n : ℕ) (s : Bytes) → mark ≢ 13 → count_crlf (framed mark n s) ≡ suc (count_crlf s)
count_crlf-framed mark n s h = count_crlf-append (mark ∷ print_ℕ n) s (h, NoCr-print n)

count_dollar-framed :
    (mark n : ℕ) (s : Bytes)
    → count_dollar (framed mark n s)
      ≡ (if mark == b'$' then suc (count_dollar s) else count_dollar s)
unfolding count_dollar
count_dollar-framed mark n s =
    let d =
      count_dollar-append (print_ℕ n) (13 ∷ 10 ∷ s)
        (NoDollar-digits (print_ℕ n) (all_digits-print n)) in
    rw d refl

count_crlf-bulks : (ts : List Bytes) → Plain ts → count_crlf (bulks ts) ≡ length ts + length ts
unfolding count_crlf
count_crlf-bulks [] p = omega arith
count_crlf-bulks (t ∷ ts) (c, d, p) =
    count_crlf-framed b'$' (length t) (t ++ 13 ∷ 10 ∷ bulks ts) (λ e. omega arith)
    ∙ ap suc (count_crlf-append t (bulks ts) c)
    ∙ omega (arith, count_crlf-bulks ts p)

count_dollar-bulks : (ts : List Bytes) → Plain ts → count_dollar (bulks ts) ≡ length ts
unfolding count_dollar
count_dollar-bulks [] p = refl
count_dollar-bulks (t ∷ ts) (c, d, p) =
    count_dollar-framed b'$' (length t) (t ++ 13 ∷ 10 ∷ bulks ts)
    ∙ ap suc (count_dollar-append t (13 ∷ 10 ∷ bulks ts) d ∙ count_dollar-bulks ts p)

not_minus_digit : (a s : Bytes) → starts_digit a ≡ true → (get_or (a ++ s) 0 0 == b'-') ≡ false
unfolding starts_digit
not_minus_digit [] s h = absurd (cc h)
not_minus_digit (c ∷ a) s h = ground arith

-- What the two kinds of request find in a framed text.
module _ (mark n : ℕ) (s : Bytes) where
  not_minus : (get_or (framed mark n s) 1 0 == b'-') ≡ false
  not_minus = not_minus_digit (print_ℕ n) (13 ∷ 10 ∷ s) (starts_digit-print n)

  find_crlf-framed : mark ≢ 13 → find_crlf (framed mark n s) ≡ some (suc (length (print_ℕ n)))
  find_crlf-framed h = find_crlf-append (mark ∷ print_ℕ n) s (h, NoCr-print n)

  length-framed :
      n < 2 ^ 64
      → from_chars_size (length_text (suc (length (print_ℕ n))) (framed mark n s)) ≡ some n
  length-framed h =
      ap from_chars_size (
        take_at (suc (length (print_ℕ n)) - 1) (print_ℕ n ++ 13 ∷ 10 ∷ s) (print_ℕ n) (13 ∷ 10 ∷ s)
          (omega arith) refl)
      ∙ from_chars-print n h

-- readRequest goes on waiting where a bulk string that is no part of an array has arrived whole.
pub judge-bulk :
    (s : Bytes)
    → length s < 2 ^ 32
    → length (print_ℕ (length s)) < 2 ^ 32
    → judge (framed b'$' (length s) (s ++ 13 ∷ 10 ∷ [])) ≡ incomplete
unfolding judge bulk_request bulk_of_length
judge-bulk s h k =
    let r = s ++ 13 ∷ 10 ∷ [] in
    let n = length s in
    rw
      (
        find_crlf-framed b'$' n r (λ e. omega arith),
        not_minus b'$' n r,
        length-framed b'$' n r (omega arith),
      )
      (ap when (
        ltb-false ((suc (length (print_ℕ n)) + 2 + n + 2) % 2 ^ 64) (length (framed b'$' n r))
          (omega (arith, length-append (print_ℕ n) (13 ∷ 10 ∷ r), length-append s (13 ∷ 10 ∷ [])))))

expected : (n : ℕ) → n < 2 ^ 32 → (2 * n + 1) % 2 ^ 64 ≡ suc (n + n)
expected n h = omega arith

-- readRequest takes a command whose texts have no carriage return and no dollar sign for
-- complete as soon as it has arrived whole.
pub judge-command :
    (ts : List Bytes) → Plain ts → length ts < 2 ^ 32 → judge (command ts) ≡ complete
unfolding judge array_request array_of_length
judge-command ts p h =
    let n = length ts in
    let a = count_crlf-framed b'*' n (bulks ts) (λ e. omega arith) in
    let b = count_dollar-framed b'*' n (bulks ts) in
    let c = count_crlf-bulks ts p in
    let d = count_dollar-bulks ts p in
    rw
      (
        find_crlf-framed b'*' n (bulks ts) (λ e. omega arith),
        not_minus b'*' n (bulks ts),
        length-framed b'*' n (bulks ts) (omega arith),
        a,
        b,
        c,
        d,
        expected n h,
        ltb-false (suc (n + n)) (suc (n + n)) (omega arith),
        ltb-false n n (omega arith),
      )
      refl
