-- ===== src/Brainfuck/Validate/Grammar.antt =====
-- What the validator accepts, as a grammar.
use cpp_experiments.Common.{
  ℕ, zero, suc, ◌+◌, ◌≡◌, ◌≢◌, ◌↔◌, refl, ap, ◌∙◌, sym, subst, List, [], ◌∷◌, ◌++◌, arith, ◌==◌,
  ==_iff, if◌then◌else◌, length, Bool-cases, inl, inr, append_assoc, append-nil,
}
use cpp_experiments.Common.Bytes.{Bytes}
use cpp_experiments.Brainfuck.Validate.{
  valid, validate_from, validate, Closes, end, open_bracket, close_bracket, other,
}

-- A program is a sequence of characters that are no brackets and of programs in brackets.
pub data Program : Bytes → Type 0 where
  empty : Program []
  plain : {c : ℕ} {s : Bytes} → c ≢ b'[' → c ≢ b']' → Program s → Program (c ∷ s)
  loop :
      {s body rest : Bytes}
      → Program body
      → Program rest
      → s ≡ b'[' ∷ (body ++ b']' ∷ rest)
      → Program s

Closes-append : {s : Bytes} (t : Bytes) (n : ℕ) → Program s → Closes n t → Closes n (s ++ t)
Closes-append t n empty h = h
Closes-append t n (plain o c p) h = other o c (Closes-append t n p h)
Closes-append t n (loop {s = s} {body = body} {rest = rest} p q e) h =
    subst (Closes n)
      (sym (ap (λ (x : Bytes). x ++ t) e ∙ ap (◌∷◌ b'[') (append_assoc body (b']' ∷ rest) t)))
      (open_bracket refl
        (Closes-append (b']' ∷ (rest ++ t)) (suc n) p (close_bracket refl (Closes-append t n q h))))

-- The text closes `n` brackets, with a program before each of them and one at the end.
abbrev Nest : ℕ → Bytes → Type 0
Nest zero s = Program s
Nest (suc n) s =
    (body : Bytes) × (rest : Bytes) × Program body × Nest n rest × (s ≡ body ++ b']' ∷ rest)

Nest-plain : (n c : ℕ) (s : Bytes) → c ≢ b'[' → c ≢ b']' → Nest n s → Nest n (c ∷ s)
Nest-plain zero c s o k p = plain o k p
Nest-plain (suc n) c s o k (body, rest, p, q, e) = (c ∷ body, rest, plain o k p, q, ap (◌∷◌ c) e)

Nest-open : (n : ℕ) (s : Bytes) → Nest (suc n) s → Nest n (b'[' ∷ s)
Nest-open zero s (body, rest, p, q, e) = loop p q (ap (◌∷◌ b'[') e)
Nest-open (suc n) s (body, rest, p, (body', rest', p', q', e'), e) = (
  b'[' ∷ (body ++ b']' ∷ body'),
  rest',
  loop p p' refl,
  q',
  ap (◌∷◌ b'[') (
      e
      ∙ ap (λ (x : Bytes). body ++ b']' ∷ x) e'
      ∙ sym (append_assoc body (b']' ∷ body') (b']' ∷ rest'))),
)

Nest-Closes : {n : ℕ} {s : Bytes} → Closes n s → Nest n s
Nest-Closes end = empty
Nest-Closes (open_bracket {n = n} {c = c} {s = s} e h) =
    subst (λ (x : ℕ). Nest n (x ∷ s)) (sym e) (Nest-open n s (Nest-Closes h))
Nest-Closes (close_bracket {s = s} e h) = ([], s, empty, Nest-Closes h, ap (λ (x : ℕ). x ∷ s) e)
Nest-Closes (other {n = n} {c = c} {s = s} o k h) = Nest-plain n c s o k (Nest-Closes h)

pub Closes-validate :
    (line i : ℕ) (stack : List (ℕ × ℕ)) (s : Bytes)
    → validate_from line i stack s ≡ valid
    → Closes (length stack) s
unfolding validate_from
Closes-validate line i [] [] h = end
Closes-validate line i (_ ∷ _) [] h = cc
Closes-validate line i [] (c ∷ s) h = elim (Bool-cases (c == b'[')) [
  | inl e ↦
      open_bracket ((==_iff c b'[').0 e)
        (Closes-validate line (i + 1) ((line, i + 1) ∷ []) s (rw e at h))
  | inr e ↦
      other (λ p. cc (e, (==_iff c b'[').1 p)) (λ p. ground (arith, h))
        (Closes-validate (if c == 10 then line + 1 else line) (i + 1) [] s (ground (arith, h)))
]
Closes-validate line i (x ∷ stack) (c ∷ s) h = elim (Bool-cases (c == b'[')) [
  | inl e ↦
      open_bracket ((==_iff c b'[').0 e)
        (Closes-validate line (i + 1) ((line, i + 1) ∷ x ∷ stack) s (rw e at h))
  | inr e ↦ elim (Bool-cases (c == b']')) [
    | inl f ↦
        close_bracket ((==_iff c b']').0 f)
          (Closes-validate line (i + 1) stack s (ground (arith, h)))
    | inr f ↦
        other (λ p. cc (e, (==_iff c b'[').1 p)) (λ p. cc (f, (==_iff c b']').1 p))
          (Closes-validate (if c == 10 then line + 1 else line) (i + 1) (x ∷ stack) s
            (ground (arith, h)))
  ]
]

validate-Closes :
    (line i : ℕ) (stack : List (ℕ × ℕ)) {n : ℕ} {s : Bytes}
    → Closes n s
    → length stack ≡ n
    → validate_from line i stack s ≡ valid
unfolding validate_from
validate-Closes line i [] end e = refl
validate-Closes line i (_ ∷ _) end e = absurd (omega arith)
validate-Closes line i stack (open_bracket h k) e =
    let rest = validate-Closes line (i + 1) ((line, i + 1) ∷ stack) k (ap suc e) in
    ground (arith, rest)
validate-Closes line i [] (close_bracket h k) e = absurd (omega arith)
validate-Closes line i (x ∷ stack) (close_bracket h k) e =
    let rest = validate-Closes line (i + 1) stack k (omega arith) in ground (arith, rest)
validate-Closes line i stack (other {c = ch} o k h) e =
    let rest = validate-Closes (if ch == 10 then line + 1 else line) (i + 1) stack h e in
    ground (arith, rest)

-- The validator accepts exactly the texts of the grammar: every bracket is closed, and none is
-- closed that is not open.
pub validate-Program : (code : Bytes) → (validate code ≡ valid) ↔ Program code
unfolding validate
validate-Program code = (
  λ h. Nest-Closes (Closes-validate 1 0 [] code h),
  λ p. validate-Closes 1 0 [] (rw append-nil at (Closes-append [] 0 p end)) refl,
)
