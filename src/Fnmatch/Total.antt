-- ===== src/Fnmatch/Total.antt =====
-- Every pattern has a translation by the grammar, which is what compilePattern writes.
use cpp_experiments.Common.{
  ℕ, zero, suc, ◌≤◌, ◌<◌, ◌≡◌, ◌≢◌, ap, sym, subst, ◌∙◌, true, false, [], ◌∷◌, ◌++◌, arith, ◌==◌,
  length, length-append, Bool-cases, inl, inr,
}
use cpp_experiments.Common.Bytes.{Bytes}
use cpp_experiments.Fnmatch.{translate, compile_pattern}
use cpp_experiments.Fnmatch.Grammar.{
  NoClosing, NoMark, IsOrdinary, needs_backslash, Translates, done, star, any, escape, backslash,
  special, plain, class, negated, unclosed, unclosed_negated,
}
use cpp_experiments.Fnmatch.Reading.{translate-Translates}

eq_of : (n k : ℕ) → (n == k) ≡ true → n ≡ k
eq_of n k h = ground arith

ne_of : (n k : ℕ) → (n == k) ≡ false → n ≢ k
ne_of n k h e = ground arith

-- The cases of a character.
data Kind : ℕ → Type 0 where
  a_star : Kind b'*'
  a_mark : Kind b'?'
  a_bracket : Kind b'['
  a_backslash : Kind 92
  ordinary : (c : ℕ) → IsOrdinary c → Kind c

Kind-of : (c : ℕ) → Kind c
Kind-of c = elim (Bool-cases (c == b'*')) [
  | inl e ↦ subst Kind (sym (eq_of c b'*' e)) a_star
  | inr u ↦ elim (Bool-cases (c == b'?')) [
    | inl e ↦ subst Kind (sym (eq_of c b'?' e)) a_mark
    | inr v ↦ elim (Bool-cases (c == b'[')) [
      | inl e ↦ subst Kind (sym (eq_of c b'[' e)) a_bracket
      | inr w ↦ elim (Bool-cases (c == 92)) [
        | inl e ↦ subst Kind (sym (eq_of c 92 e)) a_backslash
        | inr x ↦ ordinary c (ne_of c b'*' u, ne_of c b'?' v, ne_of c b'[' w, ne_of c 92 x)
      ]
    ]
  ]
]

-- A text has a first closing bracket, or none.
data Brackets : Bytes → Type 0 where
  closed : (body s : Bytes) → NoClosing body → Brackets (body ++ b']' ∷ s)
  not_closed : (s : Bytes) → NoClosing s → Brackets s

Brackets-of : (s : Bytes) → Brackets s
Brackets-of [] = not_closed [] tt
Brackets-of (c ∷ s) = longer (Brackets-of s)
  where
    further : {t : Bytes} → c ≢ b']' → Brackets t → Brackets (c ∷ t)
    further k (closed body t h) = closed (c ∷ body) t (k, h)
    further k (not_closed t h) = not_closed (c ∷ t) (k, h)

    longer : Brackets s → Brackets (c ∷ s)
    longer b = elim (Bool-cases (c == b']')) [
      | inl e ↦ subst (λ d. Brackets (d ∷ s)) (sym (eq_of c b']' e)) (closed [] s tt)
      | inr e ↦ further (ne_of c b']' e) b
    ]

-- A text begins with the mark of negation, or not.
data Marks : Bytes → Type 0 where
  marked : (s : Bytes) → Marks (b'!' ∷ s)
  unmarked : (s : Bytes) → NoMark s → Marks s

Marks-of : (s : Bytes) → Marks s
Marks-of [] = unmarked [] tt
Marks-of (c ∷ s) = elim (Bool-cases (c == b'!')) [
  | inl e ↦ subst (λ d. Marks (d ∷ s)) (sym (eq_of c b'!' e)) (marked s)
  | inr e ↦ unmarked (c ∷ s) (ne_of c b'!' e)
]

abbrev Translated : Bytes → Type 0
Translated s = (r : Bytes) × Translates s r

NoMark-body : (body s : Bytes) → NoMark (body ++ b']' ∷ s) → NoMark body
NoMark-body [] s h = tt
NoMark-body (c ∷ body) s h = h

module _ (n : ℕ) (shorter : (t : Bytes) → length t ≤ n → Translated t) where
  plain-Brackets : (s : Bytes) → NoMark s → Brackets s → length s ≤ n → Translated (b'[' ∷ s)
  plain-Brackets _ m (closed body s h) k =
      let (r, t) = shorter s (omega (arith, length-append body (b']' ∷ s))) in
      (_, class body s r (NoMark-body body s m) h t)
  plain-Brackets _ m (not_closed s h) k = let (r, t) = shorter s k in (_, unclosed s r m h t)

  marked-Brackets : (s : Bytes) → Brackets s → length s < n → Translated (b'[' ∷ b'!' ∷ s)
  marked-Brackets _ (closed body s h) k =
      let (r, t) = shorter s (omega (arith, length-append body (b']' ∷ s))) in
      (_, negated body s r h t)
  marked-Brackets _ (not_closed s h) k =
      let (r, t) = shorter s (omega arith) in (_, unclosed_negated s r h t)

  from_bracket : (s : Bytes) → Marks s → length s ≤ n → Translated (b'[' ∷ s)
  from_bracket _ (marked s) k = marked-Brackets s (Brackets-of s) (omega arith)
  from_bracket _ (unmarked s m) k = plain-Brackets s m (Brackets-of s) k

  from_backslash : (s : Bytes) → length s ≤ n → Translated (92 ∷ s)
  from_backslash [] k = (_, backslash)
  from_backslash (c ∷ s) k = let (r, t) = shorter s (omega arith) in (_, escape c s r t)

  from_Kind : (c : ℕ) (s : Bytes) → Kind c → length s ≤ n → Translated (c ∷ s)
  from_Kind _ s a_star k = let (r, t) = shorter s k in (_, star s r t)
  from_Kind _ s a_mark k = let (r, t) = shorter s k in (_, any s r t)
  from_Kind _ s a_bracket k = from_bracket s (Marks-of s) k
  from_Kind _ s a_backslash k = from_backslash s k
  from_Kind _ s (ordinary c o) k =
      let (r, t) = shorter s k in
      elim (Bool-cases (needs_backslash c)) [
        | inl e ↦ (_, special c s r o e t)
        | inr e ↦ (_, plain c s r o e t)
      ]

translated : (n : ℕ) (s : Bytes) → length s ≤ n → Translated s
translated n [] h = ([], done)
translated zero (c ∷ s) h = absurd (omega arith)
translated (suc n) (c ∷ s) h = from_Kind n (translated n) c s (Kind-of c) (omega arith)

-- Every pattern has exactly one translation by the grammar, and compilePattern writes that translation
-- between the two anchors: wildcards, characters behind a backslash, brackets that are closed,
-- negated or not closed, and all other characters.
pub compile_pattern-Translates :
    (s : Bytes)
    → (r : Bytes) × Translates s r
      × ((q : Bytes) → Translates s q → q ≡ r)
      × (compile_pattern s ≡ b'^' ∷ (r ++ b'$' ∷ []))
unfolding compile_pattern
compile_pattern-Translates s =
    let (r, t) = translated (length s) s (omega arith) in
    let written : translate (length s) s ≡ r =
      translate-Translates s r (length s) t (omega arith) in
    (
      r,
      t,
      (λ q u. sym (translate-Translates s q (length s) u (omega arith)) ∙ written),
      ap (λ u. b'^' ∷ (u ++ b'$' ∷ [])) written,
    )
