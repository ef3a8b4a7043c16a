-- ===== src/Fnmatch/Reading.antt =====
-- compilePattern translates every pattern as the grammar says.
use cpp_experiments.Common.{
  ℕ, zero, suc, ◌≤◌, ◌≡◌, ◌≢◌, refl, ap, ◌∙◌, Bool, true, false, none, some, [], ◌∷◌, ◌++◌,
  append_assoc, arith, ◌==◌, if◌then◌else◌, length, length-append,
}
use cpp_experiments.Common.Bytes.{Bytes}
use cpp_experiments.Fnmatch.{class_body, class_text, escape_text, round, translate}
use cpp_experiments.Fnmatch.Grammar.{
  NoClosing, NoMark, quoted, IsOrdinary, needs_backslash, Translates, done, star, any, escape,
  backslash, special, plain, class, negated, unclosed, unclosed_negated,
}

apart : (n k : ℕ) → n ≢ k → (n == k) ≡ false
apart n k h = ground arith

-- The loop inside brackets, with and without a closing one.
class_body-closed :
    (body s : Bytes) → NoClosing body → class_body (body ++ b']' ∷ s) ≡ (quoted body, some s)
unfolding class_body
class_body-closed [] s h = refl
class_body-closed (c ∷ body) s h = rw (class_body-closed body s h.1, apart c b']' h.0) refl

class_body-open : (s : Bytes) → NoClosing s → class_body s ≡ (quoted s, none)
unfolding class_body
class_body-open [] h = refl
class_body-open (c ∷ s) h = rw (class_body-open s h.1, apart c b']' h.0) refl

-- What a round makes of brackets.
round-class :
    (body s : Bytes)
    → NoMark body
    → NoClosing body
    → round b'[' (body ++ b']' ∷ s) ≡ (b'[' ∷ (quoted body ++ b']' ∷ []), s)
unfolding round class_text
round-class [] s m h = rw (class_body-closed [] s h) refl
round-class (c ∷ body) s m h = rw (apart c b'!' m, class_body-closed (c ∷ body) s h) refl

round-negated :
    (body s : Bytes)
    → NoClosing body
    → round b'[' (b'!' ∷ (body ++ b']' ∷ s)) ≡ (b'[' ∷ b'^' ∷ (quoted body ++ b']' ∷ []), s)
unfolding round class_text
round-negated body s h = rw (class_body-closed body s h) refl

round-unclosed :
    (s : Bytes) → NoMark s → NoClosing s → round b'[' s ≡ (b'[' ∷ (quoted s ++ 92 ∷ b'[' ∷ []), s)
unfolding round class_text class_body
round-unclosed [] m h = refl
round-unclosed (c ∷ s) m h = rw (apart c b'!' m, class_body-open (c ∷ s) h) refl

round-unclosed_negated :
    (s : Bytes)
    → NoClosing s
    → round b'[' (b'!' ∷ s) ≡ (b'[' ∷ b'^' ∷ (quoted s ++ 92 ∷ b'[' ∷ b'^' ∷ []), b'!' ∷ s)
unfolding round class_text
round-unclosed_negated s h = rw (class_body-open s h) refl

round-ordinary :
    (c : ℕ) (s : Bytes)
    → IsOrdinary c
    → round c s ≡ ((if needs_backslash c then 92 ∷ c ∷ [] else c ∷ []), s)
unfolding round
round-ordinary c s h =
    rw (apart c b'*' h.0, apart c b'?' h.1, apart c b'[' h.2, apart c 92 h.3)
      (same_written (needs_backslash c))
  where
    same_written :
        (b : Bool)
        → ◌≡◌ {A = Bytes × Bytes}
            (if b then (92 ∷ c ∷ [], s) else (c ∷ [], s))
            ((if b then 92 ∷ c ∷ [] else c ∷ []), s)
    same_written true = refl
    same_written false = refl

-- A round of the loop whose result is known.
translate-round :
    (fuel c : ℕ) (s out rest : Bytes)
    → round c s ≡ (out, rest)
    → translate (suc fuel) (c ∷ s) ≡ out ++ translate fuel rest
unfolding translate
translate-round fuel c s out rest e = ap (λ p. p.0 ++ translate fuel p.1) e

-- What is written in a round, and what the rounds behind it write.
then_rest :
    (fuel c : ℕ) (s out rest r : Bytes)
    → round c s ≡ (out, rest)
    → translate fuel rest ≡ r
    → translate (suc fuel) (c ∷ s) ≡ out ++ r
then_rest fuel c s out rest r e f = translate-round fuel c s out rest e ∙ ap (λ t. out ++ t) f

-- What the grammar allows is what the loop writes.
pub translate-Translates :
    (s r : Bytes) (fuel : ℕ) → Translates s r → length s ≤ fuel → translate fuel s ≡ r
unfolding translate round escape_text
translate-Translates _ _ zero done h = refl
translate-Translates _ _ (suc fuel) done h = refl
translate-Translates _ _ zero (star s r t) h = absurd (omega arith)
translate-Translates _ _ (suc fuel) (star s r t) h =
    then_rest fuel b'*' s (b'.' ∷ b'*' ∷ []) s r refl
      (translate-Translates s r fuel t (omega arith))
translate-Translates _ _ zero (any s r t) h = absurd (omega arith)
translate-Translates _ _ (suc fuel) (any s r t) h =
    then_rest fuel b'?' s (b'.' ∷ []) s r refl (translate-Translates s r fuel t (omega arith))
translate-Translates _ _ zero (escape c s r t) h = absurd (omega arith)
translate-Translates _ _ (suc fuel) (escape c s r t) h =
    then_rest fuel 92 (c ∷ s) (92 ∷ c ∷ []) s r refl (translate-Translates s r fuel t (omega arith))
translate-Translates _ _ zero backslash h = absurd (omega arith)
translate-Translates _ _ (suc fuel) backslash h =
    then_rest fuel 92 [] (92 ∷ 92 ∷ []) [] [] refl
      (translate-Translates [] [] fuel done (omega arith))
translate-Translates _ _ zero (special c s r o b t) h = absurd (omega arith)
translate-Translates _ _ (suc fuel) (special c s r o b t) h =
    then_rest fuel c s (92 ∷ c ∷ []) s r
      (round-ordinary c s o ∙ ap (λ u. ((if u then 92 ∷ c ∷ [] else c ∷ []), s)) b)
      (translate-Translates s r fuel t (omega arith))
translate-Translates _ _ zero (plain c s r o b t) h = absurd (omega arith)
translate-Translates _ _ (suc fuel) (plain c s r o b t) h =
    then_rest fuel c s (c ∷ []) s r
      (round-ordinary c s o ∙ ap (λ u. ((if u then 92 ∷ c ∷ [] else c ∷ []), s)) b)
      (translate-Translates s r fuel t (omega arith))
translate-Translates _ _ zero (class body s r m n t) h = absurd (omega arith)
translate-Translates _ _ (suc fuel) (class body s r m n t) h =
    then_rest fuel b'[' (body ++ b']' ∷ s) (b'[' ∷ (quoted body ++ b']' ∷ [])) s r
      (round-class body s m n)
      (translate-Translates s r fuel t (omega (arith, length-append body (b']' ∷ s))))
    ∙ ap (◌∷◌ b'[') (append_assoc (quoted body) (b']' ∷ []) r)
translate-Translates _ _ zero (negated body s r n t) h = absurd (omega arith)
translate-Translates _ _ (suc fuel) (negated body s r n t) h =
    then_rest fuel b'[' (b'!' ∷ (body ++ b']' ∷ s)) (b'[' ∷ b'^' ∷ (quoted body ++ b']' ∷ [])) s r
      (round-negated body s n)
      (translate-Translates s r fuel t (omega (arith, length-append body (b']' ∷ s))))
    ∙ ap (λ u. b'[' ∷ b'^' ∷ u) (append_assoc (quoted body) (b']' ∷ []) r)
translate-Translates _ _ zero (unclosed s r m n t) h = absurd (omega arith)
translate-Translates _ _ (suc fuel) (unclosed s r m n t) h =
    then_rest fuel b'[' s (b'[' ∷ (quoted s ++ 92 ∷ b'[' ∷ [])) s r (round-unclosed s m n)
      (translate-Translates s r fuel t (omega arith))
    ∙ ap (◌∷◌ b'[') (append_assoc (quoted s) (92 ∷ b'[' ∷ []) r)
translate-Translates _ _ zero (unclosed_negated s r n t) h = absurd (omega arith)
translate-Translates _ _ (suc zero) (unclosed_negated s r n t) h = absurd (omega arith)
translate-Translates _ _ (suc (suc fuel)) (unclosed_negated s r n t) h =
    then_rest (suc fuel) b'[' (b'!' ∷ s) (b'[' ∷ b'^' ∷ (quoted s ++ 92 ∷ b'[' ∷ b'^' ∷ []))
      (b'!' ∷ s) (b'!' ∷ r) (round-unclosed_negated s n)
      (then_rest fuel b'!' s (b'!' ∷ []) s r refl (translate-Translates s r fuel t (omega arith)))
    ∙ ap (λ u. b'[' ∷ b'^' ∷ u) (append_assoc (quoted s) (92 ∷ b'[' ∷ b'^' ∷ []) (b'!' ∷ r))
