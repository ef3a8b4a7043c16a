-- ===== src/Fnmatch/Grammar.antt =====
-- What the translation of misc/fnmatch.hpp is: a relation between a pattern and the text of a regular
-- expression, by what the pattern is made of. What std::regex makes of that text is not modelled.
use cpp_experiments.Common.{
  ℕ, ◌≡◌, ◌≢◌, Bool, true, false, ◌||◌, [], ◌∷◌, ◌++◌, ◌==◌, if◌then◌else◌,
}
use cpp_experiments.Common.Bytes.{Bytes}

-- No character closes a bracket.
abbrev pub NoClosing : Bytes → Type 0
NoClosing [] = Unit {0}
NoClosing (c ∷ s) = (c ≢ b']') × NoClosing s

-- A text is not negated by its first character.
abbrev pub NoMark : Bytes → Type 0
NoMark [] = Unit {0}
NoMark (c ∷ s) = c ≢ b'!'

-- Inside brackets three characters stand behind a backslash.
abbrev pub quoted_one : ℕ → Bytes
quoted_one c = if c == b'^' || (c == b'-' || c == 92) then 92 ∷ c ∷ [] else c ∷ []

abbrev pub quoted : Bytes → Bytes
quoted [] = []
quoted (c ∷ s) = quoted_one c ++ quoted s

-- The characters with a case of their own, and those that a regular expression would read otherwise.
abbrev pub IsOrdinary : ℕ → Type 0
IsOrdinary c = (c ≢ b'*') × (c ≢ b'?') × (c ≢ b'[') × (c ≢ 92)

abbrev pub needs_backslash : ℕ → Bool
needs_backslash c =
    c == b'.'
    || (c == b'+'
        || (c == b'('
            || (c == b')'
                || (c == b'{' || (c == b'}' || (c == b'|' || (c == b'^' || c == b'$')))))))

pub data Translates : Bytes → Bytes → Type 0 where
  done : Translates [] []
  star : (s r : Bytes) → Translates s r → Translates (b'*' ∷ s) (b'.' ∷ b'*' ∷ r)
  any : (s r : Bytes) → Translates s r → Translates (b'?' ∷ s) (b'.' ∷ r)
  escape : (c : ℕ) (s r : Bytes) → Translates s r → Translates (92 ∷ c ∷ s) (92 ∷ c ∷ r)
  backslash : Translates (92 ∷ []) (92 ∷ 92 ∷ [])
  special :
      (c : ℕ) (s r : Bytes)
      → IsOrdinary c
      → needs_backslash c ≡ true
      → Translates s r
      → Translates (c ∷ s) (92 ∷ c ∷ r)
  plain :
      (c : ℕ) (s r : Bytes)
      → IsOrdinary c
      → needs_backslash c ≡ false
      → Translates s r
      → Translates (c ∷ s) (c ∷ r)
  -- Brackets that are closed.
  class :
      (body s r : Bytes)
      → NoMark body
      → NoClosing body
      → Translates s r
      → Translates (b'[' ∷ (body ++ b']' ∷ s)) (b'[' ∷ (quoted body ++ b']' ∷ r))
  negated :
      (body s r : Bytes)
      → NoClosing body
      → Translates s r
      → Translates (b'[' ∷ b'!' ∷ (body ++ b']' ∷ s)) (b'[' ∷ b'^' ∷ (quoted body ++ b']' ∷ r))
  -- Brackets that are not: what has been written stays, and all behind the bracket comes again.
  unclosed :
      (s r : Bytes)
      → NoMark s
      → NoClosing s
      → Translates s r
      → Translates (b'[' ∷ s) (b'[' ∷ (quoted s ++ 92 ∷ b'[' ∷ r))
  unclosed_negated :
      (s r : Bytes)
      → NoClosing s
      → Translates s r
      → Translates (b'[' ∷ b'!' ∷ s) (b'[' ∷ b'^' ∷ (quoted s ++ 92 ∷ b'[' ∷ b'^' ∷ b'!' ∷ r))
