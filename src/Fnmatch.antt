-- ===== src/Fnmatch.antt =====
-- misc/fnmatch.hpp: the translation of a file name pattern to a regular expression. The table of
-- compiled expressions only saves time; std::regex is not modelled.
pub mod Grammar
pub mod Reading
pub mod Total
pub mod Tests
use cpp_experiments.Common.{
  ℕ, zero, suc, Bool, true, false, ◌||◌, Option, none, some, List, [], ◌∷◌, ◌++◌, ◌==◌,
  if◌then◌else◌, length,
}
use cpp_experiments.Common.Bytes.{Bytes, codes}

-- The loop inside brackets: what it writes, and the text behind the closing bracket if there is one.
unfoldable pub class_body : Bytes → Bytes × Option Bytes
class_body [] = ([], none)
class_body (c ∷ s) =
    let (out, rest) = class_body s in
    if c == b']'
    then ([], some s)
    else ((if c == b'^' || (c == b'-' || c == 92) then 92 ∷ c ∷ [] else c ∷ []) ++ out, rest)

-- Whether the brackets are negated, and the text behind the mark.
abbrev pub negation : Bytes → Bool × Bytes
negation [] = (false, [])
negation (c ∷ s) = if c == b'!' then (true, s) else (false, c ∷ s)

abbrev pub caret : Bool → Bytes
caret true = b'^' ∷ []
caret false = []

-- What is written behind the brackets, and where the loop over the pattern goes on: behind the
-- closing bracket, or else behind the opening one.
abbrev pub after_class : Bool → Bytes → Option Bytes → Bytes × Bytes
after_class negate behind (some rest) = (b']' ∷ [], rest)
after_class negate behind none = (92 ∷ b'[' ∷ caret negate, behind)

-- The case of an opening bracket, `behind` it.
unfoldable pub class_text : Bytes → Bytes × Bytes
class_text behind =
    let (negate, s) = negation behind in
    let (out, rest) = class_body s in
    let (finish, next) = after_class negate behind rest in
    (b'[' ∷ (caret negate ++ (out ++ finish)), next)

-- The case of a backslash, `behind` it.
unfoldable pub escape_text : Bytes → Bytes × Bytes
escape_text [] = (92 ∷ 92 ∷ [], [])
escape_text (c ∷ s) = (92 ∷ c ∷ [], s)

abbrev is_special : ℕ → Bool
is_special c =
    c == b'.'
    || (c == b'+'
        || (c == b'('
            || (c == b')'
                || (c == b'{' || (c == b'}' || (c == b'|' || (c == b'^' || c == b'$')))))))

-- One round of the loop: what it writes, and what is left of the pattern.
unfoldable pub round : ℕ → Bytes → Bytes × Bytes
round c s =
    if c == b'*'
    then (b'.' ∷ b'*' ∷ [], s)
    else if c == b'?'
    then (b'.' ∷ [], s)
    else if c == b'['
    then class_text s
    else if c == 92
    then escape_text s
    else if is_special c
    then (92 ∷ c ∷ [], s)
    else (c ∷ [], s)

-- The loop; each round takes a character away, so the length of the pattern is fuel enough.
unfoldable pub translate : ℕ → Bytes → Bytes
translate zero s = []
translate (suc fuel) [] = []
translate (suc fuel) (c ∷ s) = let (out, rest) = round c s in out ++ translate fuel rest

-- compilePattern, the text that std::regex gets.
unfoldable pub compile_pattern : Bytes → Bytes
compile_pattern pattern = b'^' ∷ (translate (length pattern) pattern ++ b'$' ∷ [])
