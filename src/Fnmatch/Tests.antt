-- ===== src/Fnmatch/Tests.antt =====
-- Patterns of misc/fnmatch.hpp on concrete texts.
use cpp_experiments.Common.{◌≡◌, refl, [], ◌∷◌, ◌++◌}
use cpp_experiments.Common.Bytes.{Bytes, codes}
use cpp_experiments.Fnmatch.{class_body, class_text, escape_text, round, translate, compile_pattern}
use cpp_experiments.Fnmatch.Grammar.{Translates}
use cpp_experiments.Fnmatch.Total.{compile_pattern-Translates}

compile_pattern-Translates_example :
    (r : Bytes) × Translates (codes "*.[!a-b][c") r
    × ((q : Bytes) → Translates (codes "*.[!a-b][c") q → q ≡ r)
    × (compile_pattern (codes "*.[!a-b][c") ≡ b'^' ∷ (r ++ b'$' ∷ []))
compile_pattern-Translates_example = compile_pattern-Translates (codes "*.[!a-b][c")

wildcards : compile_pattern (codes "*.[!a-b]?") ≡ codes "^.*\\.[^a\\-b].$"
unfolding compile_pattern translate round class_text class_body
wildcards = refl

-- The brackets that are not closed leave a bracket and their text behind.
unclosed : compile_pattern (codes "[a") ≡ codes "^[a\\[a$"
unfolding compile_pattern translate round class_text class_body
unclosed = refl

-- A letter behind a backslash stays there; std::regex reads some of those as a class.
escaped_letter : compile_pattern (codes "\\d") ≡ codes "^\\d$"
unfolding compile_pattern translate round escape_text
escaped_letter = refl
