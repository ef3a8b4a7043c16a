-- ===== src/Hashlib/Tests.antt =====
-- The static_asserts of cryptography/hashlib.hpp.
use cpp_experiments.Common.{◌≡◌, refl, true, false, [], ◌++◌, arith, inl, length, replicate}
use cpp_experiments.Common.Bytes.{Bytes, codes}
use cpp_experiments.Hashlib.{crc32}
use cpp_experiments.Hashlib.Sha1.{sha1}
use cpp_experiments.Hashlib.Feeder.{all_blocks}
use cpp_experiments.Hashlib.Chunks.{concat}
use cpp_experiments.Hashlib.Padding.{padding, misplaced, all_blocks-padding, all_blocks-misplaced}
use cpp_experiments.Hashlib.Widths.{length-sha1}

digits_checked : crc32 (codes "123456789") ≡ 0xCBF43926
unfolding crc32
digits_checked = refl

empty_hash : sha1 [] false ≡ codes "da39a3ee5e6b4b0d3255bfef95601890afd80709"
unfolding sha1
empty_hash = refl

fox_hash :
    sha1 (codes "The quick brown fox jumps over the lazy dog") false
    ≡ codes "2fd4e1c67a2d28fced849ee1bb76e7391b93eb12"
unfolding sha1
fox_hash = refl

length-sha1_case : length (sha1 (codes "abc") true) ≡ 20
length-sha1_case = length-sha1 (codes "abc") true

all_blocks-padding_example : concat (all_blocks (codes "abc")) ≡ codes "abc" ++ padding 3
all_blocks-padding_example = all_blocks-padding (codes "abc") (inl (omega arith))

abbrev sixty : Bytes
sixty = replicate 60 b'a'

all_blocks-misplaced_example : concat (all_blocks sixty) ≡ sixty ++ misplaced 60
all_blocks-misplaced_example = all_blocks-misplaced sixty (omega arith) (omega arith)
