-- ===== src/BigInt/Text.antt =====
-- BigInt from a text and to a text.
pub mod Reading
pub mod Printing
use mathlib.Core.List.{reverse}
use cpp_experiments.Common.{
  ℕ, zero, suc, ◌+◌, ◌-◌, ◌*◌, ◌/◌, ◌%◌, Bool, true, false, ◌||◌, List, [], ◌∷◌, ◌++◌, ◌==◌,
  if◌then◌else◌,
}
use cpp_experiments.Common.Bytes.{Bytes, codes}
use cpp_experiments.Common.Decimal.{is_digit}
use cpp_experiments.Common.Fault.{Run, ok, fault, thrown, ◌>>=◌}
use cpp_experiments.BigInt.{BigInt, Digits, base}
use cpp_experiments.BigInt.Operators.{empty}

-- `data`, `acc` and `pow` of the loop, the last two of 16 bits.
pub record Chunks : Type 0 where
  pub full : Digits
  pub acc : ℕ
  pub pow : ℕ

-- A round, for one character.
unfoldable pub take_digit : ℕ → Chunks → Run Chunks
take_digit c k =
    let acc = (k.acc + k.pow * (c - 48)) % 65536 in
    let pow = k.pow * 10 % 65536 in
    if is_digit c
    then if pow == base
      then ok (record { full = k.full ++ acc ∷ []; acc = 0; pow = 1 })
      else ok (record { full = k.full; acc = acc; pow = pow })
    else fault thrown

-- The loop runs from the last character to the first.
unfoldable pub read_chunks : Bytes → Run Chunks
unfolding take_digit
read_chunks [] = ok (record { full = []; acc = 0; pow = 1 })
read_chunks (c ∷ s) = read_chunks s >>= take_digit c

-- The digits behind the sign.
unfoldable pub from_digits : Bool → Bytes → Run BigInt
unfolding read_chunks
from_digits negative s = do
  k ← read_chunks s
  ok (record { digits = if k.acc == 0 then k.full else k.full ++ k.acc ∷ []; negative = negative })

-- The constructor from a text.
unfoldable pub from_text : Bytes → Run BigInt
unfolding from_digits
from_text [] = ok (record { digits = []; negative = false })
from_text (c ∷ s) =
    if c == b'-' || c == b'+' then from_digits (c == b'-') s else from_digits false (c ∷ s)

-- The characters of a digit below the base, with the lowest first, in four places.
unfoldable pub low_chars : ℕ → ℕ → Bytes
low_chars zero n = []
low_chars (suc k) n = (48 + n % 10) ∷ low_chars k (n / 10)

unfoldable pub all_chars : Digits → Bytes
unfolding low_chars
all_chars [] = []
all_chars (d ∷ ds) = low_chars 4 d ++ all_chars ds

abbrev pub keep_char : ℕ → Bytes → Bytes
keep_char c [] = if c == 48 then [] else c ∷ []
keep_char c (d ∷ s) = c ∷ d ∷ s

-- The characters '0' at the end are popped.
unfoldable pub strip : Bytes → Bytes
strip [] = []
strip (c ∷ s) = keep_char c (strip s)

abbrev pub minus_sign : Bool → Bytes
minus_sign true = b'-' ∷ []
minus_sign false = []

-- operator std::string
unfoldable pub to_text : BigInt → Bytes
unfolding empty all_chars strip
to_text a =
    if empty a.digits
    then b'0' ∷ []
    else reverse (strip (all_chars a.digits) ++ minus_sign a.negative)
