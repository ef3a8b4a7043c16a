-- ===== src/Ciphers.antt =====
-- cryptography/rot-cipher.cpp and cryptography/vignere-cipher.cpp. Letters are those of ASCII, as
-- std::islower and std::isupper have it in the "C" locale.
pub mod Rounds
pub mod Tests
use cpp_experiments.Common.{
  ℕ, suc, ◌+◌, ◌-◌, ◌%◌, Bool, true, false, ◌&&◌, ◌||◌, Option, none, some, [], ◌∷◌, leb,
  if◌then◌else◌, get_elem?, length,
}
use cpp_experiments.Common.Int.{ℤ, pos, negsuc}
use cpp_experiments.Common.Fault.{Run, ok, fault, undefined, ◌>>=◌, or_fault}
use cpp_experiments.Common.Bytes.{Bytes}

abbrev pub is_lower : ℕ → Bool
is_lower ch = leb 97 ch && leb ch 122

abbrev pub is_upper : ℕ → Bool
is_upper ch = leb 65 ch && leb ch 90

-- The shift of a rotation: the remainder of C++ has the sign of the number.
unfoldable pub shift_of : ℤ → ℕ
shift_of (pos n) = (n % 26 + 26) % 26
shift_of (negsuc n) = (26 - suc n % 26) % 26

-- A character through lowercaseMapping or uppercaseMapping.
abbrev pub rotated : ℕ → ℕ → ℕ
rotated shift ch =
    if is_lower ch
    then 97 + (ch - 97 + shift) % 26
    else if is_upper ch
    then 65 + (ch - 65 + shift) % 26
    else ch

unfoldable pub rotate_all : ℕ → Bytes → Bytes
rotate_all shift [] = []
rotate_all shift (ch ∷ s) = rotated shift ch ∷ rotate_all shift s

-- rotcipher
unfoldable pub rot_cipher : Bytes → ℤ → Bytes
rot_cipher plaintext shift = rotate_all (shift_of shift) plaintext

pub data Mode : Type 0 where
  decrypt encrypt : Mode

-- The place of a letter in the alphabet, whatever its case.
abbrev pub text_ord : ℕ → ℕ
text_ord ch = if is_upper ch then ch - 65 else ch - 97

-- A letter moved on by the difference of two numbers, whose remainder has the sign of C++.
abbrev pub moved : ℕ → ℕ → ℕ → ℕ
moved base added taken =
    if leb taken added then base + (added - taken) % 26 else base - (taken - added) % 26

-- A letter of the text with a character of the key, `textOrd + keyOrd` or `textOrd - keyOrd + 26`
-- where `keyOrd` is that character less 97. Characters are those of ASCII.
abbrev pub ciphered : Mode → ℕ → ℕ → ℕ → ℕ
ciphered encrypt base text key = moved base (text + key) 97
ciphered decrypt base text key = moved base (text + 97 + 26) key

abbrev pub base_of : ℕ → ℕ
base_of ch = if is_lower ch then 97 else 65

-- vignerecipher, from the place `key_idx` of the key on; an empty key is read behind its end.
unfoldable pub vignere_from : Bytes → Mode → ℕ → Bytes → Run Bytes
vignere_from key mode key_idx [] = ok []
vignere_from key mode key_idx (ch ∷ s) =
    let letter = or_fault (get_elem? key key_idx) undefined >>= λ k.
    vignere_from key mode ((key_idx + 1) % length key) s >>= λ rest.
    ok (ciphered mode (base_of ch) (text_ord ch) k ∷ rest) in
    let other = vignere_from key mode key_idx s >>= λ rest. ok (ch ∷ rest) in
    if is_lower ch || is_upper ch then letter else other

unfoldable pub vignere_cipher : Bytes → Bytes → Mode → Run Bytes
vignere_cipher original key mode = vignere_from key mode 0 original
