-- ===== src/Hashlib.antt =====
-- cryptography/hashlib.hpp: SHA-1 with its block feeder, CRC-32 and the hexadecimal texts.
pub mod Feeder
pub mod Chunks
pub mod LastBlocks
pub mod Padding
pub mod Sha1
pub mod Widths
pub mod Tests
use Prim.Native.Nat.{bit_and, bit_or, bit_xor}
use cpp_experiments.Common.{
  ℕ, zero, suc, ◌+◌, ◌-◌, ◌*◌, ◌/◌, ◌%◌, ◌^◌, Bool, true, false, List, [], ◌∷◌, ◌++◌, ltb, leb,
  ◌==◌, if◌then◌else◌, length, replicate, get_or,
}
use cpp_experiments.Common.Bytes.{Bytes, codes}

-- The eight shifts of a byte in CRC32::update.
unfoldable pub crc_shifts : ℕ → ℕ → ℕ
crc_shifts zero crc = crc
crc_shifts (suc k) crc =
    crc_shifts k (if bit_and crc 1 == 1 then bit_xor (crc / 2) 0xedb88320 else crc / 2)

-- CRC32::update
unfoldable pub crc_update : ℕ → Bytes → ℕ
unfolding crc_shifts
crc_update crc [] = crc
crc_update crc (ch ∷ s) = crc_update (crc_shifts 8 (bit_xor crc (ch % 256))) s

-- CRC32::value
unfoldable pub crc_value : ℕ → ℕ
crc_value crc = bit_xor crc 0xFFFFFFFF

unfoldable pub crc32 : Bytes → ℕ
unfolding crc_value crc_update
crc32 s = crc_value (crc_update 0xFFFFFFFF s)

abbrev pub x2c : ℕ → ℕ
x2c val = get_or (codes "0123456789abcdef") val 0

-- The hexadecimal digits of `hexDigits` places, from the highest.
unfoldable pub hex_digits : ℕ → ℕ → Bytes
hex_digits zero val = []
hex_digits (suc k) val = x2c (val / 16 ^ k % 16) ∷ hex_digits k val

abbrev pub drop_zeros : Bytes → Bytes
drop_zeros [] = []
drop_zeros (c ∷ s) = if c == b'0' then drop_zeros s else c ∷ s

-- `out` without its zeros in front, or "0".
abbrev pub trimmed : Bytes → Bytes
trimmed [] = b'0' ∷ []
trimmed (c ∷ s) = c ∷ s

-- x2s for a type of `bytes` bytes.
unfoldable pub x2s : ℕ → ℕ → ℕ → Bytes
unfolding hex_digits
x2s bytes val min_width =
    let places = bytes * 8 / 4 in
    let width = if ltb min_width places then places else min_width in
    let out = trimmed (drop_zeros (hex_digits places val)) in
    if ltb (length out) width then replicate (width - length out) b'0' ++ out else out

unfoldable pub rotate_left : ℕ → ℕ → ℕ
rotate_left b shift = let by = shift % 32 in bit_or (b * 2 ^ by % 2 ^ 32) (b / 2 ^ (32 - by))
