-- ===== src/Torrent/Pieces/Size.antt =====
-- The number of pieces of a torrent.
use native.Mathlib.Nat.{div-mul-le_self, lt-div-mul-add}
use cpp_experiments.Common.{ℕ, ◌+◌, ◌-◌, ◌*◌, ◌%◌, ◌^◌, ◌<◌, ◌≤◌, ◌↔◌, arith}
use cpp_experiments.Torrent.Pieces.{num_pieces_of}

-- For a piece size of at most 2^31 and a total of less than 2^63, the pieces cover the whole
-- torrent if and only if the total and the piece size add up to at most 2^32: for a larger torrent
-- the cast of the sum, and not of the quotient, leaves too few.
pub num_pieces-covers :
    (total piece : ℕ)
    → 0 < piece
    → piece ≤ 2 ^ 31
    → total < 2 ^ 63
    → (total ≤ num_pieces_of total piece * piece) ↔ (total + piece ≤ 2 ^ 32)
unfolding num_pieces_of
num_pieces-covers total piece h k l =
    let low = div-mul-le_self ((total + piece - 1) % 2 ^ 64 % 2 ^ 32) piece in
    let high = lt-div-mul-add {a = (total + piece - 1) % 2 ^ 64 % 2 ^ 32} h in
    (λ c. omega arith, λ c. omega arith)

-- And no piece is then empty.
pub num_pieces-tight :
    (total piece : ℕ)
    → 0 < piece
    → total + piece ≤ 2 ^ 32
    → num_pieces_of total piece * piece < total + piece
unfolding num_pieces_of
num_pieces-tight total piece h k =
    let low = div-mul-le_self ((total + piece - 1) % 2 ^ 64 % 2 ^ 32) piece in omega arith
