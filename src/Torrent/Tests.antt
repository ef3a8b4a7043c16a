-- ===== src/Torrent/Tests.antt =====
-- Runs of the bookkeeping of pieces on concrete downloads.
use cpp_experiments.Common.{
  ◌+◌, ◌*◌, ◌<◌, ◌≤◌, ◌≡◌, ◌↔◌, ◌^◌, refl, [], ◌∷◌, arith, get_elem?, replicate,
}
use cpp_experiments.Common.Fault.{ok}
use cpp_experiments.Common.Bytes.{Bytes, codes}
use cpp_experiments.Torrent.Pieces.{
  Piece, PieceManager, pending, requested, done, num_pieces_of, request_block_num, write_block,
}
use cpp_experiments.Torrent.Pieces.Size.{num_pieces-covers, num_pieces-tight}
use cpp_experiments.Torrent.Pieces.Counts.{Counted, count}
use cpp_experiments.Torrent.Pieces.Steps.{
  Answered, request_block_num-Counted, write_block-Counted, write_block_again,
}
use cpp_experiments.Torrent.Pieces.Pending.{get_pending_blocks}
use cpp_experiments.Torrent.Pieces.Total.{Returns}
use cpp_experiments.Torrent.Pieces.Requests.{PeerAsked, get_pending_blocks-PeerAsked}

-- A piece of six bytes in blocks of two: one done, one in transit, one pending.
abbrev piece : Piece
piece = record {
  buffer = replicate 6 0;
  actual_piece_size = 6;
  last_block_size = 2;
  actual_num_blocks = 3;
  states = done ∷ requested ∷ pending ∷ [];
  requested_blocks = 1;
  completed_blocks = 1;
}

piece-Counted : Counted piece
unfolding count
piece-Counted = record { blocks = refl; in_range = omega arith; in_transit = refl; finished = refl }

abbrev manager : PieceManager
manager = record {
  total_size = 12;
  piece_size = 6;
  block_size = 2;
  num_pieces = 2;
  piece_blob = replicate 40 0;
  haves = [];
  partial_pieces = (0, piece) ∷ [];
}

-- The 8 leading bytes and a block.
abbrev payload : Bytes
payload = codes "12345678ab"

num_pieces-covers_example :
    (2 ^ 32 ≤ num_pieces_of (2 ^ 32) (2 ^ 18) * 2 ^ 18) ↔ (2 ^ 32 + 2 ^ 18 ≤ 2 ^ 32)
num_pieces-covers_example =
    num_pieces-covers (2 ^ 32) (2 ^ 18) (omega arith) (omega arith) (omega arith)

num_pieces-tight_example : num_pieces_of 13 6 * 6 < 13 + 6
num_pieces-tight_example = num_pieces-tight 13 6 (omega arith) (omega arith)

request_block_num-Counted_case : Answered (get_elem? piece.states 2) (request_block_num 2 2 piece)
request_block_num-Counted_case = request_block_num-Counted 2 2 piece piece-Counted

write_block-Counted_example : (q : Piece) × (write_block 2 2 payload piece ≡ ok q) × Counted q
write_block-Counted_example =
    write_block-Counted 2 2 payload piece (omega arith, omega arith) refl piece-Counted

same_block_again : (q : Piece) × (write_block 2 0 payload piece ≡ ok q) × (¬ Counted q)
same_block_again = write_block_again 2 0 payload piece (omega arith, omega arith) refl piece-Counted

get_pending_blocks-PeerAsked_example :
    Returns (PeerAsked 3) (get_pending_blocks (0 ∷ 1 ∷ []) 3 manager)
get_pending_blocks-PeerAsked_example =
    get_pending_blocks-PeerAsked (0 ∷ 1 ∷ []) 3 manager (piece-Counted, tt)
