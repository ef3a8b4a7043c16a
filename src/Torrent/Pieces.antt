-- ===== src/Torrent/Pieces.antt =====
-- torrent/src/piece_manager.cpp: `PieceManager` and its `Piece`.
pub mod Size
pub mod Counts
pub mod Pending
pub mod Steps
pub mod Total
pub mod Requests
use cpp_experiments.Common.{
  ℕ, zero, suc, ◌+◌, ◌-◌, ◌*◌, ◌/◌, ◌%◌, ◌^◌, Bool, true, false, ◌&&◌, ◌||◌, not, Option, none,
  some, List, [], ◌∷◌, ◌++◌, ltb, leb, ◌==◌, if◌then◌else◌, length, get_elem?, set, take, drop,
  replicate,
}
use cpp_experiments.Common.Fault.{Run, ok, fault, undefined, thrown, ◌>>=◌, or_fault}
use cpp_experiments.Common.Bytes.{Bytes, ◌=ᵇ◌}

pub data BlockState : Type 0 where
  pending requested done : BlockState

pub record Piece : Type 0 where
  pub buffer : Bytes
  pub actual_piece_size : ℕ
  pub last_block_size : ℕ
  pub actual_num_blocks : ℕ
  pub states : List BlockState
  pub requested_blocks : ℕ
  pub completed_blocks : ℕ

pub record PieceManager : Type 0 where
  pub total_size : ℕ
  pub piece_size : ℕ
  pub block_size : ℕ
  pub num_pieces : ℕ
  pub piece_blob : Bytes
  pub haves : List ℕ
  pub partial_pieces : List (ℕ × Piece)

-- static_cast<std::uint32_t>(totalSize + pieceSize - 1) / pieceSize, for a size that is not zero
unfoldable pub num_pieces_of : ℕ → ℕ → ℕ
num_pieces_of total piece = (total + piece - 1) % 2 ^ 64 % 2 ^ 32 / piece

-- The constructor; a size of zero divides by zero. numBlocks is never read.
unfoldable pub piece_manager : ℕ → ℕ → ℕ → Bytes → Run PieceManager
piece_manager total piece block blob =
    if piece == 0 || block == 0
    then fault undefined
    else ok (record {
      total_size = total;
      piece_size = piece;
      block_size = block;
      num_pieces = num_pieces_of total piece;
      piece_blob = blob;
      haves = [];
      partial_pieces = [];
    })

-- The size of the piece `idx`; numPieces - 1 wraps.
unfoldable pub piece_size_of : PieceManager → ℕ → ℕ
piece_size_of o idx =
    if ltb idx ((o.num_pieces + (2 ^ 32 - 1)) % 2 ^ 32) || (o.total_size % o.piece_size == 0)
    then o.piece_size
    else o.total_size % o.piece_size % 2 ^ 32

unfoldable pub num_blocks_of : ℕ → ℕ → ℕ
num_blocks_of size block = (size + block - 1) % 2 ^ 32 / block % 2 ^ 16

-- The constructor of Piece.
unfoldable pub new_piece : PieceManager → ℕ → Piece
new_piece o idx =
    let size = piece_size_of o idx in
    record {
      buffer = replicate o.piece_size 0;
      actual_piece_size = size;
      last_block_size =
          if size % o.block_size == 0 then o.block_size else size % o.block_size % 2 ^ 16;
      actual_num_blocks = num_blocks_of size o.block_size;
      states = replicate (num_blocks_of size o.block_size) pending;
      requested_blocks = 0;
      completed_blocks = 0;
    }

-- ++ and -- on a std::uint16_t
abbrev pub up : ℕ → ℕ
up n = (n + 1) % 2 ^ 16

abbrev pub down : ℕ → ℕ
down n = (n + (2 ^ 16 - 1)) % 2 ^ 16

abbrev pub mark_requested : ℕ → Piece → Piece
mark_requested idx p = record p {
  states = set p.states idx requested;
  requested_blocks = up p.requested_blocks;
}

abbrev pub request_in : BlockState → ℕ → ℕ → Piece → Run (ℕ × Piece)
request_in pending block idx p =
    ok
      (if ltb (idx + 1) p.actual_num_blocks then block else p.last_block_size, mark_requested idx p)
request_in _ block idx p = fault thrown

-- requestBlockNum
unfoldable pub request_block_num : ℕ → ℕ → Piece → Run (ℕ × Piece)
request_block_num block idx p =
    or_fault (get_elem? p.states idx) undefined >>= λ s. request_in s block idx p

abbrev pub smaller : ℕ → ℕ → ℕ
smaller a b = if ltb b a then b else a

-- The piece once the block at `offset` is copied from behind the 8 bytes that lead the payload;
-- the text ends with a zero byte that may be read.
unfoldable pub copied : ℕ → ℕ → Bytes → Piece → Run Piece
copied block offset payload p =
    let size = smaller block (p.actual_piece_size - offset) in
    let text = drop 8 (payload ++ 0 ∷ []) in
    if ltb (length text) size
    then fault undefined
    else ok (record p {
      buffer = take offset p.buffer ++ take size text ++ drop (offset + size) p.buffer;
    })

abbrev pub mark_done : ℕ → Piece → Piece
mark_done idx p = record p {
  states = set p.states idx done;
  requested_blocks = down p.requested_blocks;
  completed_blocks = up p.completed_blocks;
}

-- writeBlock
unfoldable pub write_block : ℕ → ℕ → Bytes → Piece → Run Piece
write_block block offset payload p = if leb p.actual_piece_size offset then fault thrown else (do
  q ← copied block offset payload p
  _ ← or_fault (get_elem? q.states (offset / block)) undefined
  ok (mark_done (offset / block) q))

-- partialPieces
unfoldable pub piece_at : ℕ → List (ℕ × Piece) → Option Piece
piece_at idx [] = none
piece_at idx ((i, p) ∷ ps) = if i == idx then some p else piece_at idx ps

unfoldable pub put_piece : ℕ → Piece → List (ℕ × Piece) → List (ℕ × Piece)
put_piece idx p [] = (idx, p) ∷ []
put_piece idx p ((i, q) ∷ ps) = if i == idx then (i, p) ∷ ps else (i, q) ∷ put_piece idx p ps

unfoldable pub erase_piece : ℕ → List (ℕ × Piece) → List (ℕ × Piece)
erase_piece idx [] = []
erase_piece idx ((i, q) ∷ ps) =
    let rest = erase_piece idx ps in if i == idx then rest else (i, q) ∷ rest

abbrev pub mark_pending : ℕ → Piece → Piece
mark_pending idx p = record p {
  states = set p.states idx pending;
  requested_blocks = down p.requested_blocks;
}

-- The partial pieces with the piece put back, or without it where no block is in transit or done.
unfoldable pub keep_or_drop : ℕ → Piece → List (ℕ × Piece) → List (ℕ × Piece)
keep_or_drop idx p ps =
    if (p.requested_blocks == 0) && (p.completed_blocks == 0)
    then erase_piece idx ps
    else put_piece idx p ps

-- clearInTransitBlock
unfoldable pub clear_in_transit : ℕ → ℕ → PieceManager → Run PieceManager
clear_in_transit idx offset m = do
  p ← or_fault (piece_at idx m.partial_pieces) thrown
  _ ← or_fault (get_elem? p.states (offset / m.block_size)) undefined
  ok (record m {
    partial_pieces = keep_or_drop idx (mark_pending (offset / m.block_size) p) m.partial_pieces;
  })

-- onPeerReset
unfoldable pub on_peer_reset : List (ℕ × ℕ) → PieceManager → Run PieceManager
on_peer_reset [] m = ok m
on_peer_reset ((idx, offset) ∷ rs) m = clear_in_transit idx offset m >>= on_peer_reset rs

-- getPieceHash; substr throws behind the end.
unfoldable pub piece_hash : PieceManager → ℕ → Run Bytes
piece_hash m idx =
    if leb m.num_pieces idx
    then fault thrown
    else if ltb (length m.piece_blob) (idx * 20)
    then fault thrown
    else ok (take 20 (drop (idx * 20) m.piece_blob))

unfoldable pub add_have : ℕ → List ℕ → List ℕ
add_have idx [] = idx ∷ []
add_have idx (i ∷ is) = if i == idx then i ∷ is else i ∷ add_have idx is

unfoldable pub has : ℕ → List ℕ → Bool
has idx [] = false
has idx (i ∷ is) = if i == idx then true else has idx is
