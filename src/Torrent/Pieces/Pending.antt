-- ===== src/Torrent/Pieces/Pending.antt =====
-- torrent/src/piece_manager.cpp: the blocks that getPendingBlocks asks for, and the arrival of one.
use cpp_experiments.Common.{
  ℕ, zero, suc, ◌+◌, ◌*◌, ◌%◌, ◌^◌, Bool, true, false, ◌&&◌, ◌||◌, not, none, some, List, [], ◌∷◌,
  ◌++◌, ltb, ◌==◌, if◌then◌else◌, length, get_elem?, take,
}
use cpp_experiments.Common.Fault.{Run, ok, undefined, thrown, ◌>>=◌, or_fault}
use cpp_experiments.Common.Bytes.{Bytes, ◌=ᵇ◌}
use cpp_experiments.Torrent.Pieces.{
  Piece, PieceManager, BlockState, pending, request_block_num, new_piece, write_block, piece_at,
  put_piece, erase_piece, piece_hash, add_have, has,
}

-- A request: the piece, the offset and the size of the block.
pub record Request : Type 0 where
  pub piece : ℕ
  pub offset : ℕ
  pub size : ℕ

abbrev pub request_of : ℕ → ℕ → ℕ → ℕ → Request
request_of block idx n size = record { piece = idx; offset = n * block % 2 ^ 32; size = size }

abbrev pub is_pending : BlockState → Bool
is_pending pending = true
is_pending _ = false

-- One round of the loops over the blocks: a block of a piece already in transit is asked for where
-- it is pending, a block of a new piece in any case.
unfoldable pub one_block :
    Bool → ℕ → ℕ → ℕ → BlockState → Piece → List Request → Run (List Request × Piece)
one_block check block idx n s p rs =
    if not check || is_pending s
    then (request_block_num block n p >>= λ r. ok (rs ++ request_of block idx n r.0 ∷ [], r.1))
    else ok (rs, p)

-- The loop from the block `n` on, with `left` blocks to go.
unfoldable pub request_blocks :
    Bool → ℕ → ℕ → ℕ → ℕ → ℕ → Piece → List Request → Run (List Request × Piece)
request_blocks check block count idx zero n p rs = ok (rs, p)
request_blocks check block count idx (suc left) n p rs =
    let round = (do
      s ← or_fault (get_elem? p.states n) undefined
      r ← one_block check block idx n s p rs
      request_blocks check block count idx left (n + 1) r.1 r.0) in
    if ltb (length rs) count then round else ok (rs, p)

abbrev pub blocks_of_piece : Bool → ℕ → ℕ → ℕ → Piece → List Request → Run (List Request × Piece)
blocks_of_piece check block count idx p rs =
    request_blocks check block count idx p.actual_num_blocks 0 p rs

-- The loop over the pieces in transit.
unfoldable pub from_partial :
    ℕ → ℕ → List ℕ → List (ℕ × Piece) → List Request → Run (List Request × List (ℕ × Piece))
from_partial block count peer [] rs = ok (rs, [])
from_partial block count peer ((idx, p) ∷ ps) rs =
    let asked = (do
      r ← blocks_of_piece true block count idx p rs
      t ← from_partial block count peer ps r.0
      ok (t.0, (idx, r.1) ∷ t.1)) in
    let skipped = (do t ← from_partial block count peer ps rs; ok (t.0, (idx, p) ∷ t.1)) in
    if ltb (length rs) count
    then (if has idx peer then asked else skipped)
    else ok (rs, (idx, p) ∷ ps)

abbrev pub is_new : ℕ → PieceManager → Bool
is_new idx m =
    not (has idx m.haves) && elim (piece_at idx m.partial_pieces) [ none ↦ true | some _ ↦ false ]

abbrev pub with_piece : ℕ → Piece → PieceManager → PieceManager
with_piece idx p m = record m { partial_pieces = put_piece idx p m.partial_pieces }

-- The loop over the pieces that the peer has.
unfoldable pub from_peer :
    ℕ → List ℕ → PieceManager → List Request → Run (List Request × PieceManager)
from_peer count [] m rs = ok (rs, m)
from_peer count (idx ∷ peer) m rs =
    let skipped = from_peer count peer m rs in
    let asked = (do
      r ← blocks_of_piece false m.block_size count idx (new_piece m idx) rs
      from_peer count peer (with_piece idx r.1 m) r.0) in
    if ltb (length rs) count then (if is_new idx m then asked else skipped) else ok (rs, m)

unfoldable pub get_pending_blocks : List ℕ → ℕ → PieceManager → Run (List Request × PieceManager)
get_pending_blocks peer count m = do
  r ← from_partial m.block_size count peer m.partial_pieces []
  from_peer count peer (record m { partial_pieces = r.1 }) r.0

-- The end of a piece: its bytes where the hash is right.
unfoldable pub finish_piece :
    ℕ → Bytes → Bytes → Bytes → PieceManager → (Bool × Bytes) × PieceManager
finish_piece idx text hash expected m =
    let rest = erase_piece idx m.partial_pieces in
    if hash =ᵇ expected
    then ((true, text), record m { haves = add_have idx m.haves; partial_pieces = rest })
    else ((false, []), record m { partial_pieces = rest })

-- The piece as it is after the write: is it complete, and what comes of it.
unfoldable pub after_write :
    (Bytes → Bytes) → ℕ → Piece → PieceManager → Bool → Run ((Bool × Bytes) × PieceManager)
after_write sha1 idx q m true =
    let text = take q.actual_piece_size q.buffer in
    piece_hash m idx >>= λ expected. ok (finish_piece idx text (sha1 text) expected m)
after_write sha1 idx q m false = ok ((false, []), with_piece idx q m)

-- onBlockReceived, with the library's SHA-1.
unfoldable pub on_block_received :
    (Bytes → Bytes) → ℕ → ℕ → Bytes → PieceManager → Run ((Bool × Bytes) × PieceManager)
on_block_received sha1 idx offset payload m = do
  p ← or_fault (piece_at idx m.partial_pieces) thrown
  q ← write_block m.block_size offset payload p
  after_write sha1 idx q m (q.completed_blocks == q.actual_num_blocks)
