-- ===== src/Torrent/Pieces/Steps.antt =====
-- The operations on a piece keep its counters right; getPendingBlocks keeps to its number.
use cpp_experiments.Common.{
  ℕ, zero, suc, ◌+◌, ◌-◌, ◌/◌, ◌<◌, ◌≤◌, ◌≡◌, refl, sym, false, Option, none, some, [], ◌∷◌, ◌++◌,
  arith, ltb, leb, if◌then◌else◌, length, get_elem?, take, drop, replicate, length-replicate,
}
use cpp_experiments.Common.Fault.{Run, ok, fault, undefined, thrown, ◌>>=◌, or_fault}
use cpp_experiments.Common.Bytes.{Bytes}
use cpp_experiments.Torrent.Pieces.{
  Piece, PieceManager, BlockState, pending, requested, done, mark_requested, mark_done, request_in,
  request_block_num, copied, write_block, new_piece, num_blocks_of, piece_size_of, smaller,
}
use cpp_experiments.Torrent.Pieces.Counts.{
  Counted, count, is_requested, is_done, mark_requested-Counted, mark_done-Counted, mark_done_again,
}

count-pending : (f : BlockState → ℕ) (n : ℕ) → f pending ≡ 0 → count f (replicate n pending) ≡ 0
unfolding count
count-pending f zero h = refl
count-pending f (suc n) h = omega (arith, count-pending f n h)

-- A new piece has no block in transit and none done.
pub new_piece-Counted : (o : PieceManager) (idx : ℕ) → Counted (new_piece o idx)
unfolding new_piece num_blocks_of
new_piece-Counted o idx =
    let n = num_blocks_of (piece_size_of o idx) o.block_size in
    record {
      blocks = length-replicate n pending;
      in_range = omega (arith, length-replicate n pending);
      in_transit = sym (count-pending is_requested n refl);
      finished = sym (count-pending is_done n refl);
    }

-- What requestBlockNum is to do on the state of the block, if there is such a block.
abbrev pub Answered : Option BlockState → Run (ℕ × Piece) → Type 0
Answered none r = r ≡ fault undefined
Answered (some pending) r = (n : ℕ) × (q : Piece) × (r ≡ ok (n, q)) × Counted q
Answered (some _) r = r ≡ fault thrown

request_in-Answered :
    (block i : ℕ) (p : Piece) (o : Option BlockState)
    → get_elem? p.states i ≡ o
    → Counted p
    → Answered o (or_fault o undefined >>= λ s. request_in s block i p)
request_in-Answered block i p none e k = refl
request_in-Answered block i p (some pending) e k = (
  (if ltb (i + 1) p.actual_num_blocks then block else p.last_block_size),
  mark_requested i p,
  refl,
  mark_requested-Counted p i k e,
)
request_in-Answered block i p (some requested) e k = refl
request_in-Answered block i p (some done) e k = refl

-- On a piece whose counters are the numbers of its blocks in transit and done, requestBlockNum of
-- a pending block returns and keeps them so; of any other block it throws; behind the last block
-- it is undefined.
pub request_block_num-Counted :
    (block i : ℕ) (p : Piece)
    → Counted p
    → Answered (get_elem? p.states i) (request_block_num block i p)
unfolding request_block_num
request_block_num-Counted block i p k = request_in-Answered block i p (get_elem? p.states i) refl k

ltb-false : (a b : ℕ) → b ≤ a → ltb a b ≡ false
ltb-false a b h = ground arith

leb-false : (a b : ℕ) → b < a → leb a b ≡ false
leb-false a b h = ground arith

same_counts : (p : Piece) (b : Bytes) → Counted p → Counted (record p { buffer = b })
same_counts p b k = record {
  blocks = k.blocks;
  in_range = k.in_range;
  in_transit = k.in_transit;
  finished = k.finished;
}

-- The payload brings the whole block behind its 8 leading bytes, or all but a last zero byte.
abbrev pub Brings : ℕ → ℕ → Bytes → Piece → Type 0
Brings block offset payload p =
    (offset < p.actual_piece_size)
    × (smaller block (p.actual_piece_size - offset) ≤ length (drop 8 (payload ++ 0 ∷ [])))

copied_lem :
    (block offset : ℕ) (payload : Bytes) (p : Piece)
    → Brings block offset payload p
    → (b : Bytes) × (copied block offset payload p ≡ ok (record p { buffer = b }))
unfolding copied
copied_lem block offset payload p (h, k) =
    let size = smaller block (p.actual_piece_size - offset) in
    let text = drop 8 (payload ++ 0 ∷ []) in
    (
      take offset p.buffer ++ take size text ++ drop (offset + size) p.buffer,
      rw (ltb-false (length text) size k) refl,
    )

write_block_lem :
    (block offset : ℕ) (payload : Bytes) (p : Piece) (s : BlockState)
    → Brings block offset payload p
    → get_elem? p.states (offset / block) ≡ some s
    → (b : Bytes) × (write_block block offset payload p
        ≡ ok (mark_done (offset / block) (record p { buffer = b })))
unfolding write_block
write_block_lem block offset payload p s (h, k) e =
    let (b, c) = copied_lem block offset payload p (h, k) in
    (b, rw (leb-false p.actual_piece_size offset h, c) (rw e refl))

-- A block in transit that arrives with enough bytes: writeBlock returns, and the counters are
-- again the numbers of the blocks in transit and done.
pub write_block-Counted :
    (block offset : ℕ) (payload : Bytes) (p : Piece)
    → Brings block offset payload p
    → get_elem? p.states (offset / block) ≡ some requested
    → Counted p
    → (q : Piece) × (write_block block offset payload p ≡ ok q) × Counted q
write_block-Counted block offset payload p b h k =
    let (t, e) = write_block_lem block offset payload p requested b h in
    let q = record p { buffer = t } in
    (mark_done (offset / block) q, e, mark_done-Counted q (offset / block) (same_counts p t k) h)

-- A block that is done and arrives again is written and counted again: writeBlock returns, and a
-- counter is no longer the number of its blocks.
pub write_block_again :
    (block offset : ℕ) (payload : Bytes) (p : Piece)
    → Brings block offset payload p
    → get_elem? p.states (offset / block) ≡ some done
    → Counted p
    → (q : Piece) × (write_block block offset payload p ≡ ok q) × (¬ Counted q)
write_block_again block offset payload p b h k =
    let (t, e) = write_block_lem block offset payload p done b h in
    let q = record p { buffer = t } in
    (mark_done (offset / block) q, e, mark_done_again q (offset / block) (same_counts p t k) h)
