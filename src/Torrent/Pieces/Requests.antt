-- ===== src/Torrent/Pieces/Requests.antt =====
-- getPendingBlocks as a whole, where the counters of the pieces in transit are right.
use cpp_experiments.Common.{
  ℕ, zero, suc, ◌≤◌, ◌<◌, ◌≡◌, refl, true, false, Bool-cases, inl, inr, some, List, [], ◌∷◌, arith,
  ltb, ◌==◌, if◌then◌else◌, length, get_elem?, replicate, length-replicate,
}
use cpp_experiments.Common.Fault.{Run, ok, ◌>>=◌}
use cpp_experiments.Torrent.Pieces.{
  Piece, PieceManager, pending, new_piece, num_blocks_of, piece_size_of, has, put_piece,
}
use cpp_experiments.Torrent.Pieces.Counts.{Counted}
use cpp_experiments.Torrent.Pieces.Steps.{new_piece-Counted}
use cpp_experiments.Torrent.Pieces.Pending.{
  Request, blocks_of_piece, from_partial, from_peer, get_pending_blocks, is_new, with_piece,
}
use cpp_experiments.Torrent.Pieces.Total.{
  Returns, Returns-bind, Returns-if, PendingFrom, Asked, true-Asked, false-Asked,
}

abbrev pub AllCounted : List (ℕ × Piece) → Type 0
AllCounted [] = Unit {0}
AllCounted ((_, p) ∷ ps) = Counted p × AllCounted ps

put_piece-AllCounted :
    (idx : ℕ) (p : Piece) (ps : List (ℕ × Piece))
    → Counted p
    → AllCounted ps
    → AllCounted (put_piece idx p ps)
unfolding put_piece
put_piece-AllCounted idx p [] h k = (h, k)
put_piece-AllCounted idx p ((i, q) ∷ ps) h (c, k) = elim (Bool-cases (i == idx)) [
  | inl e ↦ rw e (h, k)
  | inr e ↦ rw e (c, put_piece-AllCounted idx p ps h k)
]

get-replicate : (n i : ℕ) → i < n → get_elem? (replicate n pending) i ≡ some pending
get-replicate zero i h = absurd (omega arith)
get-replicate (suc n) zero h = refl
get-replicate (suc n) (suc i) h = get-replicate n i (omega arith)

new_piece-PendingFrom : (o : PieceManager) (idx : ℕ) → PendingFrom 0 (new_piece o idx)
unfolding new_piece
new_piece-PendingFrom o idx i h k =
    let n = num_blocks_of (piece_size_of o idx) o.block_size in
    get-replicate n i (omega (arith, length-replicate n pending))

abbrev PartialAsked : ℕ → List Request × List (ℕ × Piece) → Type 0
PartialAsked count r = (length r.0 ≤ count) × AllCounted r.1

from_partial-PartialAsked :
    (block count : ℕ) (peer : List ℕ) (ps : List (ℕ × Piece)) (rs : List Request)
    → length rs ≤ count
    → AllCounted ps
    → Returns (PartialAsked count) (from_partial block count peer ps rs)
unfolding from_partial
from_partial-PartialAsked block count peer [] rs h k = (h, k)
from_partial-PartialAsked block count peer ((idx, p) ∷ ps) rs h (c, k) =
    let kept : ℕ × Piece → List Request × List (ℕ × Piece) → Run (List Request × List (ℕ × Piece)) =
      λ q t. ok (t.0, q ∷ t.1) in
    let ask : Run (List Request × Piece) = blocks_of_piece true block count idx p rs in
    let rest : List Request → Run (List Request × List (ℕ × Piece)) =
      λ rs. from_partial block count peer ps rs in
    let asked = ask >>= λ r. rest r.0 >>= kept (idx, r.1) in
    let skipped = rest rs >>= kept (idx, p) in
    Returns-if (PartialAsked count) (ltb (length rs) count)
      (if has idx peer then asked else skipped) (ok (rs, (idx, p) ∷ ps))
      (λ _.
        Returns-if (PartialAsked count) (has idx peer) asked skipped
          (λ _.
            Returns-bind (Asked count p) (PartialAsked count) ask
              (λ r. rest r.0 >>= kept (idx, r.1))
              (true-Asked block count idx p.actual_num_blocks 0 p rs h c (omega (arith, c.blocks)))
              (λ r (u, v, w).
                Returns-bind (PartialAsked count) (PartialAsked count) (rest r.0) (kept (idx, r.1))
                  (from_partial-PartialAsked block count peer ps r.0 u k)
                  (λ t (a, b). (a, (v, b)))))
          (λ _.
            Returns-bind (PartialAsked count) (PartialAsked count) (rest rs) (kept (idx, p))
              (from_partial-PartialAsked block count peer ps rs h k) (λ t (a, b). (a, (c, b)))))
      (λ _. (h, (c, k)))

abbrev pub PeerAsked : ℕ → List Request × PieceManager → Type 0
PeerAsked count r = (length r.0 ≤ count) × AllCounted r.1.partial_pieces

from_peer-PeerAsked :
    (count : ℕ) (peer : List ℕ) (m : PieceManager) (rs : List Request)
    → length rs ≤ count
    → AllCounted m.partial_pieces
    → Returns (PeerAsked count) (from_peer count peer m rs)
unfolding from_peer
from_peer-PeerAsked count [] m rs h k = (h, k)
from_peer-PeerAsked count (idx ∷ peer) m rs h k =
    let p = new_piece m idx in
    let ask : Run (List Request × Piece) = blocks_of_piece false m.block_size count idx p rs in
    let further : List Request × Piece → Run (List Request × PieceManager) =
      λ r. from_peer count peer (with_piece idx r.1 m) r.0 in
    let c = new_piece-Counted m idx in
    Returns-if (PeerAsked count) (ltb (length rs) count)
      (if is_new idx m then ask >>= further else from_peer count peer m rs) (ok (rs, m))
      (λ _.
        Returns-if (PeerAsked count) (is_new idx m) (ask >>= further) (from_peer count peer m rs)
          (λ _.
            Returns-bind (Asked count p) (PeerAsked count) ask further
              (false-Asked m.block_size count idx p.actual_num_blocks 0 p rs h c
                (omega (arith, c.blocks)) (new_piece-PendingFrom m idx))
              (λ r (u, v, w).
                from_peer-PeerAsked count peer (with_piece idx r.1 m) r.0 u
                  (put_piece-AllCounted idx r.1 m.partial_pieces v k)))
          (λ _. from_peer-PeerAsked count peer m rs h k))
      (λ _. (h, k))

-- Where the counters of every piece in transit are the numbers of its blocks in transit and done,
-- getPendingBlocks returns, asks for at most as many blocks as it is told, and leaves the counters
-- of every piece in transit right, whatever the peer has.
pub get_pending_blocks-PeerAsked :
    (peer : List ℕ) (count : ℕ) (m : PieceManager)
    → AllCounted m.partial_pieces
    → Returns (PeerAsked count) (get_pending_blocks peer count m)
unfolding get_pending_blocks
get_pending_blocks-PeerAsked peer count m k =
    Returns-bind (PartialAsked count) (PeerAsked count)
      (from_partial m.block_size count peer m.partial_pieces [])
      (λ r. from_peer count peer (record m { partial_pieces = r.1 }) r.0)
      (from_partial-PartialAsked m.block_size count peer m.partial_pieces [] (omega arith) k)
      (λ r (u, v). from_peer-PeerAsked count peer (record m { partial_pieces = r.1 }) r.0 u v)
