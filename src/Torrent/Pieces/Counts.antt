-- ===== src/Torrent/Pieces/Counts.antt =====
-- The counters of a piece against the states of its blocks.
use cpp_experiments.Common.{
  ℕ, zero, suc, ◌+◌, ◌^◌, ◌<◌, ◌≤◌, ◌≡◌, ◌∙◌, some, List, [], ◌∷◌, arith, length, get_elem?, set,
  length-set,
}
use cpp_experiments.Torrent.Pieces.{
  Piece, BlockState, pending, requested, done, mark_requested, mark_done, mark_pending,
}

abbrev pub is_requested : BlockState → ℕ
is_requested requested = 1
is_requested _ = 0

abbrev pub is_done : BlockState → ℕ
is_done done = 1
is_done _ = 0

unfoldable pub count : (BlockState → ℕ) → List BlockState → ℕ
count f [] = 0
count f (s ∷ ss) = f s + count f ss

-- The counters agree with the states, one for each block.
pub record Counted (p : Piece) : Type 0 where
  pub blocks : length p.states ≡ p.actual_num_blocks
  pub in_range : length p.states < 2 ^ 16
  pub in_transit : p.requested_blocks ≡ count is_requested p.states
  pub finished : p.completed_blocks ≡ count is_done p.states

count-set :
    (f : BlockState → ℕ) (ss : List BlockState) (i : ℕ) (s v : BlockState)
    → get_elem? ss i ≡ some s
    → count f (set ss i v) + f s ≡ count f ss + f v
unfolding count
count-set f [] i s v h = cc
count-set f (x ∷ ss) zero s v h = ground (arith, h)
count-set f (x ∷ ss) (suc i) s v h = omega (arith, count-set f ss i s v h)

count_le :
    (f : BlockState → ℕ) (ss : List BlockState)
    → ((s : BlockState) → f s ≤ 1)
    → count f ss ≤ length ss
unfolding count
count_le f [] h = omega arith
count_le f (x ∷ ss) h = omega (arith, count_le f ss h, h x)

is_requested_le : (s : BlockState) → is_requested s ≤ 1
is_requested_le pending = omega arith
is_requested_le requested = omega arith
is_requested_le done = omega arith

is_done_le : (s : BlockState) → is_done s ≤ 1
is_done_le pending = omega arith
is_done_le requested = omega arith
is_done_le done = omega arith

module _ (p : Piece) (i : ℕ) (k : Counted p) where
  pub mark_requested-Counted : get_elem? p.states i ≡ some pending → Counted (mark_requested i p)
  mark_requested-Counted h =
      let a = count-set is_requested p.states i pending requested h in
      let b = count-set is_done p.states i pending requested h in
      let c = count_le is_requested (set p.states i requested) is_requested_le in
      let n = length-set p.states i requested in
      record {
        blocks = n ∙ k.blocks;
        in_range = omega (arith, k.in_range);
        in_transit = omega (arith, k.in_transit, k.in_range);
        finished = omega (arith, k.finished);
      }

  pub mark_done-Counted : get_elem? p.states i ≡ some requested → Counted (mark_done i p)
  mark_done-Counted h =
      let a = count-set is_requested p.states i requested done h in
      let b = count-set is_done p.states i requested done h in
      let c = count_le is_done (set p.states i done) is_done_le in
      let d = count_le is_requested p.states is_requested_le in
      let n = length-set p.states i done in
      record {
        blocks = n ∙ k.blocks;
        in_range = omega (arith, k.in_range);
        in_transit = omega (arith, k.in_transit, k.in_range);
        finished = omega (arith, k.finished, k.in_range);
      }

  pub mark_pending-Counted : get_elem? p.states i ≡ some requested → Counted (mark_pending i p)
  mark_pending-Counted h =
      let a = count-set is_requested p.states i requested pending h in
      let b = count-set is_done p.states i requested pending h in
      let d = count_le is_requested p.states is_requested_le in
      let n = length-set p.states i pending in
      record {
        blocks = n ∙ k.blocks;
        in_range = omega (arith, k.in_range);
        in_transit = omega (arith, k.in_transit, k.in_range);
        finished = omega (arith, k.finished);
      }

  pub mark_done_again : get_elem? p.states i ≡ some done → ¬ Counted (mark_done i p)
  mark_done_again h q =
      let b = count-set is_done p.states i done done h in
      let d = count_le is_done p.states is_done_le in
      omega (arith, k.finished, k.in_range, q.finished)
