-- ===== src/Torrent/Pieces/Total.antt =====
-- getPendingBlocks returns, and keeps the counters of every piece right.
use cpp_experiments.Common.{
  ℕ, zero, suc, ◌+◌, ◌≤◌, ◌<◌, ◌≡◌, refl, sym, ◌∙◌, subst, Bool, true, false, Option, none, some,
  List, [], ◌∷◌, ◌++◌, arith, ltb, if◌then◌else◌, length, get_elem?, length-append, length-set,
  get_elem?-set_ne,
}
use cpp_experiments.Common.Fault.{Run, ok, fault, undefined, ◌>>=◌, or_fault}
use cpp_experiments.Torrent.Pieces.{
  Piece, BlockState, pending, requested, done, request_block_num, mark_requested,
}
use cpp_experiments.Torrent.Pieces.Counts.{Counted, mark_requested-Counted}
use cpp_experiments.Torrent.Pieces.Pending.{Request, request_of, one_block, request_blocks}

-- The run returns, and the predicate holds of what it returns.
abbrev pub Returns : {A : Type 0} → (A → Type 0) → Run A → Type 0
Returns P (ok a) = P a
Returns P (fault e) = ⊥

pub Returns-bind :
    {A B : Type 0} (P : A → Type 0) (Q : B → Type 0) (r : Run A) (f : A → Run B)
    → Returns P r
    → ((a : A) → P a → Returns Q (f a))
    → Returns Q (r >>= f)
Returns-bind P Q (ok a) f h k = k a h
Returns-bind P Q (fault e) f h k = absurd h

Returns-map :
    {A : Type 0} (P Q : A → Type 0) (r : Run A) → ((a : A) → P a → Q a) → Returns P r → Returns Q r
Returns-map P Q (ok a) f h = f a h
Returns-map P Q (fault e) f h = h

pub Returns-if :
    {A : Type 0} (P : A → Type 0) (b : Bool) (r s : Run A)
    → (b ≡ true → Returns P r)
    → (b ≡ false → Returns P s)
    → Returns P (if b then r else s)
Returns-if P true r s h k = h refl
Returns-if P false r s h k = k refl

Returns-or_fault :
    {A : Type 0} (o : Option A) (x : A)
    → o ≡ some x
    → Returns (λ s. o ≡ some s) (or_fault o undefined)
Returns-or_fault none x h = cc
Returns-or_fault (some y) x h = refl

in_range : {A : Type 0} (n : ℕ) (xs : List A) → n < length xs → (x : A) × (get_elem? xs n ≡ some x)
in_range n [] h = absurd (omega arith)
in_range zero (x ∷ xs) h = (x, refl)
in_range (suc n) (x ∷ xs) h = in_range n xs (omega arith)

-- Every block from `n` on is pending.
abbrev pub PendingFrom : ℕ → Piece → Type 0
PendingFrom n p = (i : ℕ) → n ≤ i → i < length p.states → get_elem? p.states i ≡ some pending

-- What the loop over the blocks leaves, the number of blocks being kept.
abbrev pub Asked : ℕ → Piece → List Request × Piece → Type 0
Asked count p r = (length r.0 ≤ count) × Counted r.1 × (length r.1.states ≡ length p.states)

requests :
    (block count idx n : ℕ) (p : Piece) (rs : List Request)
    → length rs < count
    → Counted p
    → get_elem? p.states n ≡ some pending
    → Returns
        (λ r. Asked count p r × (r.1 ≡ mark_requested n p))
        (request_block_num block n p >>= λ r. ok (rs ++ request_of block idx n r.0 ∷ [], r.1))
unfolding request_block_num
requests block count idx n p rs h k e =
    let size = if ltb (n + 1) p.actual_num_blocks then block else p.last_block_size in
    rw e (
      (
        omega (arith, length-append rs (request_of block idx n size ∷ [])),
        mark_requested-Counted p n k e,
        length-set p.states n requested,
      ),
      refl,
    )

module _ (block count idx : ℕ) where
  one-true :
      (n : ℕ) (s : BlockState) (p : Piece) (rs : List Request)
      → length rs < count
      → Counted p
      → get_elem? p.states n ≡ some s
      → Returns (Asked count p) (one_block true block idx n s p rs)
  unfolding one_block
  one-true n pending p rs h k e =
      Returns-map (λ r. Asked count p r × (r.1 ≡ mark_requested n p)) (Asked count p)
        (request_block_num block n p >>= λ r. ok (rs ++ request_of block idx n r.0 ∷ [], r.1))
        (λ r (a, b). a) (requests block count idx n p rs h k e)
  one-true n requested p rs h k e = (omega arith, k, refl)
  one-true n done p rs h k e = (omega arith, k, refl)

  pub true-Asked :
      (left n : ℕ) (p : Piece) (rs : List Request)
      → length rs ≤ count
      → Counted p
      → n + left ≤ length p.states
      → Returns (Asked count p) (request_blocks true block count idx left n p rs)
  unfolding request_blocks
  true-Asked zero n p rs h k b = (h, k, refl)
  true-Asked (suc left) n p rs h k b =
      let ask : BlockState → Run (List Request × Piece) = λ s. one_block true block idx n s p rs in
      let further : List Request × Piece → Run (List Request × Piece) =
        λ r. request_blocks true block count idx left (n + 1) r.1 r.0 in
      let (x, e) = in_range n p.states (omega arith) in
      Returns-if (Asked count p) (ltb (length rs) count)
        (or_fault (get_elem? p.states n) undefined >>= λ s. ask s >>= further) (ok (rs, p))
        (λ l.
          Returns-bind (λ s. get_elem? p.states n ≡ some s) (Asked count p)
            (or_fault (get_elem? p.states n) undefined) (λ s. ask s >>= further)
            (Returns-or_fault (get_elem? p.states n) x e)
            (λ s f.
              Returns-bind (Asked count p) (Asked count p) (ask s) further
                (one-true n s p rs (ground arith) k f)
                (λ r (u, v, w).
                  Returns-map (Asked count r.1) (Asked count p) (further r)
                    (λ t (u', v', w'). (u', v', w' ∙ w))
                    (true-Asked left (n + 1) r.1 r.0 u v (omega arith)))))
        (λ l. (h, k, refl))

  still-pending : (n : ℕ) (p : Piece) → PendingFrom n p → PendingFrom (n + 1) (mark_requested n p)
  still-pending n p f i h b =
      get_elem?-set_ne p.states {i = n} {j = i} requested (λ e. omega arith)
      ∙ f i (omega arith) (omega (arith, length-set p.states n requested))

  pub false-Asked :
      (left n : ℕ) (p : Piece) (rs : List Request)
      → length rs ≤ count
      → Counted p
      → n + left ≤ length p.states
      → PendingFrom n p
      → Returns (Asked count p) (request_blocks false block count idx left n p rs)
  unfolding request_blocks one_block
  false-Asked zero n p rs h k b f = (h, k, refl)
  false-Asked (suc left) n p rs h k b f =
      let ask : Run (List Request × Piece) =
        request_block_num block n p >>= λ r. ok (rs ++ request_of block idx n r.0 ∷ [], r.1) in
      let further : List Request × Piece → Run (List Request × Piece) =
        λ r. request_blocks false block count idx left (n + 1) r.1 r.0 in
      let e = f n (omega arith) (omega arith) in
      Returns-if (Asked count p) (ltb (length rs) count)
        (or_fault (get_elem? p.states n) undefined >>= λ s. ask >>= further) (ok (rs, p))
        (λ l.
          Returns-bind (λ s. get_elem? p.states n ≡ some s) (Asked count p)
            (or_fault (get_elem? p.states n) undefined) (λ s. ask >>= further)
            (Returns-or_fault (get_elem? p.states n) pending e)
            (λ s _.
              Returns-bind (λ r. Asked count p r × (r.1 ≡ mark_requested n p)) (Asked count p) ask
                further (requests block count idx n p rs (ground arith) k e)
                (λ r ((u, v, w), same).
                  Returns-map (Asked count r.1) (Asked count p) (further r)
                    (λ t (u', v', w'). (u', v', w' ∙ w))
                    (false-Asked left (n + 1) r.1 r.0 u v (omega arith)
                      (subst (PendingFrom (n + 1)) (sym same) (still-pending n p f))))))
        (λ l. (h, k, refl))
