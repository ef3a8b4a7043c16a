-- ===== src/Torrent/Peer/Stream.antt =====
-- The loop over the receive buffer takes the messages of a peer one after the other, and stops in
-- front of one that has not arrived whole.
use cpp_experiments.Common.{
  ℕ, zero, suc, ◌+◌, ◌-◌, ◌%◌, ◌^◌, ◌≤◌, ◌<◌, ◌≡◌, refl, ap, ◌∙◌, Bool, true, false, ◌&&◌, not,
  Option, none, some, List, [], ◌∷◌, ◌++◌, arith, ltb, leb, if◌then◌else◌, length, take, drop,
}
use cpp_experiments.Common.Fault.{Run, ok, ◌>>=◌}
use cpp_experiments.Common.Bytes.{Bytes, =ᵇ-refl}
use cpp_experiments.Common.Words.{be_value_from}
use cpp_experiments.Torrent.Protocol.{
  MsgType, unchoke, unknown, build_simple, build_keep_alive, is_complete_message, parse_message,
}
use cpp_experiments.Torrent.Protocol.Writing.{frame, not_less, at_most}
use cpp_experiments.Torrent.Protocol.Reading.{IsWire}
use cpp_experiments.Torrent.Peer.{
  Peer, Limits, handle, follow_up, ask_unchoke, on_message, one_message, process,
}

-- The bytes of messages.
unfoldable pub wire_of : List (MsgType × Bytes) → Bytes
wire_of [] = []
wire_of ((id, payload) ∷ ms) = frame id payload ++ wire_of ms

-- Messages of the ten types whose lengths have 32 bits.
abbrev pub IsSound : List (MsgType × Bytes) → Type 0
IsSound [] = Unit {0}
IsSound ((id, payload) ∷ ms) = IsWire id × (length payload + 5 < 2 ^ 32) × IsSound ms

-- The length 2 ^ 32 - 4 of a message: with its own four bytes it comes to zero.
abbrev pub wrapping : Bytes
wrapping = 255 ∷ 255 ∷ 255 ∷ 252 ∷ []

module _ (sha1 : Bytes → Bytes) (limits : Limits) where
  -- The messages in their order, until the peer is closed.
  unfoldable pub in_turn : List (MsgType × Bytes) → Bytes → Peer → Run (Option (Bytes × Peer))
  in_turn [] rest p = ok (some (rest, p))
  in_turn (m ∷ ms) rest p =
      let next = on_message sha1 limits m p >>= in_turn ms rest in
      if p.closed then ok (some (wire_of (m ∷ ms) ++ rest, p)) else next

  -- A round of the loop where the length of the message and what comes of it are known.
  process-round :
      (fuel n : ℕ) (buffer : Bytes) (next : Run (Bytes × Peer)) (p : Peer)
      → is_complete_message buffer ≡ n
      → 0 < n
      → one_message sha1 limits n buffer p ≡ next
      → process sha1 limits (suc fuel) buffer p ≡ (
          if p.closed
          then ok (some (buffer, p))
          else next >>= λ (rest, q). process sha1 limits fuel rest q)
  unfolding process
  process-round fuel n buffer next p whole some_bytes read =
      rw (whole, positive n some_bytes, read) (swapped _ _ p.closed)
    where
      positive : (k : ℕ) → 0 < k → ltb 0 k ≡ true
      positive k h = ground arith

      swapped :
          {A : Type 0} (x y : A) (b : Bool)
          → (if true && not b then x else y) ≡ (if b then y else x)
      swapped x y true = refl
      swapped x y false = refl

  -- The body of the loop where the message reads as `m`.
  one_message-read :
      (n width : ℕ) (buffer rest : Bytes) (m : MsgType × Bytes) (p : Peer)
      → (n + 4) % 2 ^ 32 ≡ width
      → parse_message (take width buffer) ≡ ok m
      → drop width buffer ≡ rest
      → one_message sha1 limits n buffer p ≡ (on_message sha1 limits m p >>= λ q. ok (rest, q))
  unfolding one_message
  one_message-read n width buffer rest m p wrapped read behind = rw (wrapped, read, behind) refl

  process-stop :
      (fuel : ℕ) (buffer : Bytes) (p : Peer)
      → is_complete_message buffer ≡ 0
      → process sha1 limits (suc fuel) buffer p ≡ ok (some (buffer, p))
  unfolding process
  process-stop fuel buffer p h = rw h refl

  length_known :
      (buffer : Bytes) (n : ℕ)
      → 4 ≤ length buffer
      → be_value_from 0 (take 4 buffer) ≡ n
      → (n + 4) % 2 ^ 32 ≤ length buffer
      → is_complete_message buffer ≡ n
  unfolding is_complete_message
  length_known buffer n h e k =
      rw (not_less (length buffer) 4 h, e, at_most ((n + 4) % 2 ^ 32) (length buffer) k) refl

  -- A keep-alive, which has the length zero, is never taken from the buffer: what follows it is not
  -- handled, however much arrives.
  pub process-keep_alive :
      (fuel : ℕ) (rest : Bytes) (p : Peer)
      → process sha1 limits (suc fuel) (build_keep_alive ++ rest) p
        ≡ ok (some (build_keep_alive ++ rest, p))
  unfolding be_value_from
  process-keep_alive fuel rest p = process-stop fuel (build_keep_alive ++ rest) p (no_length rest)
    where
      no_length : (s : Bytes) → is_complete_message (build_keep_alive ++ s) ≡ 0
      no_length s = length_known (build_keep_alive ++ s) 0 (omega arith) refl (omega arith)

  -- A choked peer that is being asked to unchoke us, and may be asked again.
  pub record IsWaiting (p : Peer) : Type 0 where
    pub not_closed : p.closed ≡ false
    pub is_choked : p.choked ≡ true
    pub patient : p.unchoke_attempts < limits.max_unchoke_attempts
    pub asked : build_simple unchoke ≡ ok p.send_buffer

  on_message-waiting : (p : Peer) → IsWaiting p → on_message sha1 limits (unknown, []) p ≡ ok p
  unfolding on_message handle follow_up ask_unchoke
  on_message-waiting p h =
      rw
        (
          h.is_choked,
          h.asked,
          patient p.unchoke_attempts limits.max_unchoke_attempts h.patient,
          =ᵇ-refl p.send_buffer,
        )
        refl
    where
      patient : (n m : ℕ) → n < m → leb m n ≡ false
      patient n m k = ground arith

  wrapping_whole : (rest : Bytes) → is_complete_message (wrapping ++ rest) ≡ 0xFFFFFFFC
  unfolding be_value_from
  wrapping_whole rest = length_known (wrapping ++ rest) 0xFFFFFFFC (omega arith) refl (omega arith)

  one_message-wrapping :
      (rest : Bytes) (p : Peer)
      → IsWaiting p
      → one_message sha1 limits 0xFFFFFFFC (wrapping ++ rest) p ≡ ok (wrapping ++ rest, p)
  unfolding parse_message
  one_message-wrapping rest p h =
      one_message-read 0xFFFFFFFC 0 (wrapping ++ rest) (wrapping ++ rest) (unknown, []) p refl refl
        refl
      ∙ ap (λ r. r >>= λ q. ok (wrapping ++ rest, q)) (on_message-waiting p h)

  runs_out :
      (fuel : ℕ) (rest : Bytes) (p : Peer)
      → IsWaiting p
      → process sha1 limits fuel (wrapping ++ rest) p ≡ ok none
  unfolding process
  runs_out zero rest p h = refl
  runs_out (suc fuel) rest p h =
      process-round fuel 0xFFFFFFFC (wrapping ++ rest) (ok (wrapping ++ rest, p)) p
        (wrapping_whole rest) (omega arith) (one_message-wrapping rest p h)
      ∙ ap
          (λ c.
            if c
            then ok (some (wrapping ++ rest, p))
            else process sha1 limits fuel (wrapping ++ rest) p)
          h.not_closed
      ∙ runs_out fuel rest p h

  -- Let a peer be choked and not closed, its send buffer the request to be unchoked, and attempts be
  -- left. If its receive buffer begins with the length 2 ^ 32 - 4, that
  -- counts as a whole message of this length; the body of the loop takes nothing from the buffer and
  -- leaves the peer as it is; and the loop never ends, whatever the number of its rounds.
  pub process-wrapping :
      (rest : Bytes) (p : Peer)
      → IsWaiting p
      → (is_complete_message (wrapping ++ rest) ≡ 2 ^ 32 - 4)
        × (one_message sha1 limits (2 ^ 32 - 4) (wrapping ++ rest) p ≡ ok (wrapping ++ rest, p))
        × ((fuel : ℕ) → process sha1 limits fuel (wrapping ++ rest) p ≡ ok none)
  process-wrapping rest p h =
      (wrapping_whole rest, one_message-wrapping rest p h, (λ fuel. runs_out fuel rest p h))
