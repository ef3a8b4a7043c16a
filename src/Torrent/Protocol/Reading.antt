-- ===== src/Torrent/Protocol/Reading.antt =====
-- A message in the receive buffer is found and read as what it was built from.
use cpp_experiments.Common.{
  ℕ, ◌+◌, ◌%◌, ◌^◌, ◌≤◌, ◌<◌, ◌≡◌, refl, ap, sym, ◌∙◌, Bool, true, false, ◌&&◌, [], ◌∷◌, ◌++◌,
  append_assoc, arith, ltb, leb, ◌==◌, length, length-append, take, drop,
}
use cpp_experiments.Common.Fault.{Run, ok, ◌>>=◌}
use cpp_experiments.Common.Bytes.{Bytes, ◌=ᵇ◌, take_at, drop_at}
use cpp_experiments.Common.Words.{be_bytes, length-be_bytes, be_value_from, be_value-bytes}
use cpp_experiments.Torrent.Protocol.{
  MsgType, choke, unchoke, interested, not_interested, have, bitfield, request, piece, cancel, port,
  keep_alive, unknown, msg_id, msg_type, build_have, build_bit_field, build_request, build_piece,
  build_port, is_complete_message, parse_message, typed,
}
use cpp_experiments.Torrent.Protocol.Writing.{frame, at_most, not_less}
use cpp_experiments.Torrent.Protocol.Frames.{
  build_have-frame, build_bit_field-frame, build_request-frame, build_piece-frame, build_port-frame,
}

-- The types that go over the wire.
abbrev pub IsWire : MsgType → Type 0
IsWire id = msg_id id ≤ 9

msg_type-msg_id : (id : MsgType) → IsWire id → msg_type (msg_id id) ≡ id
unfolding msg_type
msg_type-msg_id choke h = refl
msg_type-msg_id unchoke h = refl
msg_type-msg_id interested h = refl
msg_type-msg_id not_interested h = refl
msg_type-msg_id have h = refl
msg_type-msg_id bitfield h = refl
msg_type-msg_id request h = refl
msg_type-msg_id piece h = refl
msg_type-msg_id cancel h = refl
msg_type-msg_id port h = refl
msg_type-msg_id keep_alive h = ground arith
msg_type-msg_id unknown h = ground arith

differs : (n : ℕ) (b : Bool) → 4 < n → ((n == 4) && b) ≡ false
differs n b h = ground arith

module _ (id : MsgType) (payload : Bytes) (fits : length payload + 5 < 2 ^ 32) where
  pub length-frame : length (frame id payload) ≡ length payload + 1 + 4
  length-frame = omega (
    arith,
    length-append (be_bytes 4 (length payload + 1)) (msg_id id ∷ payload),
    length-be_bytes 4 (length payload + 1),
  )

  pub take-frame :
      (rest : Bytes) → take (length payload + 1 + 4) (frame id payload ++ rest) ≡ frame id payload
  take-frame rest =
      take_at (length payload + 1 + 4) (frame id payload ++ rest) (frame id payload) rest
        (sym length-frame) refl

  pub drop-frame : (rest : Bytes) → drop (length payload + 1 + 4) (frame id payload ++ rest) ≡ rest
  drop-frame rest =
      drop_at (length payload + 1 + 4) (frame id payload ++ rest) (frame id payload) rest
        (sym length-frame) refl

  length_of :
      (rest : Bytes) → be_value_from 0 (take 4 (frame id payload ++ rest)) ≡ length payload + 1
  length_of rest =
      ap (be_value_from 0) (
        take_at 4 (frame id payload ++ rest) (be_bytes 4 (length payload + 1))
          (msg_id id ∷ payload ++ rest) (sym (length-be_bytes 4 (length payload + 1)))
          (append_assoc (be_bytes 4 (length payload + 1)) (msg_id id ∷ payload) rest))
      ∙ be_value-bytes 4 (length payload + 1) (omega (arith, fits))

  -- A whole message is seen as such, whatever follows it.
  pub is_complete_message-frame :
      (rest : Bytes) → is_complete_message (frame id payload ++ rest) ≡ length payload + 1
  unfolding is_complete_message
  is_complete_message-frame rest = rw (length_of rest, whole, there) refl
    where
      size : length (frame id payload ++ rest) ≡ length payload + 5 + length rest
      size = omega (arith, length-append (frame id payload) rest, length-frame)

      whole : ltb (length (frame id payload ++ rest)) 4 ≡ false
      whole = not_less (length (frame id payload ++ rest)) 4 (omega (arith, size))

      there : leb ((length payload + 1 + 4) % 2 ^ 32) (length (frame id payload ++ rest)) ≡ true
      there =
          at_most ((length payload + 1 + 4) % 2 ^ 32) (length (frame id payload ++ rest))
            (omega (arith, size, fits))

  -- The message reads as what it was built from.
  pub parse_message-frame : IsWire id → parse_message (frame id payload) ≡ ok (id, payload)
  unfolding parse_message
  parse_message-frame wire = rw (long, no_literal, behind) (typed-wire wire)
    where
      long : ltb (length (frame id payload)) 4 ≡ false
      long = not_less (length (frame id payload)) 4 (omega (arith, length-frame))

      no_literal : ((length (frame id payload) == 4) && (frame id payload =ᵇ [])) ≡ false
      no_literal =
          differs (length (frame id payload)) (frame id payload =ᵇ []) (omega (arith, length-frame))

      behind : drop 4 (frame id payload) ≡ msg_id id ∷ payload
      behind =
          drop_at 4 (frame id payload) (be_bytes 4 (length payload + 1)) (msg_id id ∷ payload)
            (sym (length-be_bytes 4 (length payload + 1))) refl

      typed-wire : IsWire id → typed (msg_id id ∷ payload) ≡ ok (id, payload)
      typed-wire h = rw (not_less 9 (msg_id id) h, msg_type-msg_id id h) refl

-- What a message that was built reads as.
reads :
    (id : MsgType) (payload : Bytes) (built : Run Bytes)
    → built ≡ ok (frame id payload)
    → length payload + 5 < 2 ^ 32
    → IsWire id
    → (built >>= parse_message) ≡ ok (id, payload)
reads id payload built e fits wire =
    ap (λ r. r >>= parse_message) e ∙ parse_message-frame id payload fits wire

length-numbers : (i b : ℕ) (s : Bytes) → length (be_bytes 4 i ++ (be_bytes 4 b ++ s)) ≡ 8 + length s
length-numbers i b s = omega (
  arith,
  length-append (be_bytes 4 i) (be_bytes 4 b ++ s),
  length-append (be_bytes 4 b) s,
  length-be_bytes 4 i,
  length-be_bytes 4 b,
)

-- Every message with a payload that is built reads as its type and its payload, whose numbers stand
-- with the high byte first. A bit field and a block have less than 2 ^ 32 - 13 bytes.
pub parse_message-built :
    (i b l n : ℕ) (text : Bytes)
    → length text + 13 < 2 ^ 32
    → ((build_have i >>= parse_message) ≡ ok (have, be_bytes 4 i))
      × ((build_bit_field text >>= parse_message) ≡ ok (bitfield, text))
      × ((build_request i b l false >>= parse_message)
          ≡ ok (request, be_bytes 4 i ++ (be_bytes 4 b ++ be_bytes 4 l)))
      × ((build_request i b l true >>= parse_message)
          ≡ ok (cancel, be_bytes 4 i ++ (be_bytes 4 b ++ be_bytes 4 l)))
      × ((build_piece i b text >>= parse_message)
          ≡ ok (piece, be_bytes 4 i ++ (be_bytes 4 b ++ text)))
      × ((build_port n >>= parse_message) ≡ ok (port, be_bytes 2 n))
parse_message-built i b l n text h = (
  reads have (be_bytes 4 i) (build_have i) (build_have-frame i) (omega (arith, length-be_bytes 4 i))
      (omega arith),
  reads bitfield text (build_bit_field text) (build_bit_field-frame text (omega (arith, h)))
      (omega (arith, h)) (omega arith),
  reads request (be_bytes 4 i ++ (be_bytes 4 b ++ be_bytes 4 l)) (build_request i b l false)
      (build_request-frame i b l false)
      (omega (arith, length-numbers i b (be_bytes 4 l), length-be_bytes 4 l)) (omega arith),
  reads cancel (be_bytes 4 i ++ (be_bytes 4 b ++ be_bytes 4 l)) (build_request i b l true)
      (build_request-frame i b l true)
      (omega (arith, length-numbers i b (be_bytes 4 l), length-be_bytes 4 l)) (omega arith),
  reads piece (be_bytes 4 i ++ (be_bytes 4 b ++ text)) (build_piece i b text)
      (build_piece-frame i b text h) (omega (arith, length-numbers i b text, h)) (omega arith),
  reads port (be_bytes 2 n) (build_port n) (build_port-frame n) (omega (arith, length-be_bytes 2 n))
      (omega arith),
)
