-- ===== src/Torrent/Protocol/Frames.antt =====
-- Each message that is built is its length, its type and its payload.
use cpp_experiments.Common.{
  ℕ, ◌+◌, ◌-◌, ◌%◌, ◌^◌, ◌<◌, ◌≡◌, refl, ap, sym, ◌∙◌, Bool, [], ◌∷◌, ◌++◌, append_assoc,
  append-nil, arith, if◌then◌else◌, length, length-append, replicate,
}
use cpp_experiments.Common.Fault.{ok, ◌>>=◌}
use cpp_experiments.Common.Bytes.{Bytes, take_at}
use cpp_experiments.Common.Words.{be_bytes, length-be_bytes}
use cpp_experiments.Torrent.Protocol.{
  MsgType, have, bitfield, request, piece, cancel, port, msg_id, write_at, build_message_helper,
  build_simple, build_have, build_bit_field, build_request, build_piece, build_port,
}
use cpp_experiments.Torrent.Protocol.Writing.{
  frame, head, length-head, write_next, build_message_helper-head, full,
}

-- A payload that fills the rest of the buffer.
write_at-payload :
    (n size : ℕ) (id : MsgType) (payload : Bytes)
    → length payload ≡ n
    → write_at 5 payload (head size id ++ replicate n 0) ≡ ok (head size id ++ payload)
write_at-payload n size id payload h =
    write_next 5 payload (head size id) n 0 (sym (length-head size id)) (omega (arith, h))
    ∙ ap ok (full (head size id ++ payload))

frame_of :
    (size : ℕ) (id : MsgType) (payload : Bytes)
    → size ≡ length payload + 1
    → head size id ++ payload ≡ frame id payload
frame_of size id payload h =
    append_assoc (be_bytes 4 size) (msg_id id ∷ []) payload
    ∙ ap (λ n. be_bytes 4 n ++ (msg_id id ∷ payload)) h

-- A helper's buffer with a payload written into it.
with_payload :
    (total n size : ℕ) (id : MsgType) (payload : Bytes)
    → total ≡ 5 + n
    → length payload ≡ n
    → size ≡ n + 1
    → (build_message_helper total size id >>= λ b. write_at 5 payload b) ≡ ok (frame id payload)
with_payload total n size id payload e h k =
    ap (λ r. r >>= λ b. write_at 5 payload b) (build_message_helper-head total n size id e)
    ∙ write_at-payload n size id payload h
    ∙ ap ok (frame_of size id payload (omega (arith, h, k)))

pub build_simple-frame : (id : MsgType) → build_simple id ≡ ok (frame id [])
unfolding build_simple
build_simple-frame id =
    build_message_helper-head 5 0 1 id refl
    ∙ ap ok (full (head 1 id) ∙ sym (append-nil (head 1 id)) ∙ frame_of 1 id [] refl)

pub build_have-frame : (i : ℕ) → build_have i ≡ ok (frame have (be_bytes 4 i))
unfolding build_have
build_have-frame i = with_payload 9 4 5 have (be_bytes 4 i) refl (length-be_bytes 4 i) refl

pub build_port-frame : (n : ℕ) → build_port n ≡ ok (frame port (be_bytes 2 n))
unfolding build_port
build_port-frame n = with_payload 7 2 3 port (be_bytes 2 n) refl (length-be_bytes 2 n) refl

pub build_bit_field-frame :
    (bits : Bytes) → length bits + 5 < 2 ^ 32 → build_bit_field bits ≡ ok (frame bitfield bits)
unfolding build_bit_field
build_bit_field-frame bits h =
    rw (size, total, before, take_at (length bits) bits bits [] refl (sym (append-nil bits)))
      (with_payload (length bits + 1 + 4) (length bits) (length bits + 1) bitfield bits
        (omega arith) refl refl)
  where
    size : (length bits + 1) % 2 ^ 32 ≡ length bits + 1
    size = omega (arith, h)

    total : (length bits + 1 + 4) % 2 ^ 32 ≡ length bits + 1 + 4
    total = omega (arith, h)

    before : (length bits + 1 + (2 ^ 32 - 1)) % 2 ^ 32 ≡ length bits
    before = omega (arith, h)

abbrev with_index : ℕ → MsgType → ℕ → Bytes
with_index size id i = head size id ++ be_bytes 4 i

-- A payload of two numbers and a text, written one after the other.
with_three :
    (total n size : ℕ) (id : MsgType) (i b : ℕ) (text : Bytes)
    → total ≡ 5 + (8 + n)
    → length text ≡ n
    → size ≡ 9 + n
    → (build_message_helper total size id >>= λ r. write_at 5 (be_bytes 4 i) r >>= λ s.
        write_at 9 (be_bytes 4 b) s >>= λ t. write_at 13 text t)
      ≡ ok (frame id (be_bytes 4 i ++ (be_bytes 4 b ++ text)))
with_three total n size id i b text e h k =
    ap
      (λ r. r >>= λ u. write_at 5 (be_bytes 4 i) u >>= λ s.
        write_at 9 (be_bytes 4 b) s >>= λ t. write_at 13 text t)
      (build_message_helper-head total (8 + n) size id e)
    ∙ ap (λ r. r >>= λ s. write_at 9 (be_bytes 4 b) s >>= λ t. write_at 13 text t)
        (write_next 5 (be_bytes 4 i) (head size id) (8 + n) (4 + n) (sym (length-head size id))
          (omega (arith, length-be_bytes 4 i)))
    ∙ ap (λ r. r >>= λ t. write_at 13 text t)
        (write_next 9 (be_bytes 4 b) (with_index size id i) (4 + n) n (omega (arith, size_of_index))
          (omega (arith, length-be_bytes 4 b)))
    ∙ write_next 13 text (with_index size id i ++ be_bytes 4 b) n 0
        (omega (
          arith,
          size_of_index,
          length-append (with_index size id i) (be_bytes 4 b),
          length-be_bytes 4 b,
        ))
        (omega (arith, h))
    ∙ ap ok (
        full ((with_index size id i ++ be_bytes 4 b) ++ text)
        ∙ append_assoc (with_index size id i) (be_bytes 4 b) text
        ∙ append_assoc (head size id) (be_bytes 4 i) (be_bytes 4 b ++ text)
        ∙ frame_of size id (be_bytes 4 i ++ (be_bytes 4 b ++ text)) whole)
  where
    size_of_index : length (head size id ++ be_bytes 4 i) ≡ 9
    size_of_index = omega (
      arith,
      length-append (head size id) (be_bytes 4 i),
      length-head size id,
      length-be_bytes 4 i,
    )

    whole : size ≡ length (be_bytes 4 i ++ (be_bytes 4 b ++ text)) + 1
    whole = omega (
      arith,
      h,
      k,
      length-append (be_bytes 4 i) (be_bytes 4 b ++ text),
      length-append (be_bytes 4 b) text,
      length-be_bytes 4 i,
      length-be_bytes 4 b,
    )

pub build_request-frame :
    (i b l : ℕ) (c : Bool)
    → build_request i b l c
      ≡ ok (frame (if c then cancel else request) (be_bytes 4 i ++ (be_bytes 4 b ++ be_bytes 4 l)))
unfolding build_request
build_request-frame i b l c =
    with_three 17 4 13 (if c then cancel else request) i b (be_bytes 4 l) refl (length-be_bytes 4 l)
      refl

pub build_piece-frame :
    (i b : ℕ) (block : Bytes)
    → length block + 13 < 2 ^ 32
    → build_piece i b block ≡ ok (frame piece (be_bytes 4 i ++ (be_bytes 4 b ++ block)))
unfolding build_piece
build_piece-frame i b block h =
    rw (size, total, with_type, take_at (length block) block block [] refl (sym (append-nil block)))
      (with_three (length block + 13) (length block) (length block + 9) piece i b block
        (omega arith) refl (omega arith))
  where
    size : length block % 2 ^ 32 ≡ length block
    size = omega (arith, h)

    total : (length block + 13) % 2 ^ 32 ≡ length block + 13
    total = omega (arith, h)

    with_type : (length block + 9) % 2 ^ 32 ≡ length block + 9
    with_type = omega (arith, h)
