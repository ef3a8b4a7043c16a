-- ===== src/Torrent/Protocol/Writing.antt =====
-- What the buffers of the messages hold.
use cpp_experiments.Common.{
  ℕ, zero, suc, ◌+◌, ◌≤◌, ◌≡◌, refl, ap, sym, ◌∙◌, true, false, [], ◌∷◌, ◌++◌, append_assoc,
  append-nil, arith, ltb, leb, length, length-append, length-replicate, drop, replicate,
}
use cpp_experiments.Common.Fault.{ok, ◌>>=◌}
use cpp_experiments.Common.Bytes.{Bytes, take_at, drop_at}
use cpp_experiments.Common.Words.{be_bytes, length-be_bytes}
use cpp_experiments.Torrent.Protocol.{MsgType, msg_id, write_at, build_message_helper}

-- A message of a type with its payload, as it goes over the wire.
abbrev pub frame : MsgType → Bytes → Bytes
frame id payload = be_bytes 4 (length payload + 1) ++ (msg_id id ∷ payload)

pub at_most : (m n : ℕ) → m ≤ n → leb m n ≡ true
at_most m n h = ground arith

pub not_less : (m n : ℕ) → n ≤ m → ltb m n ≡ false
not_less m n h = ground arith

-- A write over zeros at a known place.
pub write_at-over :
    (pos : ℕ) (bytes buffer before zeros after : Bytes)
    → buffer ≡ before ++ (zeros ++ after)
    → pos ≡ length before
    → length bytes ≡ length zeros
    → write_at pos bytes buffer ≡ ok (before ++ (bytes ++ after))
unfolding write_at
write_at-over pos bytes buffer before zeros after shape h k =
    rw (shape, fits, take_at pos (before ++ (zeros ++ after)) before (zeros ++ after) h refl, rest)
      refl
  where
    fits : leb (pos + length bytes) (length (before ++ (zeros ++ after))) ≡ true
    fits =
        at_most (pos + length bytes) (length (before ++ (zeros ++ after)))
          (omega (arith, length-append before (zeros ++ after), length-append zeros after))

    rest : drop (pos + length bytes) (before ++ (zeros ++ after)) ≡ after
    rest =
        drop_at (pos + length bytes) (before ++ (zeros ++ after)) (before ++ zeros) after
          (omega (arith, length-append before zeros)) (sym (append_assoc before zeros after))

-- Zeros in front of zeros.
replicate-plus : (m n : ℕ) → replicate {A = ℕ} (m + n) 0 ≡ replicate m 0 ++ replicate n 0
replicate-plus zero n = rw (zero_plus n) refl
  where
    zero_plus : (k : ℕ) → 0 + k ≡ k
    zero_plus k = omega arith
replicate-plus (suc m) n = rw (suc_plus m n) (ap (◌∷◌ 0) (replicate-plus m n))
  where
    suc_plus : (j k : ℕ) → suc j + k ≡ suc (j + k)
    suc_plus j k = omega arith

-- The next bytes of a buffer that is zero from there on.
pub write_next :
    (pos : ℕ) (bytes before : Bytes) (total n : ℕ)
    → pos ≡ length before
    → total ≡ length bytes + n
    → write_at pos bytes (before ++ replicate total 0) ≡ ok ((before ++ bytes) ++ replicate n 0)
write_next pos bytes before total n h k =
    write_at-over pos bytes (before ++ replicate total 0) before (replicate (length bytes) 0)
      (replicate n 0)
      (ap (λ zeros. before ++ zeros) (ap (λ m. replicate m 0) k ∙ replicate-plus (length bytes) n))
      h (sym (length-replicate (length bytes) 0))
    ∙ ap ok (sym (append_assoc before bytes (replicate n 0)))

-- The length and the type of a message.
abbrev pub head : ℕ → MsgType → Bytes
head size id = be_bytes 4 size ++ msg_id id ∷ []

pub length-head : (size : ℕ) (id : MsgType) → length (head size id) ≡ 5
length-head size id =
    omega (arith, length-append (be_bytes 4 size) (msg_id id ∷ []), length-be_bytes 4 size)

-- The helper writes the length and the type before as many zeros as there is payload.
pub build_message_helper-head :
    (total n size : ℕ) (id : MsgType)
    → total ≡ 5 + n
    → build_message_helper total size id ≡ ok (head size id ++ replicate n 0)
unfolding build_message_helper
build_message_helper-head total n size id e =
    ap (λ r. r >>= write_at 4 (msg_id id ∷ []))
      (write_next 0 (be_bytes 4 size) [] total (1 + n) refl (omega (arith, length-be_bytes 4 size)))
    ∙ write_next 4 (msg_id id ∷ []) (be_bytes 4 size) (1 + n) n (sym (length-be_bytes 4 size)) refl

-- A buffer that is full.
pub full : (a : Bytes) → a ++ replicate 0 0 ≡ a
full a = append-nil a
