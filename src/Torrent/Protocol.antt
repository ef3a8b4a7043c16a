-- ===== src/Torrent/Protocol.antt =====
-- torrent/src/protocol.cpp and MsgType of torrent/include/common.hpp: the messages between peers.
-- The machine has the low byte first, so that bswap puts the high one first.
pub mod Writing
pub mod Frames
pub mod Reading
use cpp_experiments.Common.{
  ℕ, suc, ◌+◌, ◌-◌, ◌%◌, ◌^◌, Bool, true, false, ◌&&◌, [], ◌∷◌, ◌++◌, ltb, leb, ◌==◌, if◌then◌else◌,
  length, take, drop, replicate,
}
use cpp_experiments.Common.Fault.{Run, ok, fault, undefined, ◌>>=◌}
use cpp_experiments.Common.Bytes.{Bytes, codes, ◌=ᵇ◌}
use cpp_experiments.Common.Words.{le_bytes, be_bytes, be_value_from}

pub data MsgType : Type 0 where
  choke unchoke interested not_interested have bitfield request piece cancel port : MsgType
  keep_alive unknown : MsgType

abbrev pub msg_id : MsgType → ℕ
msg_id choke = 0
msg_id unchoke = 1
msg_id interested = 2
msg_id not_interested = 3
msg_id have = 4
msg_id bitfield = 5
msg_id request = 6
msg_id piece = 7
msg_id cancel = 8
msg_id port = 9
msg_id keep_alive = 99
msg_id unknown = 100

-- The cast from an id that is at most 9.
unfoldable pub msg_type : ℕ → MsgType
msg_type id =
    if id == 0
    then choke
    else if id == 1
    then unchoke
    else if id == 2
    then interested
    else if id == 3
    then not_interested
    else if id == 4
    then have
    else if id == 5
    then bitfield
    else if id == 6
    then request
    else if id == 7
    then piece
    else if id == 8
    then cancel
    else port

-- std::memcpy into a buffer.
unfoldable pub write_at : ℕ → Bytes → Bytes → Run Bytes
write_at pos bytes buffer =
    if leb (pos + length bytes) (length buffer)
    then ok (take pos buffer ++ (bytes ++ drop (pos + length bytes) buffer))
    else fault undefined

unfoldable pub build_message_helper : ℕ → ℕ → MsgType → Run Bytes
build_message_helper buf_size msg_size id = do
  buffer ← write_at 0 (be_bytes 4 msg_size) (replicate buf_size 0)
  write_at 4 (msg_id id ∷ []) buffer

-- buildInterested and the others without a payload
unfoldable pub build_simple : MsgType → Run Bytes
build_simple id = build_message_helper 5 1 id

abbrev pub build_keep_alive : Bytes
build_keep_alive = replicate 4 0

unfoldable pub build_have : ℕ → Run Bytes
build_have p_index = do
  buffer ← build_message_helper 9 5 have
  write_at 5 (be_bytes 4 p_index) buffer

unfoldable pub build_bit_field : Bytes → Run Bytes
build_bit_field bits =
    let msg_size = (length bits + 1) % 2 ^ 32 in
    build_message_helper ((msg_size + 4) % 2 ^ 32) msg_size bitfield >>= λ buffer.
    write_at 5 (take ((msg_size + (2 ^ 32 - 1)) % 2 ^ 32) bits) buffer

unfoldable pub build_request : ℕ → ℕ → ℕ → Bool → Run Bytes
build_request p_index p_begin p_length cancelled = do
  buffer ← build_message_helper 17 13 (if cancelled then cancel else request)
  with_index ← write_at 5 (be_bytes 4 p_index) buffer
  with_begin ← write_at 9 (be_bytes 4 p_begin) with_index
  write_at 13 (be_bytes 4 p_length) with_begin

unfoldable pub build_piece : ℕ → ℕ → Bytes → Run Bytes
build_piece p_index p_begin block =
    let block_size = length block % 2 ^ 32 in
    (do
      buffer ← build_message_helper ((block_size + 13) % 2 ^ 32) ((block_size + 9) % 2 ^ 32) piece
      with_index ← write_at 5 (be_bytes 4 p_index) buffer
      with_begin ← write_at 9 (be_bytes 4 p_begin) with_index
      write_at 13 (take block_size block) with_begin)

unfoldable pub build_port : ℕ → Run Bytes
build_port number = do buffer ← build_message_helper 7 3 port; write_at 5 (be_bytes 2 number) buffer

-- buildHandshake: each text has twenty bytes at least.
unfoldable pub build_handshake : Bytes → Bytes → Run Bytes
build_handshake info_hash peer_id = do
  with_length ← write_at 0 (19 ∷ []) (replicate 68 0)
  with_name ← write_at 1 (codes "BitTorrent protocol") with_length
  with_hash ← write_at 28 (take 20 info_hash) with_name
  write_at 48 (take 20 peer_id) with_hash

-- IsCompleteMessage: the length of the first message where it has arrived whole; the sum wraps.
unfoldable pub is_complete_message : Bytes → ℕ
is_complete_message buffer =
    let msg_len = be_value_from 0 (take 4 buffer) in
    if ltb (length buffer) 4
    then 0
    else if leb ((msg_len + 4) % 2 ^ 32) (length buffer)
    then msg_len
    else 0

-- The message behind its length: the id, which is read behind the end where there is none.
abbrev pub typed : Bytes → Run (MsgType × Bytes)
typed [] = fault undefined
typed (id ∷ payload) = if ltb 9 id then ok (unknown, []) else ok (msg_type id, payload)

-- parseMessage. The literal "\0\0\0\0" is empty as a std::string_view.
unfoldable pub parse_message : Bytes → Run (MsgType × Bytes)
parse_message message =
    if ltb (length message) 4
    then ok (unknown, [])
    else if (length message == 4) && (message =ᵇ [])
    then ok (keep_alive, [])
    else typed (drop 4 message)
