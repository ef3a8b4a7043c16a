-- ===== src/Torrent/Peer.antt =====
-- torrent/src/torrent_downloader.cpp: what the download does with the bytes that a peer sends, once
-- the handshake is over. The library's SHA-1 is a parameter; a set is a list in the order of its
-- iteration. The receive buffer stands beside the rest of the peer's context.
pub mod Stream
pub mod Tests
use cpp_experiments.Common.{
  ℕ, zero, suc, ◌+◌, ◌-◌, ◌*◌, ◌/◌, ◌%◌, ◌^◌, Bool, true, false, ◌&&◌, not, Option, none, some,
  List, [], ◌∷◌, ◌++◌, ltb, leb, ◌==◌, if◌then◌else◌, length, take, drop,
}
use cpp_experiments.Common.Fault.{Run, ok, fault, undefined, ◌>>=◌}
use cpp_experiments.Common.Bytes.{Bytes, ◌=ᵇ◌}
use cpp_experiments.Common.Words.{be_value_from}
use cpp_experiments.Torrent.Pieces.{PieceManager, on_peer_reset, add_have}
use cpp_experiments.Torrent.Pieces.Pending.{Request, get_pending_blocks, on_block_received}
use cpp_experiments.Torrent.Protocol.{
  MsgType, choke, unchoke, have, bitfield, piece, build_simple, build_request, is_complete_message,
  parse_message,
}

-- PeerContext, the manager of the pieces, and what has been given to the writer: a place in the
-- file and the bytes for it.
pub record Peer : Type 0 where
  pub choked : Bool
  pub closed : Bool
  pub unchoke_attempts : ℕ
  pub backlog : ℕ
  pub haves : List ℕ
  pub pending : List Request
  pub send_buffer : Bytes
  pub manager : PieceManager
  pub scheduled : List (ℕ × Bytes)

-- The constants of a download.
pub record Limits : Type 0 where
  pub num_pieces : ℕ
  pub piece_size : ℕ
  pub max_backlog : ℕ
  pub max_unchoke_attempts : ℕ

-- The bits of a byte from the highest, for `bits` bits and the index of the first.
unfoldable pub read_bits : ℕ → ℕ → ℕ → List ℕ → List ℕ
read_bits zero byte idx haves = haves
read_bits (suc bits) byte idx haves =
    read_bits bits byte (idx + 1) (if byte / 2 ^ bits % 2 == 1 then add_have idx haves else haves)

-- readBitField, from the index `idx` on, which has 32 bits.
unfoldable pub read_bit_field : ℕ → Bytes → List ℕ → List ℕ
read_bit_field idx [] haves = haves
read_bit_field idx (byte ∷ s) haves =
    read_bit_field ((idx + 8) % 2 ^ 32) s (read_bits 8 byte idx haves)

-- A number of four bytes in the payload, behind which a zero may be read.
abbrev pub number_at : ℕ → Bytes → Run ℕ
number_at pos payload =
    let text = take 4 (drop pos (payload ++ 0 ∷ [])) in
    if ltb (length text) 4 then fault undefined else ok (be_value_from 0 text)

unfoldable pub handle_have : Bytes → Peer → Run Peer
handle_have payload p =
    number_at 0 payload >>= λ idx. ok (record p { haves = add_have idx p.haves })

unfoldable pub handle_bitfield : Limits → Bytes → Peer → Peer
handle_bitfield limits payload p =
    if length payload == (limits.num_pieces + 7) / 8
    then record p { haves = read_bit_field 0 payload [] }
    else p

-- pending.find and pending.erase: requests are the same where piece and offset are.
abbrev pub is_request : ℕ → ℕ → Request → Bool
is_request idx offset r = (r.piece == idx) && (r.offset == offset)

unfoldable pub find_request : ℕ → ℕ → List Request → Option Request
find_request idx offset [] = none
find_request idx offset (r ∷ rs) =
    if is_request idx offset r then some r else find_request idx offset rs

unfoldable pub erase_request : ℕ → ℕ → List Request → List Request
erase_request idx offset [] = []
erase_request idx offset (r ∷ rs) =
    let rest = erase_request idx offset rs in if is_request idx offset r then rest else r ∷ rest

-- pending.emplace
abbrev pub add_request : Request → List Request → List Request
add_request r rs = elim (find_request r.piece r.offset rs) [ none ↦ rs ++ r ∷ [] | some _ ↦ rs ]

-- ++ and -- on a std::uint8_t
abbrev pub up : ℕ → ℕ
up n = (n + 1) % 2 ^ 8

abbrev pub down : ℕ → ℕ
down n = (n + (2 ^ 8 - 1)) % 2 ^ 8

-- What comes of a block: a piece that is ready is given to the writer, at a place of 32 bits.
abbrev pub deliver : Limits → ℕ → Peer → (Bool × Bytes) × PieceManager → Peer
deliver limits idx p ((ready, text), m) =
    if ready
    then record p {
      manager = m;
      scheduled = p.scheduled ++ (idx * limits.piece_size % 2 ^ 32, text) ∷ [];
    }
    else record p { manager = m }

-- The peer without the request that has been answered.
abbrev pub answered : ℕ → ℕ → Peer → Peer
answered idx offset p = record p {
  pending = erase_request idx offset p.pending;
  backlog = down p.backlog;
}

-- A block that was asked for is passed on where it has the size that was asked for.
unfoldable pub accept_block :
    (Bytes → Bytes) → Limits → ℕ → ℕ → Bytes → Peer → Option Request → Run Peer
accept_block sha1 limits idx offset payload p none = ok p
accept_block sha1 limits idx offset payload p (some r) =
    let passed = on_block_received sha1 idx offset payload p.manager >>= λ result.
    ok (deliver limits idx (answered idx offset p) result) in
    if length payload == r.size + 8 then passed else ok (answered idx offset p)

unfoldable pub handle_piece : (Bytes → Bytes) → Limits → Bytes → Peer → Run Peer
handle_piece sha1 limits payload p = do
  idx ← number_at 0 payload
  offset ← number_at 4 payload
  accept_block sha1 limits idx offset payload p (find_request idx offset p.pending)

abbrev pub asked_of : List Request → List (ℕ × ℕ)
asked_of [] = []
asked_of (r ∷ rs) = (r.piece, r.offset) ∷ asked_of rs

-- clearPendingFromPeer
unfoldable pub clear_pending_from_peer : Peer → Run Peer
clear_pending_from_peer p = on_peer_reset (asked_of p.pending) p.manager >>= λ m.
    ok (record p { manager = m; pending = []; backlog = 0 })

unfoldable pub handle_choke : Peer → Run Peer
handle_choke p = clear_pending_from_peer p >>= λ q. ok (record q { choked = true })

unfoldable pub handle_unchoke : Peer → Peer
handle_unchoke p = record p { unchoke_attempts = 0; choked = false }

-- The switch over the types.
unfoldable pub handle : (Bytes → Bytes) → Limits → MsgType → Bytes → Peer → Run Peer
handle sha1 limits choke payload p = handle_choke p
handle sha1 limits unchoke payload p = ok (handle_unchoke p)
handle sha1 limits have payload p = handle_have payload p
handle sha1 limits piece payload p = handle_piece sha1 limits payload p
handle sha1 limits bitfield payload p = ok (handle_bitfield limits payload p)
handle sha1 limits _ payload p = ok p

-- Asking to be unchoked, as often as is allowed.
unfoldable pub ask_unchoke : Limits → Peer → Run Peer
ask_unchoke limits p = build_simple unchoke >>= λ message.
    if leb limits.max_unchoke_attempts p.unchoke_attempts
    then ok (record p { closed = true })
    else if p.send_buffer =ᵇ message
    then ok p
    else ok (record p { unchoke_attempts = up p.unchoke_attempts; send_buffer = message })

-- The loop over the blocks to ask for.
unfoldable pub send_requests : List Request → Peer → Run Peer
send_requests [] p = ok p
send_requests (r ∷ rs) p = build_request r.piece r.offset r.size false >>= λ message.
    send_requests rs (record p {
      send_buffer = p.send_buffer ++ message;
      pending = add_request r p.pending;
      backlog = up p.backlog;
    })

unfoldable pub ask_blocks : Limits → Peer → Run Peer
ask_blocks limits p = do
  asked ← get_pending_blocks p.haves (limits.max_backlog - p.backlog) p.manager
  send_requests asked.0 (record p { manager = asked.1 })

-- What follows the handler of a message.
unfoldable pub follow_up : Limits → Peer → Run Peer
follow_up limits p =
    if p.choked
    then ask_unchoke limits p
    else if ltb p.backlog limits.max_backlog
    then ask_blocks limits p
    else ok p

unfoldable pub on_message : (Bytes → Bytes) → Limits → MsgType × Bytes → Peer → Run Peer
on_message sha1 limits (id, payload) p = handle sha1 limits id payload p >>= follow_up limits

-- The body of the loop over the messages in the buffer, for a message of this length: what is left
-- of the buffer, and the peer.
unfoldable pub one_message : (Bytes → Bytes) → Limits → ℕ → Bytes → Peer → Run (Bytes × Peer)
one_message sha1 limits msg_len buffer p = do
  message ← parse_message (take ((msg_len + 4) % 2 ^ 32) buffer)
  q ← on_message sha1 limits message p
  ok (drop ((msg_len + 4) % 2 ^ 32) buffer, q)

-- The loop, for `fuel` rounds; nothing where these are too few.
unfoldable pub process : (Bytes → Bytes) → Limits → ℕ → Bytes → Peer → Run (Option (Bytes × Peer))
process sha1 limits zero buffer p = ok none
process sha1 limits (suc fuel) buffer p =
    let msg_len = is_complete_message buffer in
    let next =
      one_message sha1 limits msg_len buffer p >>= λ (rest, q). process sha1 limits fuel rest q in
    if ltb 0 msg_len && not p.closed then next else ok (some (buffer, p))

-- The requests that an idle peer is sent again, where the log speaks of cancelling them.
unfoldable pub repeat_requests : List Request → Bytes → Run Bytes
repeat_requests [] send_buffer = ok send_buffer
repeat_requests (r ∷ rs) send_buffer = build_request r.piece r.offset r.size false >>= λ message.
    repeat_requests rs (send_buffer ++ message)

-- What is done about a peer that has sent nothing for too long.
unfoldable pub on_idle : Peer → Run Peer
on_idle p =
    let repeated = (do
      message ← repeat_requests p.pending []
      clear_pending_from_peer (record p { send_buffer = message })) in
    if p.choked then ok (record p { closed = true }) else if p.backlog == 0 then ok p else repeated
