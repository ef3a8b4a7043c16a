-- ===== src/Torrent/Peer/Tests.antt =====
-- Runs of the loop over a peer's messages.
use cpp_experiments.Common.{
  ◌-◌, ◌^◌, ℕ, ◌≡◌, refl, true, false, none, some, List, [], ◌∷◌, ◌++◌, arith, replicate,
}
use cpp_experiments.Common.Fault.{ok, ◌>>=◌}
use cpp_experiments.Common.Bytes.{Bytes, codes}
use cpp_experiments.Common.Words.{be_bytes}
use cpp_experiments.Torrent.Pieces.{PieceManager}
use cpp_experiments.Torrent.Protocol.{
  MsgType, unchoke, have, bitfield, request, cancel, piece, port, write_at, build_message_helper,
  build_simple, build_have, build_bit_field, build_request, build_piece, build_port,
  build_keep_alive, is_complete_message, parse_message,
}
use cpp_experiments.Torrent.Protocol.Reading.{parse_message-built}
use cpp_experiments.Torrent.Peer.{Peer, Limits, one_message, process, repeat_requests}
use cpp_experiments.Torrent.Peer.Stream.{IsWaiting, wrapping, process-keep_alive, process-wrapping}

abbrev limits : Limits
limits = record { num_pieces = 2; piece_size = 6; max_backlog = 8; max_unchoke_attempts = 3 }

abbrev manager : PieceManager
manager = record {
  total_size = 12;
  piece_size = 6;
  block_size = 2;
  num_pieces = 2;
  piece_blob = replicate 40 0;
  haves = [];
  partial_pieces = [];
}

-- A peer that has been asked to unchoke us.
abbrev peer : Peer
peer = record {
  choked = true;
  closed = false;
  unchoke_attempts = 1;
  backlog = 0;
  haves = [];
  pending = [];
  send_buffer = 0 ∷ 0 ∷ 0 ∷ 1 ∷ 1 ∷ [];
  manager = manager;
  scheduled = [];
}

abbrev same_bytes : Bytes → Bytes
same_bytes s = s

-- An unchoke, and a piece that the peer has.
abbrev two_messages : List (MsgType × Bytes)
two_messages = (have, 0 ∷ 0 ∷ 0 ∷ 1 ∷ []) ∷ (unchoke, []) ∷ []

process-keep_alive_example :
    process same_bytes limits 1 (build_keep_alive ++ (0 ∷ 0 ∷ 0 ∷ 1 ∷ 1 ∷ [])) peer
    ≡ ok (some (build_keep_alive ++ (0 ∷ 0 ∷ 0 ∷ 1 ∷ 1 ∷ []), peer))
process-keep_alive_example = process-keep_alive same_bytes limits 0 (0 ∷ 0 ∷ 0 ∷ 1 ∷ 1 ∷ []) peer

peer-IsWaiting : IsWaiting same_bytes limits peer
unfolding build_simple build_message_helper write_at be_bytes
peer-IsWaiting = record { not_closed = refl; is_choked = refl; patient = omega arith; asked = refl }

process-wrapping_example :
    (is_complete_message (wrapping ++ (7 ∷ [])) ≡ 2 ^ 32 - 4)
    × (one_message same_bytes limits (2 ^ 32 - 4) (wrapping ++ (7 ∷ [])) peer
        ≡ ok (wrapping ++ (7 ∷ []), peer))
    × ((fuel : ℕ) → process same_bytes limits fuel (wrapping ++ (7 ∷ [])) peer ≡ ok none)
process-wrapping_example = process-wrapping same_bytes limits (7 ∷ []) peer peer-IsWaiting

parse_message-built_example :
    ((build_have 1 >>= parse_message) ≡ ok (have, be_bytes 4 1))
    × ((build_bit_field (codes "ab") >>= parse_message) ≡ ok (bitfield, codes "ab"))
    × ((build_request 1 2 3 false >>= parse_message)
        ≡ ok (request, be_bytes 4 1 ++ (be_bytes 4 2 ++ be_bytes 4 3)))
    × ((build_request 1 2 3 true >>= parse_message)
        ≡ ok (cancel, be_bytes 4 1 ++ (be_bytes 4 2 ++ be_bytes 4 3)))
    × ((build_piece 1 2 (codes "ab") >>= parse_message)
        ≡ ok (piece, be_bytes 4 1 ++ (be_bytes 4 2 ++ codes "ab")))
    × ((build_port 6881 >>= parse_message) ≡ ok (port, be_bytes 2 6881))
parse_message-built_example = parse_message-built 1 2 3 6881 (codes "ab") (omega arith)

-- A peer that has been idle is sent its requests again, and they are not cancelled.
idle_requests :
    repeat_requests (record { piece = 1; offset = 2; size = 2 } ∷ []) [] ≡ build_request 1 2 2 false
unfolding repeat_requests build_request build_message_helper write_at be_bytes
idle_requests = refl
