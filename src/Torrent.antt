-- ===== src/Torrent.antt =====
-- torrent/: the bookkeeping of a download.
pub mod Pieces
pub mod Protocol
pub mod Peer
pub mod Tests
