-- ===== src/Redis.antt =====
-- redis-server/: the nodes of the protocol, the cache, the commands and the framing of requests.
pub mod Node
pub mod Cache
pub mod Handler
pub mod Numbers
pub mod Lists
pub mod Dump
pub mod Command
pub mod Dispatch
pub mod Coherence
pub mod Server
pub mod Tests
