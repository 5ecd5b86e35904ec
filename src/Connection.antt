-- ===== src/Connection.antt =====
-- The connection to a peer (src/peer_connection/).
pub mod Items
pub mod Framing
pub mod Serve
pub mod Requests
pub mod Merge
pub mod Fetch
pub mod Cluster
pub mod Reading
pub mod Writing
pub mod Life
pub mod Watcher
pub mod Updates
pub mod Verifier
