-- ===== src/State.antt =====
-- The state of a client and its database (src/bep_state.rs, src/models.rs, the tables of
-- migrations/2023-01-19-192037_create_directories/up.sql).
pub mod Models
pub mod Table
pub mod Monad
pub mod Folders
pub mod Files
pub mod Peers
pub mod Shared
