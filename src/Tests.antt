-- ===== src/Tests.antt =====
-- Runs of the model, and its theorems at concrete data.
mod Device
mod Blocks
mod Database
mod Requests
mod Wire
mod Storage
mod Shared
mod Scan
mod Writing
mod Life
mod Index
mod Daemon
