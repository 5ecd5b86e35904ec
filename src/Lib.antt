-- ===== src/Lib.antt =====
-- bep-rs: synchronising directories between devices by the Block Exchange Protocol.
--
-- A device keeps its state (directories, peers, shares, files with their versions and blocks) in a
-- database. It connects to its peers over TLS, where each side checks the other's certificate against
-- the device ids that it knows. A connection sends requests for blocks and answers those of the peer;
-- its tasks share the table of requests that wait and the queue of messages to write.
--
--   DeviceId    src/device_id.rs: the printed form of a device id, with its check digits and dashes.
--   Util        src/util.rs: bytes in hexadecimal.
--   Sync        src/sync_directory.rs: directories, files and blocks, and how a file is cut into
--               blocks (`gen_blocks`); Sync/FilePath.antt has what it uses of `PathBuf`.
--   State       src/models.rs and src/bep_state.rs: the rows, the tables and the methods of
--               `BepState`. State/Table.antt is the interface of the database engine, and
--               State/Table/Memory.antt a table in memory that fulfils it. State/Shared.antt is the
--               reference that the tasks share (src/bep_state_reference.rs).
--   Scan        src/sync_directory.rs: `generate_index`, which brings the database up to the disk.
--   Storage     src/storage_backend.rs: reading and writing blocks of files, on a disk.
--   Connection  src/peer_connection/: the messages (Items), answering a request (Serve), the
--               requests that wait (Requests), merging a peer's index (Merge), downloading a file
--               (Fetch), indexes for the peer and the download of a directory (Updates), messages as
--               bytes (Framing), the loop that reads them (Reading) and the one that writes them
--               (Writing), the cluster configuration (Cluster), the check of certificates and the
--               handshake around it (Verifier), a connection from its start to its close (Life), and
--               the watcher of its directories (Watcher).
--   Daemon      src/daemon.rs: the loop that connects to the peers.
--   Prelude     texts, lists, machine integers and failing computations.
--   Tests       runs at concrete data.
--
-- A definition has the name of the function it models. A text, a path and a hash are lists of bytes.
-- A panic is `none`, or `panicked` where there are errors too. A method of `BepState` takes the state
-- and returns its result with the state after it, since what a panicking method wrote stays written.
-- Machine integers keep their casts (`as i32`, `as u64`) written out.
--
-- Loops are recursion on the rounds that are left, a number that the code fixes before the loop, or
-- on the list that is looped over; no loop needs fuel. The requests of a connection run as a relation
-- of steps in any order: each step is one critical section or the end of one wait, and the senders that
-- a task holds between two steps are part of the state.
--
-- Parameters, with what is documented of them: the database engine (`IsTable`, `IsUpsert`), ORDER BY
-- (`IsOrder`), base32 (`IsFaithfulAt`), SHA-256 (`IsCollisionFreeAt`), the generated encodings of the
-- messages with the decompression of the crate lz4_flex (`Wire`; `IsWritable` where they are faithful
-- and their lengths fit), the file system's `exists` and its listing of a directory, what the system
-- lets the program open (`Os`), a peer's answers to a download, the certificate of a new device, and
-- the random id of a directory.
-- Which receivers still wait is a parameter of the steps that send. What the waits of the reader, the
-- writer and the watcher end with (a header, a message, a timeout, a cancellation, an event of the
-- crate notify) is a list that their loops run through. What a handshake of the crate rustls comes to
-- (`Handshake`), what the stream does with bytes that are written (`Sending`) and what an address of
-- the daemon comes to (`Attempt`) are parameters too. A handler that serves or downloads takes
-- the storage's answers as a function: in Connection/Serve/Sizes.antt it is `read_block` on a disk, and
-- Connection/Fetch/Synced.antt carries the writes of a download out on a disk.
--
-- Not modelled: logging, the inside of TLS, sockets, the server's loop that accepts them, the
-- command line, the spawning of tasks (a spawned task is recorded in the state), the bound of 100
-- messages on the queue of a connection, the encodings that are generated from
-- src/peer_connection/items.proto, and failures of the database engine other than a violated
-- constraint.
pub mod Prelude
pub mod DeviceId
pub mod Util
pub mod Sync
pub mod Storage
pub mod State
pub mod Scan
pub mod Connection
pub mod Daemon
pub mod Tests
