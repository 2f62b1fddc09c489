-- ===== src/Transport.antt =====
-- src/transport: sockets, what a connection writes and reads, the server with its loop, and the client. The
-- client and the server have the same `write_all` and `read_one_message`.
pub mod Errors
pub mod ClientCalls
pub mod Writing
pub mod Frames
pub mod Reading
pub mod Session
pub mod Exchange
pub mod Socket
pub mod Server
pub mod Client
