-- ===== src/Httpx/Server.antt =====
-- httpx/server.go: what a server writes to its connection.
pub mod Writer
pub mod Chunk
pub mod Response
pub mod Serve
