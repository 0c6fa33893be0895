-- ===== src/Httpx.antt =====
-- The package httpx.
pub mod Result
pub mod Lex
pub mod Quote
pub mod Media
pub mod Float
pub mod Sort
pub mod Accept
pub mod AcceptEncoding
pub mod Header
pub mod Proto
pub mod Server
pub mod Retry
pub mod Upgrade
pub mod Conn
pub mod Encoding
pub mod Forwarded
pub mod Proxy
