-- ===== src/Net.antt =====
-- The root package: connections, addresses, the proxy protocol, listeners and servers.
pub mod Stream
pub mod Ip
pub mod ProxyProto
