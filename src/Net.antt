-- ===== src/Net.antt =====
-- modules/net: the TCP client that connects again by itself.
pub mod Backoff
pub mod Client
