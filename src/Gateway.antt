-- ===== src/Gateway.antt =====
-- core: the gateway's own loops over the components. So far the framed TCP connection of its
-- network smoke test.
pub mod Connection
pub mod Interval
