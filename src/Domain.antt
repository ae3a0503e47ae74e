-- ===== src/Domain.antt =====
-- domain: the Measurement contract that every part of the gateway shares.
pub mod Floats
pub mod Measurement
pub mod Json
mod Tests
