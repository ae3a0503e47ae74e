-- ===== src/Protocol.antt =====
-- modules/protocol: the CRC, the TCP frame codec with its incremental parser, and the Modbus RTU
-- requests and responses of frame.c.
pub mod Crc
pub mod Frame
pub mod Modbus
