-- ===== src/Serial.antt =====
-- modules/serial: reading and writing the RS-485 port.
pub mod Errno
pub mod Receive
pub mod Send
