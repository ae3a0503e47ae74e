-- ===== src/Protocol/Crc.antt =====
-- frame_crc16_modbus of modules/protocol/frame.c: CRC16-Modbus, bit by bit, initial value 0xFFFF,
-- polynomial 0xA001. A `uint16_t` is a number below 2 ^ 16, and a pointer with a size a list of
-- bytes with the number of them that the call reads.
pub mod Residue
pub mod Detect
mod Tests
use edgevision_gateway.Common.{ℕ, zero, suc, ◌/◌, ◌==◌, ◌!=◌, ◌<◌, if◌then◌else◌, bit_and, bit_xor}
use edgevision_gateway.Common.{List, [], ◌∷◌, take}

-- One round of the inner loop: shift right, and bring the polynomial in if a one fell out.
pub crc_bit : ℕ → ℕ
crc_bit crc = if bit_and crc 1 != 0 then bit_xor (crc / 2) 0xA001 else crc / 2

-- The inner loop with its remaining rounds.
pub crc_bits : ℕ → ℕ → ℕ
crc_bits zero crc = crc
crc_bits (suc n) crc = crc_bits n (crc_bit crc)

-- One round of the outer loop: the byte goes into the register, then eight bits are shifted.
pub crc_byte : ℕ → ℕ → ℕ
crc_byte crc byte = crc_bits 8 (bit_xor crc byte)

pub crc_bytes : ℕ → List ℕ → ℕ
crc_bytes crc [] = crc
crc_bytes crc (byte ∷ bytes) = crc_bytes (crc_byte crc byte) bytes

unfoldable pub frame_crc16_modbus : List ℕ → ℕ → ℕ
unfolding crc_bytes crc_byte crc_bits crc_bit
frame_crc16_modbus bytes size = crc_bytes 0xFFFF (take size bytes)

abbrev pub IsByte : ℕ → Type 0
IsByte b = b < 256
