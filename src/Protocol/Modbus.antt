-- ===== src/Protocol/Modbus.antt =====
-- The Modbus RTU part of modules/protocol/frame.c: requests that read registers, and the check of
-- the responses. Arguments of type uint8_t and uint16_t are numbers below 2 ^ 8 and 2 ^ 16. A
-- pointer that may be NULL is an option, or a Boolean where only its presence counts.
pub mod Request
pub mod Response
mod Tests
use edgevision_gateway.Common.{
  ℕ, ◌+◌, ◌-◌, ◌*◌, ◌/◌, ◌^◌, Bool, true, false, not, ◌&&◌, ◌||◌, Option, none, some, List, [], ◌∷◌,
  ◌++◌, get_or, ltb, ◌==◌, ◌!=◌, if◌then◌else◌, bit_or, u8,
}
use edgevision_gateway.Protocol.Crc.{frame_crc16_modbus}
use edgevision_gateway.Protocol.Frame.{read_le16}

-- The argument test of the request. `none` is the return value -1, with nothing written.
pub bad_request : ℕ → ℕ → ℕ → ℕ → Bool → ℕ → Bool
bad_request slave function start quantity has_output capacity =
    ((function != 0x03) && (function != 0x04))
    || not has_output
    || ltb slave 1
    || ltb 247 slave
    || ltb capacity 8
    || ltb 65536 (start + quantity)
    || ltb quantity 1
    || ltb 125 quantity

pub modbus_rtu_build_read_registers : ℕ → ℕ → ℕ → ℕ → Bool → ℕ → Option (List ℕ)
modbus_rtu_build_read_registers slave function start quantity has_output capacity =
    let output =
      slave ∷ function ∷ u8 (start / 2 ^ 8) ∷ u8 start ∷ u8 (quantity / 2 ^ 8) ∷ u8 quantity ∷ [] in
    let crc = frame_crc16_modbus output 6 in
    if bad_request slave function start quantity has_output capacity
    then none
    else some (output ++ u8 crc ∷ u8 (crc / 2 ^ 8) ∷ [])

-- MODBUS_RESPONSE_INVALID, MODBUS_RESPONSE_NORMAL and MODBUS_RESPONSE_EXCEPTION.
pub data ModbusResponse : Type 0 where
  invalid normal exception : ModbusResponse

-- The tests of the function code and of the lengths that go with it.
pub shape_matches : List ℕ → ℕ → ℕ → ℕ → Bool
shape_matches frame length expected_function expected_quantity =
    if get_or frame 1 0 == expected_function
    then not ((get_or frame 2 0 != expected_quantity * 2) || (length != 5 + expected_quantity * 2))
    else if get_or frame 1 0 == u8 (bit_or expected_function 0x80)
    then not (length != 5)
    else false

-- The CRC test, and what is returned behind it, beside `*exception_code`.
pub check_trailer : List ℕ → ℕ → ℕ → ModbusResponse × ℕ
check_trailer frame length expected_function =
    let calculated = frame_crc16_modbus frame (length - 2) in
    let received = read_le16 (get_or frame (length - 2) 0) (get_or frame (length - 1) 0) in
    if calculated != received
    then (invalid, 0)
    else if get_or frame 1 0 == u8 (bit_or expected_function 0x80)
    then (exception, get_or frame 2 0)
    else (normal, 0)

pub bad_expectation : ℕ → ℕ → ℕ → ℕ → Bool
bad_expectation length expected_slave expected_function expected_quantity =
    ((expected_function != 0x03) && (expected_function != 0x04))
    || ltb length 5
    || ltb expected_slave 1
    || ltb 247 expected_slave
    || ltb expected_quantity 1
    || ltb 125 expected_quantity

-- `frame` is not NULL.
pub check_frame : List ℕ → ℕ → ℕ → ℕ → ℕ → ModbusResponse × ℕ
check_frame frame length expected_slave expected_function expected_quantity =
    if bad_expectation length expected_slave expected_function expected_quantity
    then (invalid, 0)
    else if get_or frame 0 0 != expected_slave
    then (invalid, 0)
    else if shape_matches frame length expected_function expected_quantity
    then check_trailer frame length expected_function
    else (invalid, 0)

-- The result, and what is written to `*exception_code` if the pointer is there.
pub modbus_rtu_check_read_registers :
    Option (List ℕ) → ℕ → ℕ → ℕ → ℕ → Bool → ModbusResponse × Option ℕ
modbus_rtu_check_read_registers frame length expected_slave expected_function expected_quantity
      false =
    (invalid, none)
modbus_rtu_check_read_registers none length expected_slave expected_function expected_quantity
      true =
    (invalid, some 0)
modbus_rtu_check_read_registers (some frame) length expected_slave expected_function
      expected_quantity true =
    let (result, code) =
      check_frame frame length expected_slave expected_function expected_quantity in
    (result, some code)

pub modbus_rtu_build_read_holding : ℕ → ℕ → ℕ → Bool → ℕ → Option (List ℕ)
modbus_rtu_build_read_holding slave start quantity has_output capacity =
    modbus_rtu_build_read_registers slave 0x03 start quantity has_output capacity

pub modbus_rtu_check_read_holding : Option (List ℕ) → ℕ → ℕ → ℕ → Bool → ModbusResponse × Option ℕ
modbus_rtu_check_read_holding frame length expected_slave expected_quantity has_exception =
    modbus_rtu_check_read_registers frame length expected_slave 0x03 expected_quantity has_exception
