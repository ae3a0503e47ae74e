-- ===== src/Protocol/Modbus/Tests.antt =====
-- The Modbus RTU requests and responses of modules/protocol/frame.c on concrete bytes, and the
-- theorems about them at inputs that meet their hypotheses.
use edgevision_gateway.Common.{ℕ, ◌≡◌, ◌≢◌, refl, arith, true, none, some, List, [], ◌∷◌, ◌⊎◌}
use edgevision_gateway.Protocol.Crc.{frame_crc16_modbus}
use edgevision_gateway.Protocol.Frame.{read_le16}
use edgevision_gateway.Protocol.Modbus.{
  exception, invalid, modbus_rtu_build_read_registers, modbus_rtu_check_read_registers, bad_request,
  check_frame, check_trailer, shape_matches, bad_expectation,
}
use edgevision_gateway.Protocol.Modbus.Request.{build-Carries, IsRequest, Carries}
use edgevision_gateway.Protocol.Modbus.Response.{check-IsAnswer, IsAnswer}

-- The request of the gateway to the STM32: two input registers from register 1 on.
abbrev request : List ℕ
request = 0x01 ∷ 0x04 ∷ 0x00 ∷ 0x01 ∷ 0x00 ∷ 0x02 ∷ 0x20 ∷ 0x0B ∷ []

build_stm32 : modbus_rtu_build_read_registers 1 4 1 2 true 8 ≡ some request
unfolding modbus_rtu_build_read_registers frame_crc16_modbus bad_request
build_stm32 = refl

build_too_many : modbus_rtu_build_read_registers 1 4 1 126 true 8 ≡ none
unfolding modbus_rtu_build_read_registers frame_crc16_modbus bad_request
build_too_many = refl

build-Carries_example :
    (IsRequest 1 4 1 2 true 8
      × (r : List ℕ) × (modbus_rtu_build_read_registers 1 4 1 2 true 8 ≡ some r)
      × Carries 1 4 1 2 r)
    ⊎ (¬ IsRequest 1 4 1 2 true 8 × (modbus_rtu_build_read_registers 1 4 1 2 true 8 ≡ none))
build-Carries_example = build-Carries 1 4 1 2 true 8 (omega arith) (omega arith)

abbrev values : List ℕ
values = 0 ∷ 235 ∷ 1 ∷ 200 ∷ []

-- An exception with code 2, as bytes.
abbrev refusal : List ℕ
refusal = 0x01 ∷ 0x84 ∷ 0x02 ∷ 0xC2 ∷ 0xC1 ∷ []

check_refusal : modbus_rtu_check_read_registers (some refusal) 5 1 4 2 true ≡ (exception, some 2)
unfolding modbus_rtu_check_read_registers check_frame shape_matches check_trailer bad_expectation
    frame_crc16_modbus read_le16
check_refusal = refl

exception-ne-invalid : exception ≢ invalid
exception-ne-invalid e = cc

check-IsAnswer_example : IsAnswer 1 4 2 refusal exception 2
check-IsAnswer_example =
    check-IsAnswer refusal 5 1 4 2 exception 2 (omega arith) refl check_refusal exception-ne-invalid
