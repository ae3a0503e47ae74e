-- ===== src/Protocol/Crc/Tests.antt =====
-- The CRC of modules/protocol/frame.c on concrete bytes, and the theorems about it at inputs that
-- meet their hypotheses.
use edgevision_gateway.Common.{ℕ, ◌+◌, ◌/◌, ◌%◌, ◌≡◌, ◌≢◌, refl, arith, List, [], ◌∷◌, ◌++◌}
use edgevision_gateway.Protocol.Crc.{frame_crc16_modbus}
use edgevision_gateway.Protocol.Crc.Residue.{crc-residue}
use edgevision_gateway.Protocol.Crc.Detect.{crc-detects_burst}

abbrev nine_digits : List ℕ
nine_digits = 0x31 ∷ 0x32 ∷ 0x33 ∷ 0x34 ∷ 0x35 ∷ 0x36 ∷ 0x37 ∷ 0x38 ∷ 0x39 ∷ []

-- The standard check value, as in frame.h.
crc_check_value : frame_crc16_modbus nine_digits 9 ≡ 0x4B37
unfolding frame_crc16_modbus
crc_check_value = refl

crc-residue_example :
    frame_crc16_modbus
      (nine_digits
        ++ frame_crc16_modbus nine_digits 9 % 256 ∷ frame_crc16_modbus nine_digits 9 / 256 ∷ [])
      (9 + 2)
    ≡ 0
crc-residue_example = crc-residue nine_digits 9 refl

-- The bytes 0x31 0x32 against 0x30 0x33, between 1 and 2.
crc-detects_burst_example :
    frame_crc16_modbus (1 ∷ 0x31 ∷ 0x32 ∷ 2 ∷ []) 4
    ≢ frame_crc16_modbus (1 ∷ 0x30 ∷ 0x33 ∷ 2 ∷ []) 4
crc-detects_burst_example =
    crc-detects_burst (1 ∷ []) (2 ∷ []) 0x31 0x32 0x30 0x33 4 (omega arith) (omega arith)
      (omega arith) (omega arith) (omega arith) (omega arith) refl (omega arith)
