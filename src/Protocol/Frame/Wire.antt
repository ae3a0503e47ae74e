-- ===== src/Protocol/Frame/Wire.antt =====
-- What a frame is on the wire, apart from the code, and frame_encode of modules/protocol/frame.c
-- against it.
use edgevision_gateway.Common.{
  ℕ, ◌+◌, ◌/◌, ◌%◌, ◌^◌, ◌≤◌, ◌<◌, ◌≡◌, refl, arith, none, some, List, [], ◌∷◌, ◌++◌, length,
  length-append, All, All-append, ltb-false, u8,
}
use edgevision_gateway.Protocol.Crc.{IsByte, crc_bytes}
use edgevision_gateway.Protocol.Crc.Residue.{crc_bytes-lt, frame_crc16_modbus_all}
use edgevision_gateway.Protocol.Frame.{frame_encode, invalid, ready, frame_max_payload}

-- The CRC covers LEN and PAYLOAD.
abbrev pub wire_crc : List ℕ → ℕ
wire_crc payload = crc_bytes 0xFFFF (length payload ∷ payload)

abbrev pub trailer : List ℕ → List ℕ
trailer payload = wire_crc payload % 256 ∷ wire_crc payload / 256 ∷ []

abbrev pub frame_bytes : List ℕ → List ℕ
frame_bytes payload = 0xA5 ∷ 0x5A ∷ length payload ∷ (payload ++ trailer payload)

pub length-frame_bytes : (payload : List ℕ) → length (frame_bytes payload) ≡ length payload + 5
length-frame_bytes payload = omega (arith, length-append payload (trailer payload))

pub wire_crc-lt :
    (payload : List ℕ) → length payload ≤ 240 → All IsByte payload → wire_crc payload < 2 ^ 16
wire_crc-lt payload h hb =
    crc_bytes-lt 0xFFFF (length payload ∷ payload) (omega arith) (omega arith, hb)

pub frame_bytes-IsByte :
    (payload : List ℕ)
    → length payload ≤ 240
    → All IsByte payload
    → All IsByte (frame_bytes payload)
frame_bytes-IsByte payload h hb =
    let tail : All IsByte (trailer payload) =
      (omega arith, (omega (arith, wire_crc-lt payload h hb), tt)) in
    (omega arith, (omega arith, (omega arith, All-append IsByte payload (trailer payload) hb tail)))

-- `frame_encode` writes the frame of the payload when both limits allow it.
pub frame_encode_ready :
    (payload : List ℕ) (output_capacity : ℕ)
    → length payload ≤ frame_max_payload
    → length payload + 5 ≤ output_capacity
    → All IsByte payload
    → frame_encode payload output_capacity ≡ (ready, some (frame_bytes payload))
unfolding frame_encode
frame_encode_ready payload output_capacity h cap hb =
    let len : u8 (length payload) ≡ length payload = omega arith in
    let crc = wire_crc-lt payload h hb in
    let hi : u8 (wire_crc payload / 2 ^ 8) ≡ wire_crc payload / 256 = omega arith in
    rw
      (
        ltb-false frame_max_payload (length payload) h,
        ltb-false output_capacity (3 + length payload + 2) (omega arith),
        len,
        frame_crc16_modbus_all (length payload ∷ payload) (length payload + 1) (omega arith),
        hi,
      )
      refl

pub frame_encode_refused :
    (payload : List ℕ) (output_capacity : ℕ)
    → output_capacity < length payload + 5
    → frame_encode payload output_capacity ≡ (invalid, none)
unfolding frame_encode
frame_encode_refused payload output_capacity h = ground arith

pub frame_encode_too_long :
    (payload : List ℕ) (output_capacity : ℕ)
    → frame_max_payload < length payload
    → frame_encode payload output_capacity ≡ (invalid, none)
unfolding frame_encode
frame_encode_too_long payload output_capacity h = ground arith
