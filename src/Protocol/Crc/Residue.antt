-- ===== src/Protocol/Crc/Residue.antt =====
-- The CRC register stays in 16 bits, and a message followed by its own CRC, low byte first, leaves
-- the register at zero.
use edgevision_gateway.Common.{ℕ, zero, suc, ◌+◌, ◌*◌, ◌/◌, ◌%◌, ◌^◌, ◌<◌, ◌≡◌, refl, ap, arith}
use edgevision_gateway.Common.{
  List, [], ◌∷◌, ◌++◌, take, take_all, take-append, length, length-append, All, All-take, bit_xor,
}
use edgevision_gateway.Common.Bits.{
  bit_and-one, bit_xor-lt, bit_xor_self, bit_xor_fields, bit_xor-zero, shift-suc,
}
use edgevision_gateway.Protocol.Crc.{
  crc_bit, crc_bits, crc_byte, crc_bytes, frame_crc16_modbus, IsByte,
}

-- The test of the inner loop is on parity.
pub crc_bit_even : (c : ℕ) → c % 2 ≡ 0 → crc_bit c ≡ c / 2
unfolding crc_bit
crc_bit_even c e = ground (arith, bit_and-one c)

pub crc_bit_odd : (c : ℕ) → c % 2 ≡ 1 → crc_bit c ≡ bit_xor (c / 2) 0xA001
unfolding crc_bit
crc_bit_odd c e = ground (arith, bit_and-one c)

pub crc_bit-lt : (c : ℕ) → c < 2 ^ 16 → crc_bit c < 2 ^ 16
unfolding crc_bit
crc_bit-lt c h = ground (arith, bit_xor-lt 16 (c / 2) 0xA001 (omega arith) (omega arith))

pub crc_bits-lt : (n c : ℕ) → c < 2 ^ 16 → crc_bits n c < 2 ^ 16
unfolding crc_bits
crc_bits-lt zero c h = h
crc_bits-lt (suc n) c h = crc_bits-lt n (crc_bit c) (crc_bit-lt c h)

pub crc_byte-lt : (c b : ℕ) → c < 2 ^ 16 → IsByte b → crc_byte c b < 2 ^ 16
unfolding crc_byte
crc_byte-lt c b h hb = crc_bits-lt 8 (bit_xor c b) (bit_xor-lt 16 c b h (omega arith))

pub crc_bytes-lt : (c : ℕ) (bs : List ℕ) → c < 2 ^ 16 → All IsByte bs → crc_bytes c bs < 2 ^ 16
unfolding crc_bytes
crc_bytes-lt c [] h hb = h
crc_bytes-lt c (b ∷ bs) h hb = crc_bytes-lt (crc_byte c b) bs (crc_byte-lt c b h hb.0) hb.1

pub crc_bytes-append :
    (c : ℕ) (xs ys : List ℕ) → crc_bytes c (xs ++ ys) ≡ crc_bytes (crc_bytes c xs) ys
unfolding crc_bytes
crc_bytes-append c [] ys = refl
crc_bytes-append c (x ∷ xs) ys = crc_bytes-append (crc_byte c x) xs ys

-- A multiple of 2 ^ n meets only zeroes in n rounds.
pub crc_bits_shift : (n c : ℕ) → crc_bits n (c * 2 ^ n) ≡ c
unfolding crc_bits
crc_bits_shift zero c = omega arith
crc_bits_shift (suc n) c =
    let step : crc_bit (c * 2 ^ suc n) ≡ c * 2 ^ n =
      omega (arith, crc_bit_even (c * 2 ^ suc n) (omega (arith, shift-suc c n)), shift-suc c n) in
    rw step (crc_bits_shift n c)

-- The register's own low byte empties its low half.
crc_byte_low : (c : ℕ) → crc_byte c (c % 256) ≡ c / 256
unfolding crc_byte
crc_byte_low c =
    let cleared : bit_xor c (c % 256) ≡ c / 256 * 2 ^ 8 = ground (
      arith,
      bit_xor_fields 8 (c / 256) (c % 256) 0 (c % 256),
      bit_xor-zero (c / 256),
      bit_xor_self (c % 256),
      ap (λ (t : ℕ). bit_xor t (c % 256)) (split c),
    ) in
    rw cleared (crc_bits_shift 8 (c / 256))
  where
    split : (c : ℕ) → c / 256 * 2 ^ 8 + c % 256 ≡ c
    split c = omega arith

crc_byte_self : (c : ℕ) → crc_byte c c ≡ 0
unfolding crc_byte
crc_byte_self c = rw (bit_xor_self c) (crc_bits_shift 8 0)

pub frame_crc16_modbus_all :
    (bytes : List ℕ) (size : ℕ)
    → length bytes ≡ size
    → frame_crc16_modbus bytes size ≡ crc_bytes 0xFFFF bytes
unfolding frame_crc16_modbus
frame_crc16_modbus_all bytes size e = rw (take_all size bytes (omega arith))

pub frame_crc16_modbus_prefix :
    (bytes rest : List ℕ)
    → frame_crc16_modbus (bytes ++ rest) (length bytes) ≡ crc_bytes 0xFFFF bytes
unfolding frame_crc16_modbus
frame_crc16_modbus_prefix bytes rest = rw (take-append bytes rest)

pub frame_crc16_modbus-lt :
    (bytes : List ℕ) (size : ℕ) → All IsByte bytes → frame_crc16_modbus bytes size < 2 ^ 16
unfolding frame_crc16_modbus
frame_crc16_modbus-lt bytes size h =
    crc_bytes-lt 0xFFFF (take size bytes) (omega arith) (All-take IsByte size bytes h)

-- A receiver that runs the CRC over `size` bytes and the two CRC bytes sent behind them, low byte
-- first, reads zero, whatever the bytes.
pub crc-residue :
    (bytes : List ℕ) (size : ℕ)
    → length bytes ≡ size
    → let crc = frame_crc16_modbus bytes size in
      frame_crc16_modbus (bytes ++ crc % 256 ∷ crc / 256 ∷ []) (size + 2) ≡ 0
crc-residue bytes size e =
    let crc = crc_bytes 0xFFFF bytes in
    rw
      (
        frame_crc16_modbus_all bytes size e,
        frame_crc16_modbus_all (bytes ++ crc % 256 ∷ crc / 256 ∷ []) (size + 2)
            (omega (arith, length-append bytes (crc % 256 ∷ crc / 256 ∷ []))),
        crc_bytes-append,
      )
      (trailer crc)
  where
    trailer : (crc : ℕ) → crc_bytes crc (crc % 256 ∷ crc / 256 ∷ []) ≡ 0
    trailer crc = unfold crc_bytes in rw (crc_byte_low crc) (crc_byte_self (crc / 256))
