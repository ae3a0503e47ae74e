-- ===== src/Protocol/Modbus/Request.antt =====
-- modbus_rtu_build_read_registers of modules/protocol/frame.c: which requests are built, and that a
-- receiver reads them back.
use edgevision_gateway.Common.{
  ℕ, ◌+◌, ◌*◌, ◌/◌, ◌^◌, ◌≤◌, ◌<◌, ◌≡◌, refl, arith, Bool, true, false, none, some, List, [], ◌∷◌,
  ◌++◌, length, All, ◌⊎◌, ◌↔◌, inl, inr, get_or, u8, Bool-cases,
}
use edgevision_gateway.Protocol.Crc.{IsByte, frame_crc16_modbus}
use edgevision_gateway.Protocol.Crc.Residue.{crc-residue, frame_crc16_modbus-lt}
use edgevision_gateway.Protocol.Modbus.{modbus_rtu_build_read_registers, bad_request}

-- A request that a slave can answer, and a buffer that takes it.
abbrev pub IsRequest : ℕ → ℕ → ℕ → ℕ → Bool → ℕ → Type 0
IsRequest slave function start quantity has_output capacity =
    ((function ≡ 3) ⊎ (function ≡ 4))
    × (has_output ≡ true)
    × (1 ≤ slave)
    × (slave ≤ 247)
    × (8 ≤ capacity)
    × (start + quantity ≤ 65536)
    × (1 ≤ quantity)
    × (quantity ≤ 125)

pub bad_request-IsRequest :
    (slave function start quantity : ℕ) (has_output : Bool) (capacity : ℕ)
    → (bad_request slave function start quantity has_output capacity ≡ false)
      ↔ IsRequest slave function start quantity has_output capacity
unfolding bad_request
bad_request-IsRequest slave function start quantity has_output capacity =
    (λ h. ground arith, λ h. ground arith)

-- What a slave reads out of the eight bytes of a request.
pub record Carries (slave function start quantity : ℕ) (request : List ℕ) : Type 0 where
  pub size : length request ≡ 8
  pub to_slave : get_or request 0 0 ≡ slave
  pub asks : get_or request 1 0 ≡ function
  pub from : get_or request 2 0 * 256 + get_or request 3 0 ≡ start
  pub count : get_or request 4 0 * 256 + get_or request 5 0 ≡ quantity
  pub checked : frame_crc16_modbus request 8 ≡ 0

abbrev head : ℕ → ℕ → ℕ → ℕ → List ℕ
head slave function start quantity =
    slave ∷ function ∷ u8 (start / 2 ^ 8) ∷ u8 start ∷ u8 (quantity / 2 ^ 8) ∷ u8 quantity ∷ []

head-Carries :
    (slave function start quantity crc : ℕ)
    → start < 2 ^ 16
    → quantity < 2 ^ 16
    → frame_crc16_modbus (head slave function start quantity) 6 ≡ crc
    → crc < 2 ^ 16
    → Carries slave function start quantity
        (head slave function start quantity ++ u8 crc ∷ u8 (crc / 2 ^ 8) ∷ [])
head-Carries slave function start quantity crc hs hq e small =
    let high : u8 (crc / 2 ^ 8) ≡ crc / 256 = omega arith in
    record {
      size = refl;
      to_slave = refl;
      asks = refl;
      from = omega arith;
      count = omega arith;
      checked = rw (high, ← e) (crc-residue (head slave function start quantity) 6 refl);
    }

-- A request for registers in range is built, and carries its slave, function, first register and
-- number of registers, with a CRC that a receiver accepts. Any other call is refused.
pub build-Carries :
    (slave function start quantity : ℕ) (has_output : Bool) (capacity : ℕ)
    → start < 2 ^ 16
    → quantity < 2 ^ 16
    → (IsRequest slave function start quantity has_output capacity
        × (request : List ℕ) × (modbus_rtu_build_read_registers slave function start quantity
              has_output capacity
            ≡ some request)
        × Carries slave function start quantity request)
      ⊎ (¬ IsRequest slave function start quantity has_output capacity
          × (modbus_rtu_build_read_registers slave function start quantity has_output capacity
              ≡ none))
unfolding modbus_rtu_build_read_registers
build-Carries slave function start quantity has_output capacity hs hq =
    elim (Bool-cases (bad_request slave function start quantity has_output capacity)) [
      | inl bad ↦ inr (λ h. cc (bad-IsRequest.1 h), rw bad refl)
      | inr fine ↦
          let request = bad-IsRequest.0 fine in
          inl (
            request,
            _,
            rw fine refl,
            head-Carries slave function start quantity _ hs hq refl (
                frame_crc16_modbus-lt (head slave function start quantity) 6 (head-IsByte request)),
          )
    ]
  where
    bad-IsRequest :
        (bad_request slave function start quantity has_output capacity ≡ false)
        ↔ IsRequest slave function start quantity has_output capacity
    bad-IsRequest = bad_request-IsRequest slave function start quantity has_output capacity

    head-IsByte :
        IsRequest slave function start quantity has_output capacity
        → All IsByte (head slave function start quantity)
    head-IsByte h = omega arith
