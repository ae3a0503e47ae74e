-- ===== src/Source/Stm32/Registers.antt =====
-- The registers that query_registers of modules/source/stm32_modbus_source.c takes from a response.
use edgevision_gateway.Common.{
  ℕ, ◌+◌, ◌*◌, ◌^◌, ◌%◌, ◌<◌, ◌≡◌, inl, inr, refl, sym, subst, arith, true, Option, some, List, [],
  ◌∷◌, length, All,
}
use edgevision_gateway.Common.Bits.{shifted-bit_or}
use edgevision_gateway.Protocol.Crc.{IsByte}
use edgevision_gateway.Protocol.Modbus.{
  ModbusResponse, invalid, normal, exception, modbus_rtu_check_read_registers,
}
use edgevision_gateway.Protocol.Modbus.Response.{normal_response, check-IsAnswer, check_code}
use edgevision_gateway.Source.Stm32.{
  Query, query_no_data, query_ok, register_value, registers_of, take_registers,
}

register_value_lem :
    (high low : ℕ) → high < 256 → low < 256 → register_value high low ≡ high * 256 + low
unfolding register_value
register_value_lem high low h l =
    let small : high * 2 ^ 8 % 2 ^ 16 ≡ high * 2 ^ 8 = omega arith in
    let sum = shifted-bit_or 8 low high l in rw small (rw sum (omega arith))

-- The response of the slave with these two registers, and what the query makes of it.
abbrev pub IsReading : List ℕ → Query → Type 0
IsReading response (query_ok first second) =
    (h1 : ℕ) × (l1 : ℕ) × (h2 : ℕ) × (l2 : ℕ) × (response
      ≡ normal_response 1 4 (h1 ∷ l1 ∷ h2 ∷ l2 ∷ []))
    × (first ≡ h1 * 256 + l1)
    × (second ≡ h2 * 256 + l2)
IsReading response q = q ≡ query_no_data

read_values :
    (h1 l1 h2 l2 : ℕ) (code : Option ℕ)
    → All IsByte (normal_response 1 4 (h1 ∷ l1 ∷ h2 ∷ l2 ∷ []))
    → IsReading
        (normal_response 1 4 (h1 ∷ l1 ∷ h2 ∷ l2 ∷ []))
        (registers_of (normal_response 1 4 (h1 ∷ l1 ∷ h2 ∷ l2 ∷ [])) (normal, code))
unfolding registers_of
read_values h1 l1 h2 l2 code (b0, (b1, (b2, (c1, (d1, (c2, (d2, rest))))))) =
    (h1, l1, h2, l2, refl, register_value_lem h1 l1 c1 d1, register_value_lem h2 l2 c2 d2)

from_values :
    (response values : List ℕ) (code : Option ℕ)
    → All IsByte response
    → response ≡ normal_response 1 4 values
    → length values ≡ 4
    → IsReading response (registers_of response (normal, code))
from_values response (h1 ∷ l1 ∷ h2 ∷ l2 ∷ []) code bytes whole four =
    subst (λ t. IsReading t (registers_of t (normal, code))) (sym whole)
      (read_values h1 l1 h2 l2 code (subst (λ t. All IsByte t) whole bytes))
from_values response [] code bytes whole four = absurd (omega arith)
from_values response (a ∷ []) code bytes whole four = absurd (omega arith)
from_values response (a ∷ b ∷ []) code bytes whole four = absurd (omega arith)
from_values response (a ∷ b ∷ c ∷ []) code bytes whole four = absurd (omega arith)
from_values response (a ∷ b ∷ c ∷ d ∷ e ∷ values) code bytes whole four = absurd (omega arith)

of_result :
    (response : List ℕ) (r : ModbusResponse) (code : ℕ)
    → All IsByte response
    → modbus_rtu_check_read_registers (some response) (length response) 1 4 2 true ≡ (r, some code)
    → IsReading response (registers_of response (r, some code))
of_result response normal code bytes e =
    elim (check-IsAnswer response (length response) 1 4 2 normal code bytes refl e
      (λ x. absurd cc)) [
        | inl (is, zero_code, values, whole, size) ↦
            from_values response values (some code) bytes whole (omega (arith, size))
        | inr (is, whole) ↦ absurd cc
      ]
of_result response exception code bytes e = unfold registers_of in refl
of_result response invalid code bytes e = unfold registers_of in refl

-- Registers are taken from a response only if it is, byte for byte, the answer of slave 1 to the
-- request for its two input registers; then they are the two values in it, high byte first. Every
-- other response counts as no data.
pub take_registers-IsReading :
    (response : List ℕ) → All IsByte response → IsReading response (take_registers response)
unfolding take_registers
take_registers-IsReading response bytes =
    let (r, code, e) = check_code response (length response) 1 4 2 in
    subst (λ t. IsReading response (registers_of response t)) (sym e)
      (of_result response r code bytes e)
