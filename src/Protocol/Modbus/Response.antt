-- ===== src/Protocol/Modbus/Response.antt =====
-- modbus_rtu_check_read_registers of modules/protocol/frame.c against the responses of a slave: what
-- a slave answers is accepted, and what is accepted is such an answer.
use edgevision_gateway.Common.{
  ℕ, ◌+◌, ◌-◌, ◌*◌, ◌/◌, ◌%◌, ◌≤◌, ◌<◌, ◌≡◌, ◌≢◌, refl, sym, ◌∙◌, ap, ap₂, subst, arith, true,
  false, some, List, [], ◌∷◌, ◌++◌, length, length-append, All, All-append_right, ◌⊎◌, ◌↔◌, inl,
  inr, get_or, get_or-append_right, u8, ◌!=◌, ◌==◌, if◌then◌else◌, split_pair, bit_or,
}
use edgevision_gateway.Protocol.Crc.{IsByte, crc_bytes}
use edgevision_gateway.Protocol.Crc.Residue.{frame_crc16_modbus_prefix}
use edgevision_gateway.Protocol.Frame.{read_le16}
use edgevision_gateway.Protocol.Frame.Step.{read_le16_lem}
use edgevision_gateway.Protocol.Modbus.{
  ModbusResponse, invalid, normal, exception, modbus_rtu_check_read_registers, check_frame,
  check_trailer, shape_matches, bad_expectation,
}

-- A message with its CRC behind it, low byte first.
abbrev pub with_crc : List ℕ → List ℕ
with_crc bytes = bytes ++ crc_bytes 0xFFFF bytes % 256 ∷ crc_bytes 0xFFFF bytes / 256 ∷ []

-- What a slave answers: the register values, two bytes for each, or an exception code.
abbrev pub normal_response : ℕ → ℕ → List ℕ → List ℕ
normal_response slave function values = with_crc (slave ∷ function ∷ length values ∷ values)

abbrev pub exception_response : ℕ → ℕ → ℕ → List ℕ
exception_response slave function code = with_crc (slave ∷ (function + 128) ∷ code ∷ [])

-- The arguments that a request was made with.
abbrev pub IsExpected : ℕ → ℕ → ℕ → Type 0
IsExpected slave function quantity =
    ((function ≡ 3) ⊎ (function ≡ 4))
    × (1 ≤ slave)
    × (slave ≤ 247)
    × (1 ≤ quantity)
    × (quantity ≤ 125)

bad_expectation-IsExpected :
    (len slave function quantity : ℕ)
    → (bad_expectation len slave function quantity ≡ false)
      ↔ ((5 ≤ len) × IsExpected slave function quantity)
unfolding bad_expectation
bad_expectation-IsExpected len slave function quantity = (λ h. ground arith, λ h. ground arith)

-- The function code of an exception.
exception_function :
    (function : ℕ) → (function ≡ 3) ⊎ (function ≡ 4) → u8 (bit_or function 0x80) ≡ function + 128
exception_function function (inl three) = rw three refl
exception_function function (inr four) = rw four refl

check_trailer_lem :
    (bytes : List ℕ) (lo hi function : ℕ)
    → check_trailer (bytes ++ lo ∷ hi ∷ []) (length bytes + 2) function ≡ (
        if crc_bytes 0xFFFF bytes != read_le16 lo hi
        then (invalid, 0)
        else if get_or (bytes ++ lo ∷ hi ∷ []) 1 0 == u8 (bit_or function 0x80)
        then (exception, get_or (bytes ++ lo ∷ hi ∷ []) 2 0)
        else (normal, 0))
unfolding check_trailer
check_trailer_lem bytes lo hi function =
    let data_size : length bytes + 2 - 2 ≡ length bytes = omega arith in
    let high : length bytes + 2 - 1 ≡ length bytes + 1 = omega arith in
    let at_lo : get_or (bytes ++ lo ∷ hi ∷ []) (length bytes) 0 ≡ lo =
      ap (λ (k : ℕ). get_or (bytes ++ lo ∷ hi ∷ []) k 0) {x = length bytes} {y = length bytes + 0}
        (omega arith)
      ∙ get_or-append_right bytes (lo ∷ hi ∷ []) 0 0 in
    let at_hi = get_or-append_right bytes (lo ∷ hi ∷ []) 1 0 in
    rw (data_size, high, at_lo, at_hi, frame_crc16_modbus_prefix bytes (lo ∷ hi ∷ [])) refl

-- Behind a right CRC the function code decides.
abbrev verdict : List ℕ → ℕ → ModbusResponse × ℕ
verdict bytes function =
    if get_or (with_crc bytes) 1 0 == u8 (bit_or function 0x80)
    then (exception, get_or (with_crc bytes) 2 0)
    else (normal, 0)

check_trailer-with_crc :
    (bytes : List ℕ) (function : ℕ)
    → check_trailer (with_crc bytes) (length bytes + 2) function ≡ verdict bytes function
check_trailer-with_crc bytes function =
    let crc = crc_bytes 0xFFFF bytes in
    let back = read_le16_lem (crc % 256) (crc / 256) (omega arith) in
    check_trailer_lem bytes (crc % 256) (crc / 256) function ∙ (ground arith)

-- The answer of a slave to a request, with two bytes for each register, is accepted.
pub check_frame-normal_response :
    (slave function quantity : ℕ) (values : List ℕ)
    → IsExpected slave function quantity
    → length values ≡ 2 * quantity
    → check_frame (normal_response slave function values) (5 + 2 * quantity) slave function quantity
      ≡ (normal, 0)
unfolding check_frame shape_matches
check_frame-normal_response slave function quantity values expected size =
    let fine =
      (bad_expectation-IsExpected (5 + 2 * quantity) slave function quantity).1
        (omega arith, expected) in
    let total : 5 + 2 * quantity ≡ length (slave ∷ function ∷ length values ∷ values) + 2 =
      omega arith in
    let trailer =
      ap (λ (n : ℕ). check_trailer (normal_response slave function values) n function) total
      ∙ check_trailer-with_crc (slave ∷ function ∷ length values ∷ values) function in
    ground (arith, fine, trailer, exception_function function expected.0)

-- An exception of the slave is accepted, with its code.
pub check_frame-exception_response :
    (slave function quantity code : ℕ)
    → IsExpected slave function quantity
    → check_frame (exception_response slave function code) 5 slave function quantity
      ≡ (exception, code)
unfolding check_frame shape_matches
check_frame-exception_response slave function quantity code expected =
    let fine = (bad_expectation-IsExpected 5 slave function quantity).1 (omega arith, expected) in
    let trailer = check_trailer-with_crc (slave ∷ (function + 128) ∷ code ∷ []) function in
    ground (arith, fine, trailer, exception_function function expected.0)

-- What the tests let through.
check_frame_inv :
    (frame : List ℕ) (len slave function quantity : ℕ) (r : ModbusResponse) (code : ℕ)
    → check_frame frame len slave function quantity ≡ (r, code)
    → r ≢ invalid
    → (bad_expectation len slave function quantity ≡ false)
      × (get_or frame 0 0 ≡ slave)
      × (shape_matches frame len function quantity ≡ true)
      × (check_trailer frame len function ≡ (r, code))
unfolding check_frame
check_frame_inv frame len slave function quantity r code e h = ground arith

shape_matches_inv :
    (frame : List ℕ) (len function quantity : ℕ)
    → (function ≡ 3) ⊎ (function ≡ 4)
    → shape_matches frame len function quantity ≡ true
    → ((get_or frame 1 0 ≡ function) × (get_or frame 2 0 ≡ 2 * quantity) × (len ≡ 5 + 2 * quantity))
      ⊎ ((get_or frame 1 0 ≡ function + 128) × (len ≡ 5))
unfolding shape_matches
shape_matches_inv frame len function quantity known e =
    ground (arith, exception_function function known)

check_trailer_inv :
    (bytes : List ℕ) (lo hi function : ℕ) (r : ModbusResponse) (code : ℕ)
    → lo < 256
    → check_trailer (bytes ++ lo ∷ hi ∷ []) (length bytes + 2) function ≡ (r, code)
    → r ≢ invalid
    → (bytes ++ lo ∷ hi ∷ [] ≡ with_crc bytes) × (verdict bytes function ≡ (r, code))
check_trailer_inv bytes lo hi function r code small e h =
    let value = sym (check_trailer_lem bytes lo hi function) ∙ e in
    let same : crc_bytes 0xFFFF bytes ≡ read_le16 lo hi = ground arith in
    let sum = read_le16_lem lo hi small in
    let low : lo ≡ crc_bytes 0xFFFF bytes % 256 = omega arith in
    let high : hi ≡ crc_bytes 0xFFFF bytes / 256 = omega arith in
    let whole : bytes ++ lo ∷ hi ∷ [] ≡ with_crc bytes =
      ap₂ (λ (x y : ℕ). bytes ++ x ∷ y ∷ []) low high in
    (
      whole,
      sym (check_trailer-with_crc bytes function)
          ∙ subst (λ t. check_trailer t (length bytes + 2) function ≡ (r, code)) whole e,
    )

-- An accepted response, as the slave made it.
abbrev pub IsAnswer : ℕ → ℕ → ℕ → List ℕ → ModbusResponse → ℕ → Type 0
IsAnswer slave function quantity frame r code =
    ((r ≡ normal)
      × (code ≡ 0)
      × (values : List ℕ) × (frame ≡ normal_response slave function values)
      × (length values ≡ 2 * quantity))
    ⊎ ((r ≡ exception) × (frame ≡ exception_response slave function code))

parts-IsAnswer :
    (slave function quantity : ℕ) (bytes : List ℕ) (r : ModbusResponse) (code : ℕ)
    → (function ≡ 3) ⊎ (function ≡ 4)
    → get_or (with_crc bytes) 0 0 ≡ slave
    → 3 ≤ length bytes
    → ((get_or (with_crc bytes) 1 0 ≡ function)
        × (get_or (with_crc bytes) 2 0 ≡ 2 * quantity)
        × (length bytes + 2 ≡ 5 + 2 * quantity))
      ⊎ ((get_or (with_crc bytes) 1 0 ≡ function + 128) × (length bytes + 2 ≡ 5))
    → verdict bytes function ≡ (r, code)
    → IsAnswer slave function quantity (with_crc bytes) r code
parts-IsAnswer slave function quantity [] r code known at_slave long shape value =
    absurd (omega arith)
parts-IsAnswer slave function quantity (a ∷ []) r code known at_slave long shape value =
    absurd (omega arith)
parts-IsAnswer slave function quantity (a ∷ b ∷ []) r code known at_slave long shape value =
    absurd (omega arith)
parts-IsAnswer slave function quantity (a ∷ b ∷ n ∷ values) r code known at_slave long
      (inl (code_ok, count, size)) value =
    let matching : length values ≡ n = omega arith in
    inl (
      ground (arith, exception_function function known),
      ground (arith, exception_function function known),
      values,
      ap with_crc {x = a ∷ b ∷ n ∷ values} {y = slave ∷ function ∷ length values ∷ values}
          (cc matching),
      omega arith,
    )
parts-IsAnswer slave function quantity (a ∷ b ∷ n ∷ []) r code known at_slave long
      (inr (code_ok, size)) value =
    let number : code ≡ n = ground (arith, exception_function function known) in
    inr (
      ground (arith, exception_function function known),
      ap with_crc {x = a ∷ b ∷ n ∷ []} {y = slave ∷ (function + 128) ∷ code ∷ []} (cc number),
    )
parts-IsAnswer slave function quantity (a ∷ b ∷ n ∷ v ∷ values) r code known at_slave long
      (inr (code_ok, size)) value =
    absurd (omega arith)

-- The answer of a slave to a request is accepted: two bytes for each register as normal with
-- exception code 0, an exception as such with its code.
pub check_accepts :
    (slave function quantity code : ℕ) (values : List ℕ)
    → IsExpected slave function quantity
    → length values ≡ 2 * quantity
    → (modbus_rtu_check_read_registers
          (some (normal_response slave function values))
          (5 + 2 * quantity)
          slave
          function
          quantity
          true
        ≡ (normal, some 0))
      × (modbus_rtu_check_read_registers
            (some (exception_response slave function code))
            5
            slave
            function
            quantity
            true
          ≡ (exception, some code))
unfolding modbus_rtu_check_read_registers
check_accepts slave function quantity code values expected size =
    let good = check_frame-normal_response slave function quantity values expected size in
    let bad = check_frame-exception_response slave function quantity code expected in
    (
      ap (λ (t : ModbusResponse × ℕ). (t.0, some (t.1))) good,
      ap (λ (t : ModbusResponse × ℕ). (t.0, some (t.1))) bad,
    )

-- With a pointer for it, the exception code is always written.
pub check_code :
    (frame : List ℕ) (len slave function quantity : ℕ)
    → (r : ModbusResponse) × (code : ℕ) × (modbus_rtu_check_read_registers
          (some frame)
          len
          slave
          function
          quantity
          true
        ≡ (r, some code))
unfolding modbus_rtu_check_read_registers
check_code frame len slave function quantity =
    let t = check_frame frame len slave function quantity in (t.0, t.1, refl)

-- A response that is accepted for a request, as normal or as an exception, is byte for byte what the
-- addressed slave makes: two bytes for each register that was asked for, or one exception code,
-- which is handed out.
pub check-IsAnswer :
    (frame : List ℕ) (len slave function quantity : ℕ) (r : ModbusResponse) (code : ℕ)
    → All IsByte frame
    → length frame ≡ len
    → modbus_rtu_check_read_registers (some frame) len slave function quantity true ≡ (r, some code)
    → r ≢ invalid
    → IsAnswer slave function quantity frame r code
unfolding modbus_rtu_check_read_registers
check-IsAnswer frame len slave function quantity r code bytes size e accepted =
    let (fine, at_slave, shape, trailer) =
      check_frame_inv frame len slave function quantity r code (ground arith) accepted in
    let (long, expected) = (bad_expectation-IsExpected len slave function quantity).0 fine in
    let (first, lo, hi, rest, whole, first_size) = split_pair (len - 2) frame (omega arith) in
    from_parts first lo hi rest whole first_size expected long at_slave
      (shape_matches_inv frame len function quantity expected.0 shape) trailer
  where
    from_parts :
        (first : List ℕ) (lo hi : ℕ) (rest : List ℕ)
        → frame ≡ first ++ lo ∷ hi ∷ rest
        → length first ≡ len - 2
        → IsExpected slave function quantity
        → 5 ≤ len
        → get_or frame 0 0 ≡ slave
        → ((get_or frame 1 0 ≡ function)
            × (get_or frame 2 0 ≡ 2 * quantity)
            × (len ≡ 5 + 2 * quantity))
          ⊎ ((get_or frame 1 0 ≡ function + 128) × (len ≡ 5))
        → check_trailer frame len function ≡ (r, code)
        → IsAnswer slave function quantity frame r code
    from_parts first lo hi (x ∷ rest) whole first_size expected long at_slave shape trailer =
        absurd (omega (arith, ap length whole, length-append first (lo ∷ hi ∷ x ∷ rest)))
    from_parts first lo hi [] whole first_size expected long at_slave shape trailer =
        let len_first : len ≡ length first + 2 = omega arith in
        let tail =
          All-append_right IsByte first (lo ∷ hi ∷ []) (subst (λ t. All IsByte t) whole bytes) in
        let (same, value) =
          check_trailer_inv first lo hi function r code tail.0 (rw (whole, len_first) at trailer)
            accepted in
        let is : frame ≡ with_crc first = whole ∙ same in
        subst (λ t. IsAnswer slave function quantity t r code) (sym is)
          (parts-IsAnswer slave function quantity first r code expected.0 (rw is at at_slave)
            (omega arith) (rw (is, len_first) at shape) value)
