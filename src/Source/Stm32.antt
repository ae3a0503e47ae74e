-- ===== src/Source/Stm32.antt =====
-- modules/source/stm32_modbus_source.c: one Modbus transaction brings a temperature and a humidity;
-- the second waits as the pending measurement until the next call. The structure is there. `pending`
-- stands for the fields pending and pending_valid; the buffer of the port holds only what a call
-- reads.
pub mod Registers
pub mod Sequence
mod Tests
use edgevision_gateway.Common.{
  ℕ, ◌+◌, ◌-◌, ◌*◌, ◌/◌, ◌^◌, Bool, true, false, not, ◌&&◌, ◌||◌, Option, none, some, List, [], ◌∷◌,
  ◌++◌, length, get_or, ltb, ◌==◌, ◌!=◌, if◌then◌else◌, bit_or, u8, u16, u32,
}
use edgevision_gateway.Common.Int.{ℤ, pos, negsuc, ltb_ℤ, leb_ℤ}
use edgevision_gateway.Domain.Floats.{Floats}
use edgevision_gateway.Domain.Measurement.{
  Measurement, ValidationResult, valid, measurement_validate, char_array,
}
use edgevision_gateway.Protocol.Modbus.{
  ModbusResponse, invalid, normal, exception, modbus_rtu_build_read_registers,
  modbus_rtu_check_read_registers,
}
use edgevision_gateway.Serial.Receive.{
  Round, ReadEnd, Exact, exact, complete, timed_out, canceled, failed, running,
  serial_deadline_after_ms, serial_read_exact_until_stop,
}
use edgevision_gateway.Serial.Send.{
  Port, Done, success, pending, failure, Answers, rs485_send_frame,
}
use edgevision_gateway.Source.{SourceResult, ok, no_data, error, temperature, celsius}

-- stm32_query_result_t, with the registers; `unfinished` is a call that the kernel's answers leave
-- open.
pub data Query : Type 0 where
  query_error query_no_data unfinished : Query
  query_ok : ℕ → ℕ → Query

-- Two bytes of the response as a register.
pub register_value : ℕ → ℕ → ℕ
register_value high low = u16 (bit_or (u16 (high * 2 ^ 8)) low)

-- Behind the check of a whole response.
pub registers_of : List ℕ → ModbusResponse × Option ℕ → Query
registers_of response (normal, code) =
    if length response != 9
    then query_no_data
    else query_ok (register_value (get_or response 3 0) (get_or response 4 0))
        (register_value (get_or response 5 0) (get_or response 6 0))
registers_of response (_, code) = query_no_data

pub take_registers : List ℕ → Query
take_registers response =
    registers_of response
      (modbus_rtu_check_read_registers (some response) (length response) 1 0x04 2 true)

-- How many bytes follow a header of three.
pub rest_of_response : List ℕ → Option ℕ
rest_of_response response =
    if (get_or response 0 0 == 1)
      && ((get_or response 1 0 == 0x04) && (get_or response 2 0 == 2 * 2))
    then some (get_or response 2 0 + 2)
    else if (get_or response 0 0 == 1) && (get_or response 1 0 == u8 (bit_or 0x04 0x80))
    then some 2
    else none

-- Behind a read: `next` takes the bytes of a complete one. The test of errno for ECANCELED tells `canceled`
-- from `failed`, since poll, read and clock_gettime do not set it.
pub after_part : (List ℕ → Query) → Exact → Query
after_part next (exact complete bytes) = next bytes
after_part next (exact timed_out bytes) = query_no_data
after_part next (exact canceled bytes) = query_no_data
after_part next (exact failed bytes) = query_error
after_part next (exact running bytes) = unfinished

-- real_serial_source_send of modules/source/real_serial_source.c.
pub real_serial_source_send : ℤ → Answers → List ℕ → Port → Done × Port
real_serial_source_send serial_fd answers bytes port =
    if ltb_ℤ serial_fd (pos 0)
    then (failure 19, port)
    else if length bytes == 0
    then (failure 22, port)
    else rs485_send_frame serial_fd answers bytes port

-- What a call meets: the stop callback before the request, the kernel's answers to the request, the
-- clock for the deadline, the rounds of the two reads, and the time of day in seconds and nanoseconds.
pub record Env : Type 0 where
  pub stop : Bool
  pub answers : Answers
  pub now_ns : Option ℕ
  pub head_rounds : List Round
  pub tail_rounds : List Round
  pub realtime : Option (ℤ × ℕ)

pub record Stm32Source (Double : Type 0) : Type 0 where
  pub serial_fd : ℤ
  pub timeout_ms : ℤ
  pub has_stop : Bool
  pub port : Port
  pub next_sequence : ℕ
  pub pending : Option (Measurement Double)

-- The second read, for the bytes that the header asks for.
pub read_rest : Bool → ℤ → ℕ → List Round → List ℕ → Option ℕ → Query
read_rest has_stop fd deadline_ns rounds response none = query_no_data
read_rest has_stop fd deadline_ns rounds response (some remaining) =
    after_part (λ more. take_registers (response ++ more))
      (serial_read_exact_until_stop has_stop fd true remaining (pos deadline_ns) rounds)

-- The two reads, to one deadline.
pub receive : Bool → ℤ → Env → Option ℕ → Query
receive has_stop fd env none = query_error
receive has_stop fd env (some deadline_ns) =
    after_part
      (λ response.
        read_rest has_stop fd deadline_ns env.tail_rounds response (rest_of_response response))
      (serial_read_exact_until_stop has_stop fd true 3 (pos deadline_ns) env.head_rounds)

-- Behind the request.
pub after_send : Bool → ℤ → ℤ → Env → Done × Port → Query × Port
after_send has_stop fd timeout_ms env (success, port) =
    (receive has_stop fd env (serial_deadline_after_ms timeout_ms env.now_ns), port)
after_send has_stop fd timeout_ms env (pending, port) = (unfinished, port)
after_send has_stop fd timeout_ms env (failure errno, port) = (query_error, port)

pub send_request : Bool → ℤ → ℤ → Env → Port → Option (List ℕ) → Query × Port
send_request has_stop fd timeout_ms env port none = (query_error, port)
send_request has_stop fd timeout_ms env port (some request) =
    after_send has_stop fd timeout_ms env (real_serial_source_send fd env.answers request port)

pub query_registers : Bool → ℤ → ℤ → Env → Port → Query × Port
query_registers has_stop fd timeout_ms env port =
    if has_stop && env.stop
    then (query_no_data, port)
    else send_request has_stop fd timeout_ms env port
        (modbus_rtu_build_read_registers 1 0x04 1 2 true 8)

-- realtime_milliseconds. The nanoseconds of a time are below 10^9, also behind negative seconds.
pub realtime_milliseconds : Option (ℤ × ℕ) → ℤ
realtime_milliseconds none = negsuc 0
realtime_milliseconds (some (pos tv_sec, tv_nsec)) = pos (tv_sec * 1000 + tv_nsec / 1000000)
realtime_milliseconds (some (negsuc n, tv_nsec)) = negsuc ((n + 1) * 1000 - tv_nsec / 1000000 - 1)

-- "stm32-dht11-01", "humidity" and "percent".
abbrev pub stm32_device : List ℕ
stm32_device = 115 ∷ 116 ∷ 109 ∷ 51 ∷ 50 ∷ 45 ∷ 100 ∷ 104 ∷ 116 ∷ 49 ∷ 49 ∷ 45 ∷ 48 ∷ 49 ∷ []

abbrev pub humidity : List ℕ
humidity = 104 ∷ 117 ∷ 109 ∷ 105 ∷ 100 ∷ 105 ∷ 116 ∷ 121 ∷ []

abbrev pub percent : List ℕ
percent = 112 ∷ 101 ∷ 114 ∷ 99 ∷ 101 ∷ 110 ∷ 116 ∷ []

pub is_valid : ValidationResult → Bool
is_valid valid = true
is_valid _ = false

module _ (F : Floats) where
  pub reading : ℕ → ℤ → List ℕ → List ℕ → ℕ → Measurement F.Double
  reading sequence timestamp_ms metric unit raw = record {
    schema_version = 1;
    device_id = char_array 64 stm32_device;
    sequence = sequence;
    timestamp_ms = timestamp_ms;
    metric = char_array 32 metric;
    value = F.div (F.of_uint raw) (F.of_uint 10);
    unit = char_array 16 unit;
    quality = 1;
  }

  -- The pair, if both of it are valid.
  pub valid_pair :
      Measurement F.Double
      → Measurement F.Double
      → Option (Measurement F.Double × Measurement F.Double)
  valid_pair warm damp =
      if not (is_valid (measurement_validate F.is_finite (some warm)))
        || not (is_valid (measurement_validate F.is_finite (some damp)))
      then none
      else some (warm, damp)

  pub map_measurements :
      ℕ → Option (ℤ × ℕ) → ℕ → ℕ → Option (Measurement F.Double × Measurement F.Double)
  map_measurements next_sequence realtime first second =
      let timestamp_ms = realtime_milliseconds realtime in
      let warm = reading next_sequence timestamp_ms temperature celsius first in
      let damp = reading (u32 (next_sequence + 1)) timestamp_ms humidity percent second in
      if ltb 1000 first || ltb 1000 second || (next_sequence == 0) || (next_sequence == 2 ^ 32 - 1)
      then none
      else if leb_ℤ timestamp_ms (pos 0)
      then none
      else valid_pair warm damp

  -- The rest of a call, with what map_measurements made.
  pub deliver :
      Stm32Source F.Double
      → Option (Measurement F.Double × Measurement F.Double)
      → SourceResult (Measurement F.Double) × Stm32Source F.Double
  deliver source none = (no_data, source)
  deliver source (some (warm, damp)) = (
    ok warm,
    record source { pending = some damp; next_sequence = u32 (source.next_sequence + 2) },
  )

  -- Behind the query. `none` is a call that is not finished.
  pub after_query :
      Stm32Source F.Double
      → Option (ℤ × ℕ)
      → Query
      → Option (SourceResult (Measurement F.Double) × Stm32Source F.Double)
  after_query source realtime query_error = some (error, source)
  after_query source realtime query_no_data = some (no_data, source)
  after_query source realtime unfinished = none
  after_query source realtime (query_ok first second) =
      some (deliver source (map_measurements source.next_sequence realtime first second))

  pub fresh_reading :
      Stm32Source F.Double
      → Env
      → Query × Port
      → Option (SourceResult (Measurement F.Double) × Stm32Source F.Double)
  fresh_reading source env (query, port) =
      after_query (record source { port = port }) env.realtime query

  -- Whether a measurement is pending decides.
  pub pending_or_query :
      Stm32Source F.Double
      → Env
      → Option (Measurement F.Double)
      → Option (SourceResult (Measurement F.Double) × Stm32Source F.Double)
  pending_or_query source env (some m) = some (ok m, record source { pending = none })
  pending_or_query source env none =
      fresh_reading source env
        (query_registers source.has_stop source.serial_fd source.timeout_ms env source.port)

  pub stm32_next :
      Stm32Source F.Double
      → Env
      → Option (SourceResult (Measurement F.Double) × Stm32Source F.Double)
  stm32_next source env =
      if ltb_ℤ source.serial_fd (pos 0)
      then some (error, source)
      else pending_or_query source env source.pending
