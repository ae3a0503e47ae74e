-- ===== src/Source/RealSerial.antt =====
-- real_serial_source_read of modules/source/real_serial_source.c: one read of a fixed number of bytes
-- from the port. The structure is there.
use edgevision_gateway.Common.{ℕ, Bool, true, ◌||◌, Option, List, [], ltb, ◌==◌, if◌then◌else◌}
use edgevision_gateway.Common.Int.{ℤ, pos, ltb_ℤ, leb_ℤ}
use edgevision_gateway.Serial.Receive.{
  Round, Exact, exact, complete, timed_out, canceled, failed, running,
  serial_read_exact_timeout_stop,
}

-- REAL_SERIAL_SOURCE_COMPLETE, …_TIMEOUT, …_CANCELED and …_ERROR; `unfinished` is a call that the
-- kernel's answers leave open.
pub data RealSerialResult : Type 0 where
  complete_read timeout_read canceled_read error_read unfinished : RealSerialResult

pub of_exact : Exact → RealSerialResult × List ℕ
of_exact (exact complete bytes) = (complete_read, bytes)
of_exact (exact timed_out bytes) = (timeout_read, bytes)
of_exact (exact canceled bytes) = (canceled_read, bytes)
of_exact (exact failed bytes) = (error_read, bytes)
of_exact (exact running bytes) = (unfinished, bytes)

-- `capacity` is the size of the buffer. The bytes are those that `received` counts.
pub real_serial_source_read :
    Bool → ℤ → ℕ → ℕ → ℤ → Option ℕ → List Round → RealSerialResult × List ℕ
real_serial_source_read has_stop serial_fd capacity receive_length timeout_ms now_ns rounds =
    if ltb_ℤ serial_fd (pos 0)
    then (error_read, [])
    else if (receive_length == 0) || ltb capacity receive_length || leb_ℤ timeout_ms (pos 0)
    then (error_read, [])
    else of_exact (
        serial_read_exact_timeout_stop has_stop serial_fd true receive_length timeout_ms now_ns
          rounds)
