-- ===== src/Serial/Send.antt =====
-- Sending in modules/serial/rs485_serial.c: serial_write_full, serial_wait_tx_complete and
-- rs485_send_frame, with the direction line of modules/serial/rse_control.c. The state of the port is
-- the level of the line and the bytes handed to the driver. What the calls of the kernel answer is
-- given in lists, one member for each call. File descriptors are there.
pub mod Written
pub mod Idle
pub mod Direction
pub mod Ends
mod Tests
use edgevision_gateway.Common.{
  ℕ, zero, suc, ◌+◌, ◌-◌, Bool, true, false, not, ◌&&◌, ◌||◌, Option, none, some, List, [], ◌∷◌,
  ◌++◌, length, take, drop, ltb, leb, ◌==◌, ◌!=◌, if◌then◌else◌,
}
use edgevision_gateway.Common.Int.{ℤ, pos, ltb_ℤ, leb_ℤ}
use edgevision_gateway.Serial.Errno.{eintr, eio, ebadf, einval, eoverflow, etimedout}
use edgevision_gateway.Serial.Receive.{serial_deadline_after_ms}

-- `is_tx` is the level of the line: TX is 1 and RX is 0. `sent` is what write took, in order;
-- `flushes` counts the calls of tcflush.
pub record Port : Type 0 where
  pub line_fd : ℤ
  pub is_tx : Bool
  pub sent : List ℕ
  pub flushes : ℕ

-- A call that returns 0, or -1 with errno; `pending` has no answer from the kernel left.
pub data Done : Type 0 where
  success pending : Done
  failure : ℕ → Done

-- rse_control_set_value, with the answer of ioctl.
pub rse_control_set_value : Bool → Option ℕ → Port → Done × Port
rse_control_set_value value answer port =
    if ltb_ℤ port.line_fd (pos 0) then (failure einval, port) else elim answer [
      | none ↦ (success, record port { is_tx = value })
      | some errno ↦ (failure errno, port)
    ]

pub rse_control_set_tx : Option ℕ → Port → Done × Port
rse_control_set_tx answer port = rse_control_set_value true answer port

pub rse_control_set_rx : Option ℕ → Port → Done × Port
rse_control_set_rx answer port = rse_control_set_value false answer port

-- A return of write: -1 with errno, or the number of bytes taken.
pub data Write : Type 0 where
  write_error : ℕ → Write
  wrote : ℕ → Write

-- What the loop of serial_write_full does with a return of write; `again` goes on with the bytes left.
pub after_write : (List ℕ → Port → Done × Port) → List ℕ → Port → Write → Done × Port
after_write again bytes port (write_error errno) =
    if errno == eintr then again bytes port else (failure errno, port)
after_write again bytes port (wrote zero) = (failure eio, port)
after_write again bytes port (wrote (suc n)) =
    again (drop (suc n) bytes) (record port { sent = port.sent ++ take (suc n) bytes })

-- The loop of serial_write_full, on the bytes that are left.
pub write_loop : List Write → List ℕ → Port → Done × Port
write_loop writes [] port = (success, port)
write_loop [] (b ∷ bytes) port = (pending, port)
write_loop (write ∷ writes) (b ∷ bytes) port =
    after_write (write_loop writes) (b ∷ bytes) port write

pub serial_write_full : ℤ → List Write → List ℕ → Port → Done × Port
serial_write_full serial_fd writes bytes port =
    if ltb_ℤ serial_fd (pos 0) then (failure ebadf, port) else write_loop writes bytes port

-- clock_gettime: -1 with errno, or nanoseconds.
pub data Clock : Type 0 where
  clock_error now_is : ℕ → Clock

-- One look at the transmitter: the clock, the answers of the two ioctls, and of nanosleep.
pub record Look : Type 0 where
  pub clock : Clock
  pub status : Option ℕ
  pub queued : ℕ
  pub is_empty : Bool
  pub sleep : Option ℕ

-- nanosleep behind a look that found bytes on their way.
pub after_pause : Done → Option ℕ → Done
after_pause again none = again
after_pause again (some errno) = if errno != eintr then failure errno else again

-- The rest of a look, with the errno of the ioctls, if one failed.
pub after_status : Done → Look → Option ℕ → Done
after_status again look (some errno) = if errno == eintr then again else failure errno
after_status again look none =
    if (look.queued == 0) && look.is_empty then success else after_pause again look.sleep

pub at_time : Done → ℕ → Look → Clock → Done
at_time again deadline look (clock_error errno) = failure errno
at_time again deadline look (now_is now) =
    if leb deadline now then failure etimedout else after_status again look look.status

-- The loop of serial_wait_tx_complete.
pub tx_loop : ℕ → List Look → Done
tx_loop deadline [] = pending
tx_loop deadline (look ∷ looks) = at_time (tx_loop deadline looks) deadline look look.clock

-- The loop behind the call of serial_deadline_after_ms, which sets errno to EOVERFLOW where it fails
-- for a positive timeout.
pub tx_from : Option ℕ → List Look → Done
tx_from none looks = failure eoverflow
tx_from (some deadline) looks = tx_loop deadline looks

-- `clock` answers the first call of clock_gettime.
pub serial_wait_tx_complete : ℤ → ℤ → Clock → List Look → Done
serial_wait_tx_complete serial_fd timeout_ms clock looks =
    if ltb_ℤ serial_fd (pos 0)
    then failure ebadf
    else if leb_ℤ timeout_ms (pos 0)
    then failure einval
    else elim clock [
      | clock_error errno ↦ failure errno
      | now_is now ↦ tx_from (serial_deadline_after_ms timeout_ms (some now)) looks
    ]

-- What the kernel answers in one call of rs485_send_frame.
pub record Answers : Type 0 where
  pub clock_before : Clock
  pub looks_before : List Look
  pub set_tx : Option ℕ
  pub writes : List Write
  pub clock_after : Clock
  pub looks_after : List Look
  pub set_rx : Option ℕ

-- restore_after_error, with `tx_started`, the answer of the last ioctl and the saved errno.
pub restore : Bool → Option ℕ → ℕ → Port → Done × Port
restore tx_started set_rx errno port =
    let flushed = if tx_started then record port { flushes = port.flushes + 1 } else port in
    (failure errno, (rse_control_set_rx set_rx flushed).1)

-- rs485_send_frame behind its second wait.
pub sent_out : Answers → Port → Done → Done × Port
sent_out answers port success = rse_control_set_rx answers.set_rx port
sent_out answers port pending = (pending, port)
sent_out answers port (failure errno) = restore true answers.set_rx errno port

-- Behind serial_write_full.
pub written : ℤ → Answers → Done × Port → Done × Port
written serial_fd answers (success, port) =
    sent_out answers port
      (serial_wait_tx_complete serial_fd (pos 100) answers.clock_after answers.looks_after)
written serial_fd answers (pending, port) = (pending, port)
written serial_fd answers (failure errno, port) = restore true answers.set_rx errno port

-- Behind rse_control_set_tx.
pub in_tx : ℤ → Answers → List ℕ → Done × Port → Done × Port
in_tx serial_fd answers frame (success, port) =
    written serial_fd answers (serial_write_full serial_fd answers.writes frame port)
in_tx serial_fd answers frame (pending, port) = (pending, port)
in_tx serial_fd answers frame (failure errno, port) = restore false answers.set_rx errno port

-- Behind the first wait.
pub line_free : ℤ → Answers → List ℕ → Port → Done → Done × Port
line_free serial_fd answers frame port success =
    in_tx serial_fd answers frame (rse_control_set_tx answers.set_tx port)
line_free serial_fd answers frame port pending = (pending, port)
line_free serial_fd answers frame port (failure errno) = restore false answers.set_rx errno port

pub rs485_send_frame : ℤ → Answers → List ℕ → Port → Done × Port
rs485_send_frame serial_fd answers frame port =
    line_free serial_fd answers frame port
      (serial_wait_tx_complete serial_fd (pos 100) answers.clock_before answers.looks_before)
