-- ===== src/Serial/Send/Direction.antt =====
-- rs485_send_frame of modules/serial/rs485_serial.c: what it sends, and that it leaves the direction
-- line in RX.
use edgevision_gateway.Common.{
  ℕ, ◌+◌, ◌≡◌, ◌≢◌, refl, sym, ap, ◌∙◌, arith, ltb-false, Bool, true, false, Option, none, some,
  List, [], ◌++◌, append-nil,
}
use edgevision_gateway.Common.Int.{ℤ, pos, ltb_ℤ}
use edgevision_gateway.Serial.Send.{
  Port, Done, success, pending, failure, Answers, restore, sent_out, written, in_tx, line_free,
  rs485_send_frame, rse_control_set_value, rse_control_set_tx, rse_control_set_rx,
}
use edgevision_gateway.Serial.Send.Written.{IsWritten, write_full-IsWritten}
use edgevision_gateway.Serial.Send.Idle.{IsIdle, wait-IsIdle}

-- How a call ends: in RX if it has ended, with the front of the frame sent, with all of it if it
-- succeeds, and then the transmitter was found idle before and behind the frame.
abbrev pub IsSent : Answers → List ℕ → Port → Done × Port → Type 0
IsSent answers frame before (result, after) =
    (result ≢ pending → after.is_tx ≡ false)
    × ((front : List ℕ) × (rest : List ℕ) × (frame ≡ front ++ rest)
        × (after.sent ≡ before.sent ++ front)
        × (result ≡ success → rest ≡ []))
    × (result ≡ success → IsIdle answers.looks_before × IsIdle answers.looks_after)

line_open : (line : ℕ) (port : Port) → port.line_fd ≡ pos line → ltb_ℤ port.line_fd (pos 0) ≡ false
line_open line port h = rw h (ltb-false (line + 0) 0 (omega arith))

set_value_works :
    (value : Bool) (line : ℕ) (port : Port)
    → port.line_fd ≡ pos line
    → rse_control_set_value value none port ≡ (success, record port { is_tx = value })
unfolding rse_control_set_value
set_value_works value line port h = rw (line_open line port h) refl

module _ (answers : Answers) (frame : List ℕ) (before : Port) (line : ℕ)
    (works : answers.set_rx ≡ none) where
  restore-IsSent :
      (tx_started : Bool) (errno : ℕ) (port : Port) (front rest : List ℕ)
      → port.line_fd ≡ pos line
      → frame ≡ front ++ rest
      → port.sent ≡ before.sent ++ front
      → IsSent answers frame before (restore tx_started answers.set_rx errno port)
  unfolding restore rse_control_set_rx
  restore-IsSent true errno port front rest has_line split sent =
      rw (works, set_value_works false line (record port { flushes = port.flushes + 1 }) has_line)
        (λ h. refl, (front, rest, split, sent, λ e. absurd cc), λ e. absurd cc)
  restore-IsSent false errno port front rest has_line split sent =
      rw (works, set_value_works false line port has_line)
        (λ h. refl, (front, rest, split, sent, λ e. absurd cc), λ e. absurd cc)

  sent_out-IsSent :
      (port : Port) (d : Done)
      → port.line_fd ≡ pos line
      → port.sent ≡ before.sent ++ frame
      → IsIdle answers.looks_before
      → (d ≡ success → IsIdle answers.looks_after)
      → IsSent answers frame before (sent_out answers port d)
  unfolding sent_out rse_control_set_rx
  sent_out-IsSent port success has_line sent idle idle_after =
      rw (works, set_value_works false line port has_line)
        (
          λ h. refl,
          (frame, [], sym (append-nil frame), sent, λ e. refl),
          λ e. (idle, idle_after refl),
        )
  sent_out-IsSent port pending has_line sent idle idle_after =
      (λ h. absurd (h refl), (frame, [], sym (append-nil frame), sent, λ e. refl), λ e. absurd cc)
  sent_out-IsSent port (failure errno) has_line sent idle idle_after =
      restore-IsSent true errno port frame [] has_line (sym (append-nil frame)) sent

  written-IsSent :
      (serial_fd : ℤ) (start : Port) (r : Done × Port)
      → start.line_fd ≡ pos line
      → start.sent ≡ before.sent
      → IsIdle answers.looks_before
      → IsWritten frame start r
      → IsSent answers frame before (written serial_fd answers r)
  unfolding written
  written-IsSent serial_fd start (success, port) has_line sent idle
        (front, rest, split, after, whole) =
      let all : front ≡ frame =
        sym (append-nil front) ∙ ap (λ t. front ++ t) (sym (whole refl)) ∙ sym split in
      sent_out-IsSent port _ (ap (λ p. p.line_fd) after ∙ has_line) (rw after (rw (all, sent) refl))
        idle (wait-IsIdle serial_fd (pos 100) _ _)
  written-IsSent serial_fd start (pending, port) has_line sent idle
        (front, rest, split, after, whole) =
      (
        λ h. absurd (h refl),
        (front, rest, split, rw after (rw sent refl), λ e. absurd cc),
        λ e. absurd cc,
      )
  written-IsSent serial_fd start (failure errno, port) has_line sent idle
        (front, rest, split, after, whole) =
      restore-IsSent true errno port front rest (ap (λ p. p.line_fd) after ∙ has_line) split
        (rw after (rw sent refl))

  in_tx-IsSent :
      (serial_fd : ℤ) (set_tx : Option ℕ)
      → before.line_fd ≡ pos line
      → IsIdle answers.looks_before
      → IsSent answers frame before
          (in_tx serial_fd answers frame (rse_control_set_value true set_tx before))
  unfolding in_tx
  in_tx-IsSent serial_fd none has_line idle = rw (set_value_works true line before has_line) (
      written-IsSent serial_fd (record before { is_tx = true }) _ has_line refl idle
        (write_full-IsWritten serial_fd answers.writes frame (record before { is_tx = true })))
  in_tx-IsSent serial_fd (some errno) has_line idle =
      let fails : rse_control_set_value true (some errno) before ≡ (failure errno, before) =
        unfold rse_control_set_value in rw (line_open line before has_line) refl in
      rw fails
        (restore-IsSent false errno before [] frame has_line refl (sym (append-nil before.sent)))

  line_free-IsSent :
      (serial_fd : ℤ) (d : Done)
      → before.line_fd ≡ pos line
      → (d ≡ success → IsIdle answers.looks_before)
      → IsSent answers frame before (line_free serial_fd answers frame before d)
  unfolding line_free rse_control_set_tx
  line_free-IsSent serial_fd success has_line idle =
      in_tx-IsSent serial_fd answers.set_tx has_line (idle refl)
  line_free-IsSent serial_fd pending has_line idle = (
    λ h. absurd (h refl),
    ([], frame, refl, sym (append-nil before.sent), λ e. absurd cc),
    λ e. absurd cc,
  )
  line_free-IsSent serial_fd (failure errno) has_line idle =
      restore-IsSent false errno before [] frame has_line refl (sym (append-nil before.sent))

-- A call with a line that is open and an ioctl that sets it to RX when asked: however the call ends,
-- the line is in RX behind it. What was sent is a front of the frame, with nothing in between. If
-- the call succeeds, all of the frame was sent, and the transmitter was found idle both before the
-- line went to TX and before it went back.
pub send-IsSent :
    (serial_fd : ℤ) (answers : Answers) (frame : List ℕ) (port : Port) (line : ℕ)
    → port.line_fd ≡ pos line
    → answers.set_rx ≡ none
    → IsSent answers frame port (rs485_send_frame serial_fd answers frame port)
unfolding rs485_send_frame
send-IsSent serial_fd answers frame port line has_line works =
    line_free-IsSent answers frame port line works serial_fd _ has_line
      (wait-IsIdle serial_fd (pos 100) _ _)
