-- ===== src/Serial/Send/Ends.antt =====
-- rs485_send_frame of modules/serial/rs485_serial.c comes to an end: its two waits have deadlines, and
-- each write that is not interrupted takes a byte or ends the loop.
use edgevision_gateway.Common.{
  ℕ, zero, suc, ◌+◌, ◌≤◌, ◌≡◌, ◌≢◌, ◌⊎◌, inl, inr, refl, subst, arith, Bool, true, false, ◌&&◌,
  Option, none, some, List, [], ◌∷◌, length, drop, length-drop, if_both, leb, ◌==◌, ◌!=◌,
  if◌then◌else◌,
}
use edgevision_gateway.Common.Int.{ℤ, pos, ltb_ℤ}
use edgevision_gateway.Serial.Errno.{eintr, ebadf, einval}
use edgevision_gateway.Serial.Receive.{serial_deadline_after_ms}
use edgevision_gateway.Serial.Receive.Amount.{deadline_after_lem}
use edgevision_gateway.Serial.Send.{
  Port, Done, success, pending, failure, Write, write_error, wrote, after_write, write_loop,
  serial_write_full, Look, Clock, clock_error, now_is, after_pause, after_status, at_time, tx_loop,
  tx_from, serial_wait_tx_complete, Answers, restore, sent_out, written, in_tx, line_free,
  rs485_send_frame, rse_control_set_value, rse_control_set_tx, rse_control_set_rx,
}

-- In one of the looks, the clock is at the deadline or behind it.
abbrev pub IsOver : ℕ → List Look → Type 0
IsOver deadline [] = ⊥
IsOver deadline (look ∷ looks) =
    ((t : ℕ) × (look.clock ≡ now_is t) × (deadline ≤ t)) ⊎ IsOver deadline looks

-- The answers of write that are not EINTR.
abbrev pub not_interrupted : List Write → ℕ
not_interrupted [] = 0
not_interrupted (write_error errno ∷ writes) =
    if errno == eintr then not_interrupted writes else suc (not_interrupted writes)
not_interrupted (wrote n ∷ writes) = suc (not_interrupted writes)

write_loop-ends :
    (writes : List Write) (bytes : List ℕ) (port : Port)
    → length bytes ≤ not_interrupted writes
    → (write_loop writes bytes port).0 ≢ pending
unfolding write_loop after_write
write_loop-ends [] [] port h = λ e. absurd cc
write_loop-ends (write ∷ writes) [] port h = λ e. absurd cc
write_loop-ends [] (b ∷ bytes) port h = absurd (omega arith)
write_loop-ends (write_error errno ∷ writes) (b ∷ bytes) port h =
    if_both (λ (r : Done × Port). r.0 ≢ pending) (errno == eintr) _ _
      (λ k. write_loop-ends writes (b ∷ bytes) port (ground arith)) (λ k e. absurd cc)
write_loop-ends (wrote zero ∷ writes) (b ∷ bytes) port h = λ e. absurd cc
write_loop-ends (wrote (suc n) ∷ writes) (b ∷ bytes) port h =
    write_loop-ends writes (drop n bytes) _ (omega (arith, length-drop n bytes))

write_full-ends :
    (serial_fd : ℤ) (writes : List Write) (bytes : List ℕ) (port : Port)
    → length bytes ≤ not_interrupted writes
    → (serial_write_full serial_fd writes bytes port).0 ≢ pending
unfolding serial_write_full
write_full-ends serial_fd writes bytes port h =
    if_both (λ (r : Done × Port). r.0 ≢ pending) (ltb_ℤ serial_fd (pos 0)) _ _ (λ k e. absurd cc)
      (λ k. write_loop-ends writes bytes port h)

after_pause-ends :
    (again : Done) (sleep : Option ℕ) → again ≢ pending → after_pause again sleep ≢ pending
unfolding after_pause
after_pause-ends again none h = h
after_pause-ends again (some errno) h =
    if_both (λ d. d ≢ pending) (errno != eintr) _ _ (λ k e. absurd cc) (λ k. h)

after_status-ends :
    (again : Done) (look : Look) (status : Option ℕ)
    → again ≢ pending
    → after_status again look status ≢ pending
unfolding after_status
after_status-ends again look (some errno) h =
    if_both (λ d. d ≢ pending) (errno == eintr) _ _ (λ k. h) (λ k e. absurd cc)
after_status-ends again look none h =
    if_both (λ d. d ≢ pending) ((look.queued == 0) && look.is_empty) _ _ (λ k e. absurd cc)
      (λ k. after_pause-ends again look.sleep h)

at_time-ends :
    (again : Done) (deadline : ℕ) (look : Look) (looks : List Look) (clock : Clock)
    → look.clock ≡ clock
    → IsOver deadline (look ∷ looks)
    → (IsOver deadline looks → again ≢ pending)
    → at_time again deadline look clock ≢ pending
unfolding at_time
at_time-ends again deadline look looks (clock_error errno) at over ih = λ e. absurd cc
at_time-ends again deadline look looks (now_is now) at (inl (t, clock, late)) ih =
    let same : now ≡ t = cc in
    if_both (λ d. d ≢ pending) (leb deadline now) _ _ (λ k e. absurd cc)
      (λ k. absurd (ground arith))
at_time-ends again deadline look looks (now_is now) at (inr over) ih =
    if_both (λ d. d ≢ pending) (leb deadline now) _ _ (λ k e. absurd cc)
      (λ k. after_status-ends again look look.status (ih over))

tx_loop-ends :
    (deadline : ℕ) (looks : List Look) → IsOver deadline looks → tx_loop deadline looks ≢ pending
unfolding tx_loop
tx_loop-ends deadline [] over = absurd over
tx_loop-ends deadline (look ∷ looks) over =
    at_time-ends (tx_loop deadline looks) deadline look looks look.clock refl over
      (tx_loop-ends deadline looks)

-- 100 milliseconds behind the first clock, another clock was read.
abbrev pub HasEnd : Clock → List Look → Type 0
HasEnd clock looks = (now : ℕ) → clock ≡ now_is now → IsOver (now + 100000000) looks

from_deadline :
    (now : ℕ) (looks : List Look) (made : Option ℕ)
    → serial_deadline_after_ms (pos 100) (some now) ≡ made
    → IsOver (now + 100000000) looks
    → tx_from made looks ≢ pending
unfolding tx_from
from_deadline now looks none made over = λ e. absurd cc
from_deadline now looks (some deadline) made over =
    let (positive, fits, at) = (deadline_after_lem 100 now deadline (omega arith)).0 made in
    let same : now + 100000000 ≡ deadline = omega (arith, at) in
    tx_loop-ends deadline looks (subst (λ t. IsOver t looks) same over)

wait-ends :
    (serial_fd : ℤ) (clock : Clock) (looks : List Look)
    → HasEnd clock looks
    → serial_wait_tx_complete serial_fd (pos 100) clock looks ≢ pending
unfolding serial_wait_tx_complete
wait-ends serial_fd (clock_error errno) looks over =
    if_both (λ d. d ≢ pending) (ltb_ℤ serial_fd (pos 0)) (failure ebadf) _ (λ k e. absurd cc)
      (λ k e. absurd cc)
wait-ends serial_fd (now_is now) looks over =
    if_both (λ d. d ≢ pending) (ltb_ℤ serial_fd (pos 0)) (failure ebadf) _ (λ k e. absurd cc)
      (λ k. from_deadline now looks _ refl (over now refl))

set_value-ends :
    (value : Bool) (answer : Option ℕ) (port : Port)
    → (rse_control_set_value value answer port).0 ≢ pending
unfolding rse_control_set_value
set_value-ends value none port =
    if_both (λ (r : Done × Port). r.0 ≢ pending) (ltb_ℤ port.line_fd (pos 0)) (failure einval, port)
      _ (λ k e. absurd cc) (λ k e. absurd cc)
set_value-ends value (some errno) port =
    if_both (λ (r : Done × Port). r.0 ≢ pending) (ltb_ℤ port.line_fd (pos 0)) (failure einval, port)
      _ (λ k e. absurd cc) (λ k e. absurd cc)

sent_out-ends :
    (answers : Answers) (port : Port) (d : Done)
    → d ≢ pending
    → (sent_out answers port d).0 ≢ pending
unfolding sent_out rse_control_set_rx restore
sent_out-ends answers port success h = set_value-ends false answers.set_rx port
sent_out-ends answers port pending h = absurd (h refl)
sent_out-ends answers port (failure errno) h = λ e. absurd cc

written-ends :
    (serial_fd : ℤ) (answers : Answers) (r : Done × Port)
    → r.0 ≢ pending
    → HasEnd answers.clock_after answers.looks_after
    → (written serial_fd answers r).0 ≢ pending
unfolding written restore
written-ends serial_fd answers (success, port) h over =
    sent_out-ends answers port _ (wait-ends serial_fd answers.clock_after answers.looks_after over)
written-ends serial_fd answers (pending, port) h over = absurd (h refl)
written-ends serial_fd answers (failure errno, port) h over = λ e. absurd cc

in_tx-ends :
    (serial_fd : ℤ) (answers : Answers) (frame : List ℕ) (r : Done × Port)
    → r.0 ≢ pending
    → length frame ≤ not_interrupted answers.writes
    → HasEnd answers.clock_after answers.looks_after
    → (in_tx serial_fd answers frame r).0 ≢ pending
unfolding in_tx restore
in_tx-ends serial_fd answers frame (success, port) h enough over =
    written-ends serial_fd answers _ (write_full-ends serial_fd answers.writes frame port enough)
      over
in_tx-ends serial_fd answers frame (pending, port) h enough over = absurd (h refl)
in_tx-ends serial_fd answers frame (failure errno, port) h enough over = λ e. absurd cc

line_free-ends :
    (serial_fd : ℤ) (answers : Answers) (frame : List ℕ) (port : Port) (d : Done)
    → d ≢ pending
    → length frame ≤ not_interrupted answers.writes
    → HasEnd answers.clock_after answers.looks_after
    → (line_free serial_fd answers frame port d).0 ≢ pending
unfolding line_free restore rse_control_set_tx
line_free-ends serial_fd answers frame port success h enough over =
    in_tx-ends serial_fd answers frame _ (set_value-ends true answers.set_tx port) enough over
line_free-ends serial_fd answers frame port pending h enough over = absurd (h refl)
line_free-ends serial_fd answers frame port (failure errno) h enough over = λ e. absurd cc

-- A call ends if, in each of its two waits, the clock is read once more 100 ms after its first
-- reading or later, and if as many calls of write as the frame has bytes are not interrupted.
pub send-ends :
    (serial_fd : ℤ) (answers : Answers) (frame : List ℕ) (port : Port)
    → HasEnd answers.clock_before answers.looks_before
    → HasEnd answers.clock_after answers.looks_after
    → length frame ≤ not_interrupted answers.writes
    → (rs485_send_frame serial_fd answers frame port).0 ≢ pending
unfolding rs485_send_frame
send-ends serial_fd answers frame port over_before over_after enough =
    line_free-ends serial_fd answers frame port _
      (wait-ends serial_fd answers.clock_before answers.looks_before over_before) enough over_after
