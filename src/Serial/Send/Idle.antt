-- ===== src/Serial/Send/Idle.antt =====
-- serial_wait_tx_complete of modules/serial/rs485_serial.c succeeds only when the transmitter is idle.
use edgevision_gateway.Common.{
  ℕ, ◌≡◌, ◌⊎◌, inl, inr, refl, arith, true, ◌&&◌, Option, none, some, List, [], ◌∷◌, if_both, leb,
  ◌==◌, ◌!=◌,
}
use edgevision_gateway.Common.Int.{ℤ, pos, ltb_ℤ, leb_ℤ}
use edgevision_gateway.Serial.Errno.{eintr, ebadf, einval}
use edgevision_gateway.Serial.Receive.{serial_deadline_after_ms}
use edgevision_gateway.Serial.Send.{
  Done, success, failure, Look, Clock, clock_error, now_is, after_pause, after_status, at_time,
  tx_loop, tx_from, serial_wait_tx_complete,
}

-- One of the looks finds the queue and the shift register empty.
abbrev pub IsIdle : List Look → Type 0
IsIdle [] = ⊥
IsIdle (look ∷ looks) =
    ((look.status ≡ none) × (look.queued ≡ 0) × (look.is_empty ≡ true)) ⊎ IsIdle looks

after_pause-IsIdle :
    (again : Done) (looks : List Look) (sleep : Option ℕ)
    → (again ≡ success → IsIdle looks)
    → after_pause again sleep ≡ success
    → IsIdle looks
unfolding after_pause
after_pause-IsIdle again looks none ih = ih
after_pause-IsIdle again looks (some errno) ih =
    if_both (λ d. d ≡ success → IsIdle looks) (errno != eintr) _ _ (λ h e. absurd cc) (λ h. ih)

after_status-IsIdle :
    (again : Done) (look : Look) (looks : List Look) (status : Option ℕ)
    → look.status ≡ status
    → (again ≡ success → IsIdle looks)
    → after_status again look status ≡ success
    → IsIdle (look ∷ looks)
unfolding after_status
after_status-IsIdle again look looks (some errno) at ih =
    if_both (λ d. d ≡ success → IsIdle (look ∷ looks)) (errno == eintr) _ _ (λ h e. inr (ih e))
      (λ h e. absurd cc)
after_status-IsIdle again look looks none at ih =
    if_both (λ d. d ≡ success → IsIdle (look ∷ looks)) ((look.queued == 0) && look.is_empty) _ _
      (λ h e. inl (at, ground arith, ground arith))
      (λ h e. inr (after_pause-IsIdle again looks look.sleep ih e))

at_time-IsIdle :
    (again : Done) (deadline : ℕ) (look : Look) (looks : List Look) (clock : Clock)
    → (again ≡ success → IsIdle looks)
    → at_time again deadline look clock ≡ success
    → IsIdle (look ∷ looks)
unfolding at_time
at_time-IsIdle again deadline look looks (clock_error errno) ih = λ e. absurd cc
at_time-IsIdle again deadline look looks (now_is now) ih =
    if_both (λ d. d ≡ success → IsIdle (look ∷ looks)) (leb deadline now) _ _ (λ h e. absurd cc)
      (λ h. after_status-IsIdle again look looks look.status refl ih)

tx_loop-IsIdle :
    (deadline : ℕ) (looks : List Look) → tx_loop deadline looks ≡ success → IsIdle looks
unfolding tx_loop
tx_loop-IsIdle deadline [] = λ e. absurd cc
tx_loop-IsIdle deadline (look ∷ looks) =
    at_time-IsIdle (tx_loop deadline looks) deadline look looks look.clock
      (tx_loop-IsIdle deadline looks)

tx_from-IsIdle :
    (deadline : Option ℕ) (looks : List Look) → tx_from deadline looks ≡ success → IsIdle looks
unfolding tx_from
tx_from-IsIdle none looks e = absurd cc
tx_from-IsIdle (some deadline) looks e = tx_loop-IsIdle deadline looks e

pub wait-IsIdle :
    (serial_fd timeout_ms : ℤ) (clock : Clock) (looks : List Look)
    → serial_wait_tx_complete serial_fd timeout_ms clock looks ≡ success
    → IsIdle looks
unfolding serial_wait_tx_complete
wait-IsIdle serial_fd timeout_ms (clock_error errno) looks =
    if_both (λ d. d ≡ success → IsIdle looks) (ltb_ℤ serial_fd (pos 0)) (failure ebadf) _
      (λ h e. absurd cc)
      (λ h.
        if_both (λ d. d ≡ success → IsIdle looks) (leb_ℤ timeout_ms (pos 0)) (failure einval) _
          (λ k e. absurd cc) (λ k e. absurd cc))
wait-IsIdle serial_fd timeout_ms (now_is now) looks =
    if_both (λ d. d ≡ success → IsIdle looks) (ltb_ℤ serial_fd (pos 0)) (failure ebadf) _
      (λ h e. absurd cc)
      (λ h.
        if_both (λ d. d ≡ success → IsIdle looks) (leb_ℤ timeout_ms (pos 0)) (failure einval) _
          (λ k e. absurd cc)
          (λ k. tx_from-IsIdle (serial_deadline_after_ms timeout_ms (some now)) looks))
