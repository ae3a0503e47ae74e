-- ===== src/Serial/Send/Written.antt =====
-- serial_write_full of modules/serial/rs485_serial.c: what it hands to the driver.
use edgevision_gateway.Common.{
  ℕ, zero, suc, ◌≡◌, refl, sym, ap, ◌∙◌, List, [], ◌∷◌, ◌++◌, append-nil, append_assoc, take, drop,
  take-append-drop, if_both, ◌==◌,
}
use edgevision_gateway.Common.Int.{ℤ, pos, ltb_ℤ}
use edgevision_gateway.Serial.Errno.{eintr, eio, ebadf}
use edgevision_gateway.Serial.Send.{
  Port, Done, success, pending, failure, Write, write_error, wrote, after_write, write_loop,
  serial_write_full,
}

-- The front of `bytes` was sent, all of it if the call succeeds.
abbrev pub IsWritten : List ℕ → Port → Done × Port → Type 0
IsWritten bytes before (result, after) =
    (front : List ℕ) × (rest : List ℕ) × (bytes ≡ front ++ rest)
    × (after ≡ record before { sent = before.sent ++ front })
    × (result ≡ success → rest ≡ [])

none-IsWritten :
    (bytes : List ℕ) (port : Port) (result : Done)
    → (result ≡ success → bytes ≡ [])
    → IsWritten bytes port (result, port)
none-IsWritten bytes port result h =
    ([], bytes, refl, ap (λ s. record port { sent = s }) (sym (append-nil port.sent)), h)

IsWritten-more :
    (n : ℕ) (bytes : List ℕ) (port : Port) (r : Done × Port)
    → IsWritten (drop n bytes) (record port { sent = port.sent ++ take n bytes }) r
    → IsWritten bytes port r
IsWritten-more n bytes port r (front, rest, split, after, whole) = (
  take n bytes ++ front,
  rest,
  sym (take-append-drop n bytes)
      ∙ (ap (λ t. take n bytes ++ t) split)
      ∙ sym (append_assoc (take n bytes) front rest),
  after ∙ ap (λ s. record port { sent = s }) (append_assoc port.sent (take n bytes) front),
  whole,
)

after_write-IsWritten :
    (again : List ℕ → Port → Done × Port) (b : ℕ) (bytes : List ℕ) (port : Port) (write : Write)
    → ((left : List ℕ) (p : Port) → IsWritten left p (again left p))
    → IsWritten (b ∷ bytes) port (after_write again (b ∷ bytes) port write)
unfolding after_write
after_write-IsWritten again b bytes port (write_error errno) ih =
    if_both (IsWritten (b ∷ bytes) port) (errno == eintr) _ _ (λ h. ih (b ∷ bytes) port)
      (λ h. none-IsWritten (b ∷ bytes) port (failure errno) (λ e. cc))
after_write-IsWritten again b bytes port (wrote zero) ih =
    none-IsWritten (b ∷ bytes) port (failure eio) (λ e. cc)
after_write-IsWritten again b bytes port (wrote (suc n)) ih =
    IsWritten-more (suc n) (b ∷ bytes) port _ (ih _ _)

write_loop-IsWritten :
    (writes : List Write) (bytes : List ℕ) (port : Port)
    → IsWritten bytes port (write_loop writes bytes port)
unfolding write_loop
write_loop-IsWritten [] [] port = none-IsWritten [] port success (λ e. refl)
write_loop-IsWritten (write ∷ writes) [] port = none-IsWritten [] port success (λ e. refl)
write_loop-IsWritten [] (b ∷ bytes) port = none-IsWritten (b ∷ bytes) port pending (λ e. cc)
write_loop-IsWritten (write ∷ writes) (b ∷ bytes) port =
    after_write-IsWritten (write_loop writes) b bytes port write (write_loop-IsWritten writes)

pub write_full-IsWritten :
    (serial_fd : ℤ) (writes : List Write) (bytes : List ℕ) (port : Port)
    → IsWritten bytes port (serial_write_full serial_fd writes bytes port)
unfolding serial_write_full
write_full-IsWritten serial_fd writes bytes port =
    if_both (IsWritten bytes port) (ltb_ℤ serial_fd (pos 0)) _ _
      (λ h. none-IsWritten bytes port (failure ebadf) (λ e. cc))
      (λ h. write_loop-IsWritten writes bytes port)
