-- ===== src/Serial/Send/Tests.antt =====
-- A frame that goes out in two writes, the second interrupted once.
use edgevision_gateway.Common.{
  ℕ, ◌+◌, ◌≡◌, ◌≢◌, inl, inr, refl, arith, true, false, none, List, [], ◌∷◌,
}
use edgevision_gateway.Common.Int.{pos}
use edgevision_gateway.Serial.Errno.{eintr}
use edgevision_gateway.Serial.Send.{
  Port, pending, write_error, wrote, Look, now_is, Answers, rs485_send_frame,
}
use edgevision_gateway.Serial.Send.Direction.{IsSent, send-IsSent}
use edgevision_gateway.Serial.Send.Ends.{HasEnd, send-ends}

abbrev request : List ℕ
request = 1 ∷ 4 ∷ 0 ∷ []

abbrev open_port : Port
open_port = record { line_fd = pos 6; is_tx = false; sent = []; flushes = 0 }

abbrev look_at : ℕ → ℕ → Look
look_at now queued = record {
  clock = now_is now;
  status = none;
  queued = queued;
  is_empty = true;
  sleep = none;
}

abbrev looks_from : ℕ → List Look
looks_from now = look_at now 2 ∷ look_at (now + 60000) 0 ∷ look_at (now + 100000000) 0 ∷ []

abbrev answers : Answers
answers = record {
  clock_before = now_is 0;
  looks_before = looks_from 0;
  set_tx = none;
  writes = wrote 2 ∷ write_error eintr ∷ wrote 1 ∷ wrote 1 ∷ [];
  clock_after = now_is 200000;
  looks_after = looks_from 200000;
  set_rx = none;
}

looks-HasEnd : (start : ℕ) → HasEnd (now_is start) (looks_from start)
looks-HasEnd start now e =
    let same : start ≡ now = cc in inr (inr (inl (start + 100000000, refl, omega (arith, same))))

send-IsSent_example :
    IsSent answers request open_port (rs485_send_frame (pos 5) answers request open_port)
send-IsSent_example = send-IsSent (pos 5) answers request open_port 6 refl refl

send-ends_example : (rs485_send_frame (pos 5) answers request open_port).0 ≢ pending
send-ends_example =
    send-ends (pos 5) answers request open_port (looks-HasEnd 0) (looks-HasEnd 200000) (omega arith)
