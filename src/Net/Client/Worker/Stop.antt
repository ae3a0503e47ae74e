-- ===== src/Net/Client/Worker/Stop.antt =====
-- A request to stop ends network_client_worker.
use edgevision_gateway.Common.{◌≡◌}
use edgevision_gateway.Net.Client.{
  stopped, Client, Step, step_error, step_stop, step_ok, step_pending, waiting,
}
use edgevision_gateway.Net.Client.Worker.{Way, leave, retry, still, Outcome, ended, running}

-- What the first stage can bring: an end, or the connection.
abbrev IsTried : Step × Client → Type 0
IsTried (waiting, c) = ⊥
IsTried (step_pending, c) = ⊥
IsTried (step_error, c) = Unit
IsTried (step_stop, c) = Unit
IsTried (step_ok, c) = Unit

-- What connect_begin can bring.
abbrev IsBegun : Step × Client → Type 0
IsBegun (waiting, c) = ⊥
IsBegun (step_pending, c) = Unit
IsBegun (step_error, c) = Unit
IsBegun (step_stop, c) = Unit
IsBegun (step_ok, c) = Unit

-- The way out of a turn or stage that does not wait; another try comes where `woken` holds.
abbrev IsMoving : Type 0 → Way × Client → Type 0
IsMoving woken (leave, c) = Unit
IsMoving woken (retry, c) = woken
IsMoving woken (still, c) = ⊥

-- A thread that has returned, with the client stopped.
abbrev pub IsStopped : Outcome → Type 0
IsStopped (ended c) = c.state ≡ stopped
IsStopped (running c) = ⊥
