-- ===== src/Net/Client/Worker.antt =====
-- connected_loop, backoff_wait and network_client_worker of modules/net/network_client.c.
pub mod Owned
pub mod Clean
pub mod Woken
pub mod Stop
mod Tests
use edgevision_gateway.Common.{
  ℕ, ◌+◌, ◌-◌, ◌^◌, Bool, true, false, not, ◌&&◌, ◌||◌, Option, none, some, List, [], ◌∷◌, ◌++◌,
  ltb, leb, ◌==◌, if◌then◌else◌,
}
use edgevision_gateway.Common.Int.{ℤ, pos, negsuc}
use edgevision_gateway.Net.Backoff.{to_int, backoff_timeout}
use edgevision_gateway.Net.Client.{
  ClientState, stopped, connecting, connected, backoff, stopping, Config, Client, Step, step_error,
  step_stop, step_ok, step_pending, waiting, close_socket, EventRead, consume_stop_event, Begin,
  connect_begin, Revents, no_events, Poll, interrupted, poll_failed, timed_out, ready, Both,
  connect_wait, Recv, received, peer_closed, no_data, recv_failed, Send, sent, busy, send_failed,
  LoopRound, BackoffRound, Cycle,
}

-- The client if the call returns 0.
pub send_heartbeat : Config → Send → Client → Option Client
send_heartbeat config (sent size) c =
    if size == config.heartbeat_size
    then some (record c { heartbeats = c.heartbeats + 1 })
    else none
send_heartbeat config busy c = some c
send_heartbeat config send_failed c = none

-- The rest of the loop: what it does when it goes on, with the time of the next heartbeat.
abbrev pub Again : Type 0
Again = Option ℕ → Client → Step × Client

-- The heartbeat at the end of a pass.
pub heartbeat : Again → Config → LoopRound → Option ℕ → Client → Step × Client
heartbeat again config r none c = again none c
heartbeat again config r (some next) c = elim r.late_clock [
  | none ↦ (step_error, c)
  | some now ↦
      if leb next now
      then elim (send_heartbeat config r.send c) [
        | none ↦ (step_error, c)
        | some after ↦ again (some (now + config.heartbeat_interval_ms)) after
      ]
      else again (some next) c
]

-- The look at POLLERR and POLLHUP, and the heartbeat.
pub hung_up : Again → Config → LoopRound → Option ℕ → Revents → Client → Step × Client
hung_up again config r next socket c =
    if socket.err || socket.hup then (step_ok, c) else heartbeat again config r next c

-- Behind the recv of a socket that is readable.
pub after_recv : Again → Config → LoopRound → Option ℕ → Revents → Client → Recv → Step × Client
after_recv again config r next socket c (received bytes) =
    hung_up again config r next socket
      (if config.on_data then record c { delivered = c.delivered ++ bytes ∷ [] } else c)
after_recv again config r next socket c peer_closed = (step_ok, c)
after_recv again config r next socket c no_data = hung_up again config r next socket c
after_recv again config r next socket c recv_failed = (step_error, c)

pub loop_ready : Again → Config → LoopRound → Option ℕ → Both → Client → Step × Client
loop_ready again config r next (socket, wake) c =
    if wake.readable
    then (consume_stop_event r.consume, c)
    else if wake.err || wake.hup || wake.nval
    then (step_error, c)
    else if socket.nval
    then (step_error, c)
    else if socket.readable
    then after_recv again config r next socket c r.recv
    else hung_up again config r next socket c

pub loop_polled : Again → Config → LoopRound → Option ℕ → Client → Poll Both → Step × Client
loop_polled again config r next c interrupted = again next c
loop_polled again config r next c poll_failed = (step_error, c)
loop_polled again config r next c timed_out =
    loop_ready again config r next (no_events, no_events) c
loop_polled again config r next c (ready events) = loop_ready again config r next events c

-- The timeout of poll up to the next heartbeat.
pub heartbeat_timeout : ℕ → ℕ → ℤ
heartbeat_timeout next now =
    if leb next now
    then pos 0
    else if ltb (2 ^ 31 - 1) (next - now)
    then pos (2 ^ 31 - 1)
    else pos (next - now)

pub loop_round : Again → Config → LoopRound → Option ℕ → Client → Step × Client
loop_round again config r none c = loop_polled again config r none c (r.poll (negsuc 0))
loop_round again config r (some next) c = elim r.clock [
  | none ↦ (step_error, c)
  | some now ↦ loop_polled again config r (some next) c (r.poll (heartbeat_timeout next now))
]

-- The loop of connected_loop, with next_heartbeat, which is `none` for -1.
pub event_loop : Config → List LoopRound → Option ℕ → Client → Step × Client
event_loop config [] next c = (waiting, c)
event_loop config (r ∷ rounds) next c = loop_round (event_loop config rounds) config r next c

pub connected_loop : Config → Option ℕ → List LoopRound → Client → Step × Client
connected_loop config clock rounds c =
    if ltb 0 config.heartbeat_interval_ms
    then elim clock [
      | none ↦ (step_error, c)
      | some now ↦ event_loop config rounds (some (now + config.heartbeat_interval_ms)) c
    ]
    else event_loop config rounds none c

pub backoff_polled : Step → List EventRead → Poll Revents → Step
backoff_polled again consume timed_out = step_ok
backoff_polled again consume interrupted = again
backoff_polled again consume poll_failed = step_error
backoff_polled again consume (ready wake) =
    if wake.readable then consume_stop_event consume else step_error

-- The loop of backoff_wait.
pub backoff_rounds : ℤ → List BackoffRound → Step
backoff_rounds timeout_ms [] = waiting
backoff_rounds timeout_ms (r ∷ rounds) =
    backoff_polled (backoff_rounds timeout_ms rounds) r.consume (r.poll timeout_ms)

pub backoff_wait : Config → ℕ → List BackoffRound → Client → Step × Client
backoff_wait config random rounds c = (
  backoff_rounds (backoff_timeout c.attempt config.backoff_base_ms config.backoff_max_ms random)
      rounds,
  record c { state = backoff },
)

-- Where a turn of the worker's loop goes: out of it, on to the next stage or turn, or it still waits.
pub data Way : Type 0 where
  leave retry still : Way

pub connected_end : Step × Client → Way × Client
connected_end (step_stop, c) = (leave, close_socket c)
connected_end (waiting, c) = (still, c)
connected_end (rc, c) = (retry, close_socket c)

-- The second stage.
pub after_connect : Config → Cycle → Step × Client → Way × Client
after_connect config y (step_stop, c) = (leave, c)
after_connect config y (waiting, c) = (still, c)
after_connect config y (step_ok, c) =
    connected_end (connected_loop config y.loop_clock y.rounds (record c { attempt = 0 }))
after_connect config y (rc, c) = (retry, close_socket c)

pub count_attempt : Client → Client
count_attempt c = if ltb c.attempt (2 ^ 32 - 1) then record c { attempt = c.attempt + 1 } else c

pub backoff_end : Step × Client → Way × Client
backoff_end (step_ok, c) = (retry, c)
backoff_end (waiting, c) = (still, c)
backoff_end (rc, c) = (leave, c)

-- The third stage.
pub after_stage : Config → Cycle → Way × Client → Way × Client
after_stage config y (retry, c) =
    backoff_end (backoff_wait config y.random y.backoffs (count_attempt c))
after_stage config y (way, c) = (way, c)

pub connect_pending : Config → Cycle → Step × Client → Step × Client
connect_pending config y (step_pending, c) = connect_wait config y.wait_clock y.waits y.so_error c
connect_pending config y (rc, c) = (rc, c)

-- The body of the worker's loop.
pub worker_turn : Config → Cycle → Client → Way × Client
worker_turn config y c =
    after_stage config y
      (after_connect config y (connect_pending config y (connect_begin y.begin c)))

-- The fourth stage.
pub shut_down : Client → Client
shut_down c = record (close_socket (record c { state = stopping })) { state = stopped }

-- The thread has returned, or still runs.
pub data Outcome : Type 0 where
  ended running : Client → Outcome

pub next_turn : (Client → Outcome) → Way × Client → Outcome
next_turn again (retry, c) = again c
next_turn again (leave, c) = ended (shut_down c)
next_turn again (still, c) = running c

pub network_client_worker : Config → List Cycle → Client → Outcome
network_client_worker config [] c = running c
network_client_worker config (y ∷ cycles) c =
    next_turn (network_client_worker config cycles) (worker_turn config y c)
