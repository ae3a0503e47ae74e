-- ===== src/Net/Client/Worker/Tests.antt =====
-- A client that connects, receives three bytes and loses the connection, and is stopped in its back-off.
use edgevision_gateway.Common.{
  ℕ, ◌+◌, ◌*◌, ◌-◌, ◌/◌, ◌^◌, ◌≤◌, ◌≡◌, refl, arith, true, none, some, [], ◌∷◌,
}
use edgevision_gateway.Common.Int.{pos}
use edgevision_gateway.Net.Backoff.{backoff_base_delay, backoff_timeout}
use edgevision_gateway.Net.Backoff.Delay.{capped, backoff_timeout_lem}
use edgevision_gateway.Net.Client.{
  stopped, Config, Client, read_interrupted, read_bytes, consume_stop_event, in_progress, accepted,
  refused, Begin, Revents, no_events, ready, interrupted, received, peer_closed, busy, LoopRound,
  BackoffRound, Cycle, close_socket, connect_socket, with_socket, connect_begin, wait_ready,
  wait_polled, wait_round, wait_loop, so_result, wait_result, connect_wait,
}
use edgevision_gateway.Net.Client.Worker.{
  ended, network_client_worker, heartbeat, hung_up, after_recv, loop_ready, loop_polled, loop_round,
  event_loop, connected_loop, backoff_polled, backoff_rounds, backoff_wait, connected_end,
  after_connect, count_attempt, backoff_end, after_stage, connect_pending, worker_turn, shut_down,
  next_turn,
}
use edgevision_gateway.Net.Client.Worker.Clean.{IsClean, worker-IsClean}
use edgevision_gateway.Net.Client.Worker.Woken.{IsRequested}

abbrev config : Config
config = record {
  connect_timeout_ms = pos 1000;
  backoff_base_ms = 100;
  backoff_max_ms = 1000;
  heartbeat_interval_ms = 0;
  heartbeat_size = 0;
  on_data = true;
}

abbrev new_client : Client
new_client = record {
  state = stopped;
  fd = none;
  attempt = 0;
  opened = 0;
  closed = 0;
  delivered = [];
  heartbeats = 0;
}

abbrev readable : Revents
readable = record no_events { readable = true }

abbrev writable : Revents
writable = record no_events { writable = true }

abbrev begin : Begin
begin = record { socket = some 5; nonblocking = true; connect = in_progress }

abbrev stop_backoff : BackoffRound
stop_backoff = record { poll = λ t. ready readable; consume = read_interrupted ∷ read_bytes 8 ∷ [] }

abbrev loop_round_of : Revents × Revents → LoopRound
loop_round_of events = record {
  clock = some 20;
  poll = λ t. ready events;
  consume = read_bytes 8 ∷ [];
  recv = received (1 ∷ 2 ∷ 3 ∷ []);
  late_clock = some 21;
  send = busy;
}

-- Three bytes come in, then the peer closes.
abbrev lost : Cycle
lost = record {
  begin = begin;
  wait_clock = some 10;
  waits = record { clock = some 11; poll = λ t. ready (writable, no_events); consume = [] } ∷ [];
  so_error = some 0;
  loop_clock = none;
  rounds =
      loop_round_of (readable, no_events)
      ∷ record (loop_round_of (readable, no_events)) { recv = peer_closed }
      ∷ [];
  random = 7;
  backoffs = stop_backoff ∷ [];
}

-- The connection is made at once, and its loop reads the request to stop: no back-off comes.
abbrev signalled : Cycle
signalled = record lost {
  begin = record begin { connect = accepted };
  rounds = loop_round_of (no_events, readable) ∷ [];
  backoffs = [];
}

-- The connection is refused, and the back-off reads the request.
abbrev refused_cycle : Cycle
refused_cycle = record lost {
  begin = record begin { connect = refused };
  backoffs = record stop_backoff { poll = λ t. interrupted } ∷ stop_backoff ∷ [];
}

run_lost :
    network_client_worker config (lost ∷ []) new_client
    ≡ ended (record new_client {
      attempt = 1;
      opened = 1;
      closed = 1;
      delivered = (1 ∷ 2 ∷ 3 ∷ []) ∷ [];
    })
unfolding network_client_worker heartbeat hung_up after_recv loop_ready loop_polled loop_round
    event_loop connected_loop backoff_polled backoff_rounds backoff_wait connected_end after_connect
    count_attempt backoff_end after_stage connect_pending worker_turn shut_down next_turn
    close_socket connect_socket with_socket connect_begin wait_ready wait_polled wait_round
    wait_loop so_result wait_result connect_wait consume_stop_event
run_lost = refl

requested : IsRequested config signalled new_client
unfolding consume_stop_event connect_pending connect_begin with_socket connect_socket connected_loop
    event_loop loop_round loop_polled loop_ready
requested = (λ e. absurd cc, λ e. (refl, λ t. refl), λ first second. absurd (second refl refl))

requested_backoff : IsRequested config refused_cycle new_client
unfolding consume_stop_event connect_pending connect_begin with_socket connect_socket
requested_backoff = (λ e. absurd cc, λ e. absurd cc, λ first second. (refl, λ t. (refl, λ s. refl)))

worker-IsClean_example : IsClean (network_client_worker config (lost ∷ lost ∷ []) new_client)
worker-IsClean_example = worker-IsClean config (lost ∷ lost ∷ []) new_client (refl, refl)

backoff_timeout_lem_example :
    let delay = capped 1000 (100 * 2 ^ (4 - 1)) in
    (t : ℕ) × (backoff_base_delay 4 100 1000 ≡ delay)
    × (backoff_timeout 4 100 1000 77 ≡ pos t)
    × (delay ≤ t)
    × (t ≤ delay + delay / 4)
    × (t ≤ 1000 + 1000 / 4)
backoff_timeout_lem_example = backoff_timeout_lem 4 100 1000 77 (omega arith) (omega arith)
