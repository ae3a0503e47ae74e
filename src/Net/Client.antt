-- ===== src/Net/Client.antt =====
-- The worker thread of modules/net/network_client.c. What the kernel answers is an argument: each
-- pass of a loop has a round of answers, and each turn of the worker's loop a cycle of them. poll is
-- a function of the timeout that it is given. errno, which the worker only logs, and the log are
-- left out; times are milliseconds of the monotonic clock, and do not reach 2^63.
pub mod Worker
use edgevision_gateway.Common.{
  ℕ, zero, suc, ◌+◌, ◌-◌, Bool, true, false, not, ◌&&◌, ◌||◌, Option, none, some, List, [], ◌∷◌,
  ◌++◌, ltb, leb, ◌==◌, if◌then◌else◌,
}
use edgevision_gateway.Common.Int.{ℤ, pos, negsuc, pos_part}
use edgevision_gateway.Net.Backoff.{to_int, backoff_timeout}

-- network_client_state_t.
pub data ClientState : Type 0 where
  stopped connecting connected backoff stopping : ClientState

-- network_client_config_t, less the address, the log switch and the bytes of the heartbeat.
pub record Config : Type 0 where
  pub connect_timeout_ms : ℤ
  pub backoff_base_ms : ℕ
  pub backoff_max_ms : ℕ
  pub heartbeat_interval_ms : ℕ
  pub heartbeat_size : ℕ
  pub on_data : Bool

-- The client, as its worker sees it; `fd` is `none` for -1. Beside it stand how many sockets were
-- opened and closed, what on_data was called with, and how many heartbeats went out.
pub record Client : Type 0 where
  pub state : ClientState
  pub fd : Option ℕ
  pub attempt : ℕ
  pub opened : ℕ
  pub closed : ℕ
  pub delivered : List (List ℕ)
  pub heartbeats : ℕ

-- enum step_result; `waiting` has no answer left.
pub data Step : Type 0 where
  step_error step_stop step_ok step_pending waiting : Step

pub close_socket : Client → Client
close_socket c = elim c.fd [ none ↦ c | some fd ↦ record c { fd = none; closed = c.closed + 1 } ]

-- The read of the eventfd: EINTR, another error, or a number of bytes.
pub data EventRead : Type 0 where
  read_interrupted read_failed : EventRead
  read_bytes : ℕ → EventRead

-- consume_stop_event where its result is used.
pub consume_stop_event : List EventRead → Step
consume_stop_event [] = waiting
consume_stop_event (read_interrupted ∷ reads) = consume_stop_event reads
consume_stop_event (read_failed ∷ reads) = step_error
consume_stop_event (read_bytes size ∷ reads) = if size == 8 then step_stop else step_error

-- connect: 0, EINPROGRESS or another error.
pub data Connect : Type 0 where
  accepted in_progress refused : Connect

-- The answers of socket, of the two calls of fcntl, and of connect.
pub record Begin : Type 0 where
  pub socket : Option ℕ
  pub nonblocking : Bool
  pub connect : Connect

pub connect_socket : Connect → Client → Step × Client
connect_socket accepted c = (step_ok, record c { state = connected })
connect_socket in_progress c = (step_pending, c)
connect_socket refused c = (step_error, close_socket c)

pub with_socket : Begin → Client → Step × Client
with_socket b c =
    if not b.nonblocking
    then (step_error, close_socket c)
    else connect_socket b.connect (record c { state = connecting })

pub connect_begin : Begin → Client → Step × Client
connect_begin b c = elim b.socket [
  | none ↦ (step_error, record c { fd = none })
  | some fd ↦ with_socket b (record c { fd = some fd; opened = c.opened + 1 })
]

-- The revents of one descriptor.
pub record Revents : Type 0 where
  pub readable : Bool
  pub writable : Bool
  pub err : Bool
  pub hup : Bool
  pub nval : Bool

abbrev pub no_events : Revents
no_events = record { readable = false; writable = false; err = false; hup = false; nval = false }

-- poll: EINTR, another error, 0, or the revents.
pub data Poll {ℓ} (A : Type ℓ) : Type ℓ where
  interrupted poll_failed timed_out : Poll A
  ready : A → Poll A

-- The socket's revents, and those of the eventfd.
abbrev pub Both : Type 0
Both = Revents × Revents

-- One pass of connect_wait.
pub record WaitRound : Type 0 where
  pub clock : Option ℕ
  pub poll : ℤ → Poll Both
  pub consume : List EventRead

-- Behind the poll of connect_wait; step_pending goes on to SO_ERROR.
pub wait_ready : Step → List EventRead → Both → Step
wait_ready again consume (socket, wake) =
    if wake.readable
    then consume_stop_event consume
    else if wake.err || wake.hup || wake.nval
    then step_error
    else if socket.nval
    then step_error
    else if socket.writable || socket.err || socket.hup
    then step_pending
    else again

pub wait_polled : Step → List EventRead → Poll Both → Step
wait_polled again consume interrupted = again
wait_polled again consume poll_failed = step_error
wait_polled again consume timed_out = step_error
wait_polled again consume (ready events) = wait_ready again consume events

pub wait_round : Step → ℕ → WaitRound → Step
wait_round again deadline r = elim r.clock [
  | none ↦ step_error
  | some now ↦
      if leb deadline now
      then step_error
      else wait_polled again r.consume (r.poll (to_int (deadline - now)))
]

-- The loop of connect_wait.
pub wait_loop : ℕ → List WaitRound → Step
wait_loop deadline [] = waiting
wait_loop deadline (r ∷ rounds) = wait_round (wait_loop deadline rounds) deadline r

-- SO_ERROR, if getsockopt reads it.
pub so_result : Option ℕ → Client → Step × Client
so_result none c = (step_error, c)
so_result (some zero) c = (step_ok, record c { state = connected })
so_result (some (suc e)) c = (step_error, c)

-- Behind the loop.
pub wait_result : Option ℕ → Client → Step → Step × Client
wait_result so_error c step_pending = so_result so_error c
wait_result so_error c step = (step, c)

pub connect_wait : Config → Option ℕ → List WaitRound → Option ℕ → Client → Step × Client
connect_wait config clock rounds so_error c = elim clock [
  | none ↦ (step_error, c)
  | some now ↦ wait_result so_error c (wait_loop (now + pos_part config.connect_timeout_ms) rounds)
]

-- recv: bytes, 0, an error that means that there is nothing to read (EAGAIN, EWOULDBLOCK, EINTR), or
-- another one.
pub data Recv : Type 0 where
  received : List ℕ → Recv
  peer_closed no_data recv_failed : Recv

-- send: a number of bytes, EAGAIN, or another error.
pub data Send : Type 0 where
  sent : ℕ → Send
  busy send_failed : Send

-- One pass of connected_loop: `clock` before poll and `late_clock` behind it.
pub record LoopRound : Type 0 where
  pub clock : Option ℕ
  pub poll : ℤ → Poll Both
  pub consume : List EventRead
  pub recv : Recv
  pub late_clock : Option ℕ
  pub send : Send

-- One pass of backoff_wait.
pub record BackoffRound : Type 0 where
  pub poll : ℤ → Poll Revents
  pub consume : List EventRead

-- One turn of the worker's loop. `random` is what rand_r returns.
pub record Cycle : Type 0 where
  pub begin : Begin
  pub wait_clock : Option ℕ
  pub waits : List WaitRound
  pub so_error : Option ℕ
  pub loop_clock : Option ℕ
  pub rounds : List LoopRound
  pub random : ℕ
  pub backoffs : List BackoffRound
