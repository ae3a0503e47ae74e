-- ===== src/Net/Client/Worker/Clean.antt =====
-- The sockets of network_client_worker: each that is opened is closed once.
use edgevision_gateway.Common.{
  ℕ, ◌-◌, ◌^◌, ◌≡◌, refl, Option, none, some, List, [], ◌∷◌, ltb, if_both,
}
use edgevision_gateway.Net.Client.{
  stopped, Config, Client, Step, step_error, step_stop, step_ok, step_pending, waiting, LoopRound,
  Cycle,
}
use edgevision_gateway.Net.Client.Worker.{
  event_loop, connected_loop, backoff_wait, Way, leave, retry, still, connected_end, after_connect,
  count_attempt, backoff_end, after_stage, worker_turn, shut_down, Outcome, ended, running,
  next_turn, network_client_worker,
}
use edgevision_gateway.Net.Client.Worker.Owned.{
  loop_round-IsOwned, IsOwned, IsClosed, EndsOwned, close_socket-IsClosed, IsClosed→IsOwned,
  close_socket-IsOwned, connect_begin-IsOwned, connect_pending-IsOwned,
}

event_loop-IsOwned :
    (config : Config) (rounds : List LoopRound) (next : Option ℕ) (c : Client)
    → IsOwned c
    → IsOwned (event_loop config rounds next c).1
unfolding event_loop
event_loop-IsOwned config [] next c h = h
event_loop-IsOwned config (r ∷ rounds) next c h =
    loop_round-IsOwned (event_loop config rounds) config r (event_loop-IsOwned config rounds) next c
      h

connected_loop-IsOwned :
    (config : Config) (clock : Option ℕ) (rounds : List LoopRound) (c : Client)
    → IsOwned c
    → IsOwned (connected_loop config clock rounds c).1
unfolding connected_loop
connected_loop-IsOwned config none rounds c h =
    if_both EndsOwned (ltb 0 config.heartbeat_interval_ms) _ _ (λ e. h)
      (λ e. event_loop-IsOwned config rounds none c h)
connected_loop-IsOwned config (some now) rounds c h =
    if_both EndsOwned (ltb 0 config.heartbeat_interval_ms) _ _
      (λ e. event_loop-IsOwned config rounds _ c h) (λ e. event_loop-IsOwned config rounds none c h)

-- Where a stage leads: only to the next turn with every socket closed.
abbrev IsTidy : Way × Client → Type 0
IsTidy (retry, c) = IsClosed c
IsTidy (leave, c) = IsOwned c
IsTidy (still, c) = IsOwned c

connected_end-IsTidy : (x : Step × Client) → EndsOwned x → IsTidy (connected_end x)
unfolding connected_end
connected_end-IsTidy (step_stop, c) h = close_socket-IsOwned c h
connected_end-IsTidy (waiting, c) h = h
connected_end-IsTidy (step_error, c) h = close_socket-IsClosed c h
connected_end-IsTidy (step_ok, c) h = close_socket-IsClosed c h
connected_end-IsTidy (step_pending, c) h = close_socket-IsClosed c h

after_connect-IsTidy :
    (config : Config) (y : Cycle) (x : Step × Client)
    → EndsOwned x
    → IsTidy (after_connect config y x)
unfolding after_connect
after_connect-IsTidy config y (step_stop, c) h = h
after_connect-IsTidy config y (waiting, c) h = h
after_connect-IsTidy config y (step_ok, c) h =
    connected_end-IsTidy _ (connected_loop-IsOwned config y.loop_clock y.rounds _ h)
after_connect-IsTidy config y (step_error, c) h = close_socket-IsClosed c h
after_connect-IsTidy config y (step_pending, c) h = close_socket-IsClosed c h

backoff_end-IsTidy : (x : Step × Client) → IsClosed x.1 → IsTidy (backoff_end x)
unfolding backoff_end
backoff_end-IsTidy (step_ok, c) h = h
backoff_end-IsTidy (waiting, c) h = IsClosed→IsOwned c h
backoff_end-IsTidy (step_error, c) h = IsClosed→IsOwned c h
backoff_end-IsTidy (step_stop, c) h = IsClosed→IsOwned c h
backoff_end-IsTidy (step_pending, c) h = IsClosed→IsOwned c h

after_stage-IsTidy :
    (config : Config) (y : Cycle) (x : Way × Client) → IsTidy x → IsTidy (after_stage config y x)
unfolding after_stage backoff_wait count_attempt
after_stage-IsTidy config y (leave, c) h = h
after_stage-IsTidy config y (still, c) h = h
after_stage-IsTidy config y (retry, c) h =
    backoff_end-IsTidy _ (if_both IsClosed (ltb c.attempt (2 ^ 32 - 1)) _ _ (λ e. h) (λ e. h))

worker_turn-IsTidy :
    (config : Config) (y : Cycle) (c : Client) → IsClosed c → IsTidy (worker_turn config y c)
unfolding worker_turn
worker_turn-IsTidy config y c h = after_stage-IsTidy config y _ (
    after_connect-IsTidy config y _
      (connect_pending-IsOwned config y _ (connect_begin-IsOwned y.begin c h)))

-- A thread that has returned left the client stopped and without a socket; one that runs holds the
-- only socket that is not closed.
abbrev pub IsClean : Outcome → Type 0
IsClean (ended c) = (c.state ≡ stopped) × IsClosed c
IsClean (running c) = IsOwned c

next_turn-IsClean :
    (again : Client → Outcome) (x : Way × Client)
    → ((c : Client) → IsClosed c → IsClean (again c))
    → IsTidy x
    → IsClean (next_turn again x)
unfolding next_turn shut_down
next_turn-IsClean again (retry, c) rest h = rest c h
next_turn-IsClean again (still, c) rest h = h
next_turn-IsClean again (leave, c) rest h = (refl, close_socket-IsClosed _ h)

-- However the kernel and the peer answer, the worker of a client that starts without a socket opens a
-- socket only when it has closed the one before, through any number of connections; once the thread
-- returns, the client is stopped, holds no socket, and every socket that was opened was closed once.
pub worker-IsClean :
    (config : Config) (cycles : List Cycle) (c : Client)
    → IsClosed c
    → IsClean (network_client_worker config cycles c)
unfolding network_client_worker
worker-IsClean config [] c h = IsClosed→IsOwned c h
worker-IsClean config (y ∷ cycles) c h =
    next_turn-IsClean (network_client_worker config cycles) (worker_turn config y c)
      (worker-IsClean config cycles) (worker_turn-IsTidy config y c h)
