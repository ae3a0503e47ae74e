-- ===== src/Net/Client/Worker/Owned.antt =====
-- The socket that the client holds, through the stages of network_client_worker.
use edgevision_gateway.Common.{
  ℕ, zero, suc, ◌+◌, ◌≡◌, refl, arith, not, if◌then◌else◌, ◌||◌, ◌==◌, Option, none, some, leb,
  if_both,
}
use edgevision_gateway.Net.Client.{
  connecting, Config, Client, Step, step_error, step_stop, step_ok, step_pending, waiting,
  close_socket, Connect, accepted, in_progress, refused, Begin, connect_socket, with_socket,
  connect_begin, Revents, no_events, Poll, interrupted, poll_failed, timed_out, ready, Both,
  so_result, wait_result, connect_wait, Recv, received, peer_closed, no_data, recv_failed, Send,
  sent, busy, send_failed, LoopRound, Cycle,
}
use edgevision_gateway.Net.Client.Worker.{
  send_heartbeat, Again, heartbeat, hung_up, after_recv, loop_ready, loop_polled, heartbeat_timeout,
  loop_round, connect_pending,
}

abbrev held : Option ℕ → ℕ
held none = 0
held (some fd) = 1

-- Every socket that was opened was closed, but for the one that the client holds.
abbrev pub IsOwned : Client → Type 0
IsOwned c = c.opened ≡ c.closed + held c.fd

abbrev pub IsClosed : Client → Type 0
IsClosed c = (c.fd ≡ none) × (c.opened ≡ c.closed)

abbrev pub EndsOwned : Step × Client → Type 0
EndsOwned (s, c) = IsOwned c

pub close_socket-IsClosed : (c : Client) → IsOwned c → IsClosed (close_socket c)
unfolding close_socket
close_socket-IsClosed c h = behind c.fd refl h
  where
    behind :
        (o : Option ℕ)
        → c.fd ≡ o
        → c.opened ≡ c.closed + held o
        → IsClosed (elim o [ none ↦ c | some fd ↦ record c { fd = none; closed = c.closed + 1 } ])
    behind none e h = (e, omega (arith, h))
    behind (some fd) e h = (refl, h)

-- A closed client is owned, too.
pub IsClosed→IsOwned : (c : Client) → IsClosed c → IsOwned c
IsClosed→IsOwned c (open_fd, same) = rw open_fd (omega (arith, same))

pub close_socket-IsOwned : (c : Client) → IsOwned c → IsOwned (close_socket c)
close_socket-IsOwned c h = IsClosed→IsOwned (close_socket c) (close_socket-IsClosed c h)

connect_socket-IsOwned : (a : Connect) (c : Client) → IsOwned c → IsOwned (connect_socket a c).1
unfolding connect_socket
connect_socket-IsOwned accepted c h = h
connect_socket-IsOwned in_progress c h = h
connect_socket-IsOwned refused c h = close_socket-IsOwned c h

pub connect_begin-IsOwned : (b : Begin) (c : Client) → IsClosed c → IsOwned (connect_begin b c).1
unfolding connect_begin with_socket
connect_begin-IsOwned b c (open_fd, same) = behind b.socket
  where
    behind :
        (o : Option ℕ)
        → EndsOwned (elim o [
          | none ↦ (step_error, record c { fd = none })
          | some fd ↦ with_socket b (record c { fd = some fd; opened = c.opened + 1 })
        ])
    behind none = omega (arith, same)
    behind (some fd) =
        let holding : Client = record c { fd = some fd; opened = c.opened + 1 } in
        let one : IsOwned holding = omega (arith, same) in
        if_both EndsOwned (not b.nonblocking) _ _ (λ h. close_socket-IsOwned holding one)
          (λ h. connect_socket-IsOwned b.connect (record holding { state = connecting }) one)

so_result-IsOwned : (e : Option ℕ) (c : Client) → IsOwned c → IsOwned (so_result e c).1
unfolding so_result
so_result-IsOwned none c h = h
so_result-IsOwned (some zero) c h = h
so_result-IsOwned (some (suc e)) c h = h

wait_result-IsOwned :
    (e : Option ℕ) (c : Client) (s : Step) → IsOwned c → IsOwned (wait_result e c s).1
unfolding wait_result
wait_result-IsOwned e c step_pending h = so_result-IsOwned e c h
wait_result-IsOwned e c step_error h = h
wait_result-IsOwned e c step_stop h = h
wait_result-IsOwned e c step_ok h = h
wait_result-IsOwned e c waiting h = h

pub connect_pending-IsOwned :
    (config : Config) (y : Cycle) (x : Step × Client)
    → IsOwned x.1
    → IsOwned (connect_pending config y x).1
unfolding connect_pending connect_wait
connect_pending-IsOwned config y (step_pending, c) h = behind y.wait_clock
  where
    behind : (o : Option ℕ) → IsOwned (connect_wait config o y.waits y.so_error c).1
    behind none = h
    behind (some now) = wait_result-IsOwned y.so_error c _ h
connect_pending-IsOwned config y (step_error, c) h = h
connect_pending-IsOwned config y (step_stop, c) h = h
connect_pending-IsOwned config y (step_ok, c) h = h
connect_pending-IsOwned config y (waiting, c) h = h

-- One pass of connected_loop, whose rest is `again`.
module _ (again : Again) (config : Config) (r : LoopRound)
    (rest : (next : Option ℕ) (c : Client) → IsOwned c → IsOwned (again next c).1) where
  beat :
      (now : ℕ) (c : Client) (s : Send)
      → IsOwned c
      → EndsOwned (elim (send_heartbeat config s c) [
        | none ↦ (step_error, c)
        | some after ↦ again (some (now + config.heartbeat_interval_ms)) after
      ])
  unfolding send_heartbeat
  beat now c (sent size) h =
      if_both
        (λ (x : Option Client). EndsOwned (elim x [
          | none ↦ (step_error, c)
          | some after ↦ again (some (now + config.heartbeat_interval_ms)) after
        ]))
        (size == config.heartbeat_size) _ _ (λ e. rest _ _ h) (λ e. h)
  beat now c busy h = rest _ c h
  beat now c send_failed h = h

  heartbeat-IsOwned :
      (next : Option ℕ) (c : Client) → IsOwned c → IsOwned (heartbeat again config r next c).1
  unfolding heartbeat
  heartbeat-IsOwned none c h = rest none c h
  heartbeat-IsOwned (some next) c h = behind r.late_clock
    where
      behind :
          (o : Option ℕ)
          → EndsOwned (elim o [
            | none ↦ (step_error, c)
            | some now ↦
                if leb next now
                then elim (send_heartbeat config r.send c) [
                  | none ↦ (step_error, c)
                  | some after ↦ again (some (now + config.heartbeat_interval_ms)) after
                ]
                else again (some next) c
          ])
      behind none = h
      behind (some now) =
          if_both EndsOwned (leb next now) _ _ (λ e. beat now c r.send h) (λ e. rest _ c h)

  hung_up-IsOwned :
      (next : Option ℕ) (socket : Revents) (c : Client)
      → IsOwned c
      → IsOwned (hung_up again config r next socket c).1
  unfolding hung_up
  hung_up-IsOwned next socket c h =
      if_both EndsOwned (socket.err || socket.hup) _ _ (λ e. h) (λ e. heartbeat-IsOwned next c h)

  after_recv-IsOwned :
      (next : Option ℕ) (socket : Revents) (c : Client) (v : Recv)
      → IsOwned c
      → IsOwned (after_recv again config r next socket c v).1
  unfolding after_recv
  after_recv-IsOwned next socket c (received bytes) h =
      hung_up-IsOwned next socket _ (if_both IsOwned config.on_data _ _ (λ e. h) (λ e. h))
  after_recv-IsOwned next socket c peer_closed h = h
  after_recv-IsOwned next socket c no_data h = hung_up-IsOwned next socket c h
  after_recv-IsOwned next socket c recv_failed h = h

  loop_ready-IsOwned :
      (next : Option ℕ) (events : Both) (c : Client)
      → IsOwned c
      → IsOwned (loop_ready again config r next events c).1
  unfolding loop_ready
  loop_ready-IsOwned next (socket, wake) c h =
      if_both EndsOwned wake.readable _ _ (λ e. h)
        (λ e.
          if_both EndsOwned (wake.err || wake.hup || wake.nval) _ _ (λ e. h)
            (λ e.
              if_both EndsOwned socket.nval _ _ (λ e. h)
                (λ e.
                  if_both EndsOwned socket.readable _ _
                    (λ e. after_recv-IsOwned next socket c r.recv h)
                    (λ e. hung_up-IsOwned next socket c h))))

  loop_polled-IsOwned :
      (next : Option ℕ) (c : Client) (p : Poll Both)
      → IsOwned c
      → IsOwned (loop_polled again config r next c p).1
  unfolding loop_polled
  loop_polled-IsOwned next c interrupted h = rest next c h
  loop_polled-IsOwned next c poll_failed h = h
  loop_polled-IsOwned next c timed_out h = loop_ready-IsOwned next (no_events, no_events) c h
  loop_polled-IsOwned next c (ready events) h = loop_ready-IsOwned next events c h

  pub loop_round-IsOwned :
      (next : Option ℕ) (c : Client) → IsOwned c → IsOwned (loop_round again config r next c).1
  unfolding loop_round
  loop_round-IsOwned none c h = loop_polled-IsOwned none c _ h
  loop_round-IsOwned (some next) c h = behind r.clock
    where
      behind :
          (o : Option ℕ)
          → EndsOwned (elim o [
            | none ↦ (step_error, c)
            | some now ↦
                loop_polled again config r (some next) c (r.poll (heartbeat_timeout next now))
          ])
      behind none = h
      behind (some now) = loop_polled-IsOwned (some next) c _ h
