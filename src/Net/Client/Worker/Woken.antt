-- ===== src/Net/Client/Worker/Woken.antt =====
-- The waits of network_client_worker while a request to stop is pending.
use edgevision_gateway.Common.{
  ℕ, ◌-◌, ◌≡◌, true, if◌then◌else◌, Option, none, some, List, [], ◌∷◌, leb, if_both,
}
use edgevision_gateway.Common.Int.{ℤ}
use edgevision_gateway.Net.Backoff.{to_int}
use edgevision_gateway.Net.Client.{
  Config, Client, Step, step_error, step_stop, step_ok, step_pending, waiting, EventRead,
  consume_stop_event, Revents, Poll, interrupted, poll_failed, timed_out, ready, Both, WaitRound,
  connect_begin, wait_ready, wait_polled, wait_round, wait_loop, LoopRound, BackoffRound, Cycle,
}
use edgevision_gateway.Net.Client.Worker.{
  Again, loop_ready, loop_polled, connected_loop, connect_pending,
}

-- A poll on which the eventfd is readable; one that is interrupted is followed by `later`.
abbrev pub Wakes : {A : Type 0} → (A → Revents) → Type 0 → Poll A → Type 0
Wakes wake later interrupted = later
Wakes wake later poll_failed = ⊥
Wakes wake later timed_out = ⊥
Wakes wake later (ready events) = (wake events).readable ≡ true

-- The rounds of a wait while a request to stop is pending: the eventfd is readable, and its read, when
-- it is not interrupted, brings the eight bytes.
abbrev pub IsWaitWoken : List WaitRound → Type 0
IsWaitWoken [] = ⊥
IsWaitWoken (r ∷ rounds) =
    (consume_stop_event r.consume ≡ step_stop)
    × ((timeout_ms : ℤ)
        → Wakes (λ (events : Both). events.1) (IsWaitWoken rounds) (r.poll timeout_ms))

abbrev pub IsLoopWoken : List LoopRound → Type 0
IsLoopWoken [] = ⊥
IsLoopWoken (r ∷ rounds) =
    (consume_stop_event r.consume ≡ step_stop)
    × ((timeout_ms : ℤ)
        → Wakes (λ (events : Both). events.1) (IsLoopWoken rounds) (r.poll timeout_ms))

abbrev pub IsBackoffWoken : List BackoffRound → Type 0
IsBackoffWoken [] = ⊥
IsBackoffWoken (r ∷ rounds) =
    (consume_stop_event r.consume ≡ step_stop)
    × ((timeout_ms : ℤ)
        → Wakes (λ (wake : Revents). wake) (IsBackoffWoken rounds) (r.poll timeout_ms))

-- A stage that has not returned STEP_STOP, which it does when it has read the eight bytes, has left them.
abbrev pub IsUnread : Step → Type 0
IsUnread s = s ≡ step_stop → ⊥

-- The first stage of a turn.
abbrev pub first_stage : Config → Cycle → Client → Step × Client
first_stage config y c = connect_pending config y (connect_begin y.begin c)

-- The second stage, with the client of the first.
abbrev pub second_stage : Config → Cycle → Client → Step × Client
second_stage config y c = connected_loop config y.loop_clock y.rounds (record c { attempt = 0 })

-- A request to stop that is pending when the turn begins: each wait that the turn comes to finds it, unless
-- the stage before has read the eight bytes.
abbrev pub IsRequested : Config → Cycle → Client → Type 0
IsRequested config y c =
    let first = first_stage config y c in
    ((connect_begin y.begin c).0 ≡ step_pending → IsWaitWoken y.waits)
    × (first.0 ≡ step_ok → IsLoopWoken y.rounds)
    × (IsUnread first.0
        → (first.0 ≡ step_ok → IsUnread (second_stage config y first.1).0)
        → IsBackoffWoken y.backoffs)

-- The end of a wait, with the stop or an error.
abbrev pub IsOver : Step → Type 0
IsOver step_error = Unit
IsOver step_stop = Unit
IsOver step_ok = ⊥
IsOver step_pending = ⊥
IsOver waiting = ⊥

pub stop-IsOver : (s : Step) → s ≡ step_stop → IsOver s
stop-IsOver s e = rw e tt

wait_polled-IsOver :
    (again : Step) (consume : List EventRead) (later : Type 0) (p : Poll Both)
    → consume_stop_event consume ≡ step_stop
    → (later → IsOver again)
    → Wakes (λ (events : Both). events.1) later p
    → IsOver (wait_polled again consume p)
unfolding wait_polled wait_ready
wait_polled-IsOver again consume later interrupted e rest h = rest h
wait_polled-IsOver again consume later poll_failed e rest h = elim h [ ]
wait_polled-IsOver again consume later timed_out e rest h = elim h [ ]
wait_polled-IsOver again consume later (ready (socket, wake)) e rest h =
    if_both IsOver wake.readable _ _ (λ k. stop-IsOver _ e) (λ k. absurd cc)

pub wait_loop-IsOver :
    (deadline : ℕ) (rounds : List WaitRound)
    → IsWaitWoken rounds
    → IsOver (wait_loop deadline rounds)
unfolding wait_loop wait_round
wait_loop-IsOver deadline [] h = elim h [ ]
wait_loop-IsOver deadline (r ∷ rounds) (e, h) = behind (wait_loop-IsOver deadline rounds) r.clock
  where
    behind :
        (IsWaitWoken rounds → IsOver (wait_loop deadline rounds))
        → (o : Option ℕ)
        → IsOver (elim o [
          | none ↦ step_error
          | some now ↦
              if leb deadline now
              then step_error
              else wait_polled
                  (wait_loop deadline rounds)
                  r.consume
                  (r.poll (to_int (deadline - now)))
        ])
    behind rest none = tt
    behind rest (some now) =
        if_both IsOver (leb deadline now) _ _ (λ k. tt)
          (λ k.
            wait_polled-IsOver (wait_loop deadline rounds) r.consume (IsWaitWoken rounds) _ e rest
              (h _))

-- The same of a stage that hands the client on.
abbrev pub EndsOver : Step × Client → Type 0
EndsOver (s, c) = IsOver s

pub loop_polled-IsOver :
    (again : Again) (config : Config) (r : LoopRound) (later : Type 0) (next : Option ℕ)
    (c : Client) (p : Poll Both)
    → consume_stop_event r.consume ≡ step_stop
    → (later → EndsOver (again next c))
    → Wakes (λ (events : Both). events.1) later p
    → EndsOver (loop_polled again config r next c p)
unfolding loop_polled loop_ready
loop_polled-IsOver again config r later next c interrupted e rest h = rest h
loop_polled-IsOver again config r later next c poll_failed e rest h = elim h [ ]
loop_polled-IsOver again config r later next c timed_out e rest h = elim h [ ]
loop_polled-IsOver again config r later next c (ready (socket, wake)) e rest h =
    if_both EndsOver wake.readable _ _ (λ k. stop-IsOver _ e) (λ k. absurd cc)
