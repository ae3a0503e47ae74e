-- ===== src/Serial/Receive/Rounds.antt =====
-- One pass of the loop of serial_read_exact_until_stop of modules/serial/rs485_serial.c: the ways it
-- can go, for a property of how the loop ends.
use edgevision_gateway.Common.{
  ℕ, ◌-◌, ◌≤◌, ◌<◌, ◌≡◌, ◌⊎◌, inl, inr, refl, sym, subst, arith, Bool, true, false, ◌&&◌, ◌||◌,
  Option, none, some, List, ◌++◌, length, if_both, leb, ◌==◌,
}
use edgevision_gateway.Common.Int.{ℤ, pos, negsuc, ltb_ℤ}
use edgevision_gateway.Serial.Errno.{eintr}
use edgevision_gateway.Serial.Receive.{
  Poll, poll_error, no_event, events, Chunk, read_error, got, polled, serial_wait_readable,
  next_wait_ms, Ready, wait_error, silent, readable, Round, Exact, exact, timed_out, canceled,
  failed, serial_read_append_once, read_again, after_read, read_late, after_wait_readable, appended,
  at_clock, read_round,
}

append_once_lem :
    (received : List ℕ) (size : ℕ) (read : ℕ → Chunk)
    → length received < size
    → serial_read_append_once received size read ≡ appended received (read (size - length received))
unfolding serial_read_append_once
append_once_lem received size read room = ground arith

-- What it takes that a round reads: no stop is asked for, the clock is before the deadline both times, poll
-- says that there is input, and read brings `bytes`, of `room` that are asked for.
pub record Reads (has_stop : Bool) (fd : ℤ) (room deadline_ns : ℕ) (round : Round) (bytes : List ℕ)
    : Type 0 where
  pub going : (has_stop && round.stop) ≡ false
  pub now : ℕ
  pub clock : round.now_ns ≡ some now
  pub early : now < deadline_ns
  pub is_open : ltb_ℤ fd (pos 0) ≡ false
  pub input : round.poll (pos (next_wait_ms has_stop deadline_ns now)) ≡ events false true
  pub still_going : (has_stop && round.late_stop) ≡ false
  pub late_now : ℕ
  pub late_clock : round.late_now_ns ≡ some late_now
  pub still_early : late_now < deadline_ns
  pub brought : round.read room ≡ got bytes

-- A round that does not read, or whose read fails.
abbrev pub Barren : Bool → ℤ → ℕ → ℕ → Round → Type 0
Barren has_stop fd room deadline_ns round =
    (bytes : List ℕ) → Reads has_stop fd room deadline_ns round bytes → ⊥

readable_lem :
    (fd : ℤ) (wait_ms : ℕ) (poll : ℤ → Poll)
    → ltb_ℤ fd (pos 0) ≡ false
    → poll (pos wait_ms) ≡ events false true
    → serial_wait_readable fd (pos wait_ms) poll ≡ readable
unfolding serial_wait_readable polled
readable_lem fd wait_ms poll is_open input =
    let fine : ltb_ℤ (pos wait_ms) (negsuc 0) ≡ false = ground arith in
    rw (is_open, fine, input) refl

polled_input : (p : Poll) → polled p ≡ readable → p ≡ events false true
unfolding polled
polled_input (poll_error errno) e = absurd cc
polled_input no_event e = absurd cc
polled_input (events true has_input) e = absurd cc
polled_input (events false true) e = refl
polled_input (events false false) e = absurd cc

readable_input :
    (fd timeout_ms : ℤ) (poll : ℤ → Poll)
    → serial_wait_readable fd timeout_ms poll ≡ readable
    → (ltb_ℤ fd (pos 0) ≡ false) × (poll timeout_ms ≡ events false true)
unfolding serial_wait_readable
readable_input fd timeout_ms poll =
    if_both (λ r. r ≡ readable → (ltb_ℤ fd (pos 0) ≡ false) × (poll timeout_ms ≡ events false true))
      (ltb_ℤ fd (pos 0) || ltb_ℤ timeout_ms (negsuc 0)) _ _ (λ h e. absurd cc)
      (λ h e. (ground arith, polled_input _ e))

module _ (P : Exact → Type 0) (has_stop : Bool) (fd : ℤ) (again : List ℕ → Exact)
    (size deadline_ns : ℕ) (received : List ℕ) (round : Round) (room : length received < size)
    (if_stopped : ((has_stop && round.stop) ≡ true) ⊎ ((has_stop && round.late_stop) ≡ true)
      → Barren has_stop fd (size - length received) deadline_ns round
      → P (exact canceled received))
    (if_late : (t : ℕ)
      → (round.now_ns ≡ some t) ⊎ (round.late_now_ns ≡ some t)
      → deadline_ns ≤ t
      → Barren has_stop fd (size - length received) deadline_ns round
      → P (exact timed_out received))
    (if_failed : Barren has_stop fd (size - length received) deadline_ns round
      → P (exact failed received))
    (if_nothing : (t : ℕ)
      → round.now_ns ≡ some t
      → t < deadline_ns
      → Barren has_stop fd (size - length received) deadline_ns round
      → P (again received))
    (if_read : (bytes : List ℕ)
      → Reads has_stop fd (size - length received) deadline_ns round bytes
      → P (again (received ++ bytes))) where
  -- A round that has come up to its read.
  after_read_both :
      (t u : ℕ) (c : Chunk)
      → ((has_stop && round.stop) ≡ false)
      → round.now_ns ≡ some t
      → t < deadline_ns
      → serial_wait_readable fd (pos (next_wait_ms has_stop deadline_ns t)) round.poll ≡ readable
      → ((has_stop && round.late_stop) ≡ false)
      → round.late_now_ns ≡ some u
      → u < deadline_ns
      → round.read (size - length received) ≡ c
      → P (after_read again (appended received c))
  unfolding after_read appended
  after_read_both t u (read_error errno) going clock early input still late before e =
      if_both P (read_again (some errno)) _ _ (λ h. if_nothing t clock early barren)
        (λ h. if_failed barren)
    where
      barren : Barren has_stop fd (size - length received) deadline_ns round
      barren bytes r = let brought = r.brought in cc
  after_read_both t u (got bytes) going clock early input still late before e =
      let (is_open, has_input) = readable_input fd _ round.poll input in
      unfold read_again in
      if_read bytes (record {
        going = going;
        now = t;
        clock = clock;
        early = early;
        is_open = is_open;
        input = has_input;
        still_going = still;
        late_now = u;
        late_clock = late;
        still_early = before;
        brought = e;
      })

  read_late_both :
      (t : ℕ) (late : Option ℕ)
      → ((has_stop && round.stop) ≡ false)
      → round.now_ns ≡ some t
      → t < deadline_ns
      → serial_wait_readable fd (pos (next_wait_ms has_stop deadline_ns t)) round.poll ≡ readable
      → ((has_stop && round.late_stop) ≡ false)
      → round.late_now_ns ≡ late
      → P (read_late again size deadline_ns received round late)
  unfolding read_late
  read_late_both t none going clock early input still e =
      if_failed (λ bytes r. let late = r.late_clock in cc)
  read_late_both t (some u) going clock early input still e =
      if_both P (leb deadline_ns u) _ _
        (λ h. if_late u (inr e) (ground arith) (λ bytes r.
          let late = r.late_clock in
          let before = r.still_early in let same : u ≡ r.late_now = cc in ground arith))
        (λ h.
          subst (λ r. P (after_read again r)) (sym (append_once_lem received size round.read room))
            (after_read_both t u _ going clock early input still e (ground arith) refl))

  after_wait_both :
      (t : ℕ) (ready : Ready)
      → ((has_stop && round.stop) ≡ false)
      → round.now_ns ≡ some t
      → t < deadline_ns
      → serial_wait_readable fd (pos (next_wait_ms has_stop deadline_ns t)) round.poll ≡ ready
      → P (after_wait_readable has_stop again size deadline_ns received round ready)
  unfolding after_wait_readable
  after_wait_both t (wait_error errno) going clock early is =
      if_both P (errno == eintr) _ _ (λ h. if_nothing t clock early barren) (λ h. if_failed barren)
    where
      barren : Barren has_stop fd (size - length received) deadline_ns round
      barren bytes r =
          let other = r.clock in let there = readable_lem fd _ round.poll r.is_open r.input in cc
  after_wait_both t silent going clock early is = if_nothing t clock early (λ bytes r.
      let other = r.clock in let there = readable_lem fd _ round.poll r.is_open r.input in cc)
  after_wait_both t readable going clock early is =
      if_both P (has_stop && round.late_stop) _ _
        (λ h. if_stopped (inr h) (λ bytes r. let still = r.still_going in cc))
        (λ h. read_late_both t _ going clock early is h refl)

  at_clock_both :
      (now : Option ℕ)
      → ((has_stop && round.stop) ≡ false)
      → round.now_ns ≡ now
      → P (at_clock has_stop fd again size deadline_ns received round now)
  unfolding at_clock
  at_clock_both none going clock = if_failed (λ bytes r. let other = r.clock in cc)
  at_clock_both (some t) going clock =
      if_both P (leb deadline_ns t) _ _
        (λ h. if_late t (inl clock) (ground arith) (λ bytes r.
          let other = r.clock in let early = r.early in let same : t ≡ r.now = cc in ground arith))
        (λ h. after_wait_both t _ going clock (ground arith) refl)

  pub read_round_both : P (read_round has_stop fd again size deadline_ns received round)
  unfolding read_round
  read_round_both =
      if_both P (has_stop && round.stop) _ _
        (λ h. if_stopped (inl h) (λ bytes r. let going = r.going in cc))
        (λ h. at_clock_both _ h refl)
